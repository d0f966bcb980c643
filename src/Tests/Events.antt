-- ===== src/Tests/Events.antt =====
-- The event pipeline on concrete events.
use kakao_x_termux.Prelude.{
  ℕ, suc, ◌≡◌, refl, String, none, some, true, false, List, [], ◌∷◌, ◌++◌, arith,
}
use kakao_x_termux.Prelude.Texts.{contains, add}
use kakao_x_termux.Dict.{lookup, insert}
use kakao_x_termux.Schemas.{BridgeEvent, real_kakao, text_message}
use kakao_x_termux.Writer.{fresh}
use kakao_x_termux.Pipeline.State.{
  InMemoryEventEnvelope, process_queued, MemoryPipeline, accepted, duplicate, init, queue_of,
  mark_room_ready,
}
use kakao_x_termux.Pipeline.Admission.{
  admit, commit, EnqueueCall, envelope_of, enqueue_event, reject_duplicate, evict, evict_dedupe,
  active_partitions,
}
use kakao_x_termux.Pipeline.Worker.{next_item}
use kakao_x_termux.Pipeline.Schedule.{Section, admits, commits, takes, finishes, run}
use kakao_x_termux.Pipeline.Invariant.{IsSound}
use kakao_x_termux.Pipeline.Invariant.Runs.{run-init-IsSound}
use kakao_x_termux.Pipeline.Order.{handed_out, committed, room_order, next_item_exclusive}
use kakao_x_termux.Pipeline.Dedupe.{act_all, duplicate_refused}
use kakao_x_termux.Pipeline.Race.{duplicate_race}
use kakao_x_termux.Pipeline.Partitions.{refused_partition}

abbrev pub event : String → String → BridgeEvent
event id room = record {
  schema_version = 1;
  event_id = id;
  source = "android";
  source_package = "com.kakao.talk";
  source_type = real_kakao;
  room_key = room;
  room = "Room";
  sender = some "kim";
  text = "hello";
  message_type = text_message;
  received_at = 5;
  notification_key = none;
  reply_token = some "t";
  reply_token_expires_at = some 90;
  token = "secret";
}

abbrev enqueue_at : String → String → ℕ → EnqueueCall
enqueue_at id room now = record {
  event = event id room;
  processor = process_queued;
  backup = false;
  checkpoint_processed = true;
  now = now;
  monotonic_ns = now;
  uuid = id;
}

abbrev pub envelope : String → String → InMemoryEventEnvelope
envelope id room = envelope_of (enqueue_at id room 10)

-- Two events of one room, of which a worker takes the first, and an event of another room.
abbrev pub schedule : List Section
schedule =
    admits (event "e1" "r") 10
    ∷ commits (envelope "e1" "r")
    ∷ admits (event "e2" "r") 11
    ∷ commits (envelope "e2" "r")
    ∷ takes
    ∷ admits (event "e3" "q") 12
    ∷ commits (envelope "e3" "q")
    ∷ finishes "r" true
    ∷ []

abbrev pub small : MemoryPipeline
small = init 4 2 2 false 60

room_order_example :
    handed_out "r" schedule small ++ queue_of "r" (run schedule small) ≡ committed "r" schedule
room_order_example = room_order 4 2 2 60 schedule "r"

run-init-IsSound_example : IsSound (run schedule small)
run-init-IsSound_example = run-init-IsSound 4 2 2 false 60 schedule

abbrev one_event : List Section
one_event = admits (event "e1" "r") 10 ∷ commits (envelope "e1" "r") ∷ []

abbrev waiting : MemoryPipeline
waiting = run one_event small

next_item_exclusive_example :
    (queue_of "r" waiting ≡ envelope "e1" "r" ∷ queue_of "r" (next_item waiting).0)
    × (contains "r" waiting.active_rooms ≡ false)
    × (contains "r" (next_item waiting).0.active_rooms ≡ true)
    × (contains "r" (next_item waiting).0.ready_rooms ≡ false)
unfolding run next_item admit commit mark_room_ready evict_dedupe active_partitions lookup insert
    contains add
next_item_exclusive_example =
    next_item_exclusive waiting (next_item waiting).0 "r" (envelope "e1" "r")
      (run-init-IsSound 4 2 2 false 60 one_event) refl

duplicate_refused_example :
    let first = enqueue_event (enqueue_at "e1" "r" 10) small (fresh 4 2 false) in
    let s = act_all [] (first.0, first.2) in
    enqueue_event (enqueue_at "e1" "r" 20) s.0 s.1
    ≡ (reject_duplicate (evict 20 s.0), duplicate, s.1)
unfolding enqueue_event admit evict_dedupe lookup insert contains active_partitions
duplicate_refused_example =
    duplicate_refused (enqueue_at "e1" "r" 10) (enqueue_at "e1" "r" 20) small (fresh 4 2 false) []
      refl _ refl (omega arith)

duplicate_race_example :
    let both = admit (event "e1" "r") 11 (admit (event "e1" "r") 10 small).0 in
    (both.1 ≡ accepted)
    × (queue_of "r" (commit (envelope "e1" "r") (commit (envelope "e1" "r") both.0))
        ≡ queue_of "r" small ++ envelope "e1" "r" ∷ envelope "e1" "r" ∷ [])
unfolding admit evict_dedupe lookup contains active_partitions
duplicate_race_example =
    duplicate_race (envelope "e1" "r") (envelope "e1" "r") 10 11 small refl refl refl

-- A queue for one event, which an event of another room has taken.
abbrev full : MemoryPipeline
full = run one_event (init 1 1 2 false 60)

refused_partition_example :
    let q = (admit (event "e2" "q") 11 full).0 in
    (lookup "q" q.room_queues ≡ some [])
    × (active_partitions q ≡ suc (active_partitions full))
    × (q.queued_total ≡ full.queued_total)
unfolding run admit commit mark_room_ready evict_dedupe lookup insert contains add active_partitions
refused_partition_example = refused_partition (event "e2" "q") 11 full refl refl refl
