-- ===== src/Pipeline/Admission.antt =====
-- app/infra/memory_pipeline.py: `enqueue_event` as its two critical sections, with the writer's
-- backup between them.
use kakao_x_termux.Prelude.{
  ℕ, suc, ◌+◌, ◌-◌, String, none, some, Bool, List, [], ◌∷◌, ◌++◌, ◌&&◌, ◌||◌, not, leb, eqb,
  length, is_empty, is_some, if◌then◌else◌,
}
use kakao_x_termux.Prelude.Texts.{contains}
use kakao_x_termux.Dict.{Dict, lookup, insert, remove}
use kakao_x_termux.Schemas.{BridgeEvent}
use kakao_x_termux.Writer.{AsyncSqliteWriter, message_backup, message_processed}
use kakao_x_termux.Writer
use kakao_x_termux.Pipeline.State.{
  Processor, InMemoryEventEnvelope, MemoryPipeline, EnqueueResult, accepted, duplicate,
  partition_limit, queue_full, room_full, writer_full, queue_of, mark_room_ready, oldest_of,
}

-- One entry of `_evict_dedupe_locked` that has expired: the id is forgotten if it was not seen again.
abbrev pub forget : String → ℕ → Dict ℕ → Dict ℕ
forget key accepted_at d = elim (lookup key d) [
  | none ↦ d
  | some at ↦ if eqb at accepted_at then remove key d else d
]

unfoldable pub evict_dedupe : ℕ → ℕ → Dict ℕ → List (String × ℕ) → Dict ℕ × List (String × ℕ)
evict_dedupe current ttl d [] = (d, [])
evict_dedupe current ttl d ((key, accepted_at) ∷ order) =
    let rest = evict_dedupe current ttl (forget key accepted_at d) order in
    if leb (current - accepted_at) ttl then (d, (key, accepted_at) ∷ order) else rest

abbrev pub evict : ℕ → MemoryPipeline → MemoryPipeline
evict current p =
    let r = evict_dedupe current p.dedupe_ttl_ms p.dedupe p.dedupe_order in
    record p { dedupe = r.0; dedupe_order = r.1 }

-- `len(set(self._room_queues) | self._active_rooms)`
unfoldable pub count_new : List String → Dict (List InMemoryEventEnvelope) → ℕ
count_new active [] = 0
count_new active ((room, q) ∷ rooms) =
    let rest = count_new active rooms in if contains room active then rest else suc rest

unfoldable pub active_partitions : MemoryPipeline → ℕ
unfolding count_new
active_partitions p = length p.active_rooms + count_new p.active_rooms p.room_queues

abbrev pub reject : MemoryPipeline → MemoryPipeline
reject p = record p { stats = record stats { rejected = stats.rejected + 1 } }
  where
    open p use {stats}

abbrev pub reject_duplicate : MemoryPipeline → MemoryPipeline
reject_duplicate p = record p { stats = record stats { duplicate = stats.duplicate + 1 } }
  where
    open p use {stats}

-- `room_queue.popleft()` under the policy `drop_oldest`.
abbrev pub drop_head : String → List InMemoryEventEnvelope → MemoryPipeline → MemoryPipeline
drop_head room [] p = p
drop_head room (e ∷ rest) p = record p {
  room_queues = insert room rest room_queues;
  queued_total = queued_total - 1;
  stats = record stats { dropped = stats.dropped + 1 };
}
  where
    open p use {room_queues, queued_total, stats}

-- The part of the section behind `setdefault`, with the room's queue.
abbrev pub admit_room :
    String → List InMemoryEventEnvelope → MemoryPipeline → MemoryPipeline × EnqueueResult
admit_room room queue p =
    if leb p.global_limit p.queued_total
    then (reject p, queue_full)
    else if leb p.room_limit (length queue)
    then if p.drop_oldest && not (is_empty queue)
      then (drop_head room queue p, accepted)
      else (reject p, room_full)
    else (p, accepted)

abbrev pub set_default : String → MemoryPipeline → MemoryPipeline
set_default room p = record p { room_queues = insert room (queue_of room p) p.room_queues }

abbrev pub known_room : String → MemoryPipeline → Bool
known_room room p = is_some (lookup room p.room_queues) || contains room p.active_rooms

-- The first section of `enqueue_event`: `accepted` lets the call go on.
unfoldable pub admit : BridgeEvent → ℕ → MemoryPipeline → MemoryPipeline × EnqueueResult
admit event accepted_at p0 =
    let p = evict accepted_at p0 in
    if is_some (lookup event.event_id p.dedupe)
    then (reject_duplicate p, duplicate)
    else if not (known_room event.room_key p) && leb p.max_active_partitions (active_partitions p)
    then (reject p, partition_limit)
    else admit_room event.room_key (queue_of event.room_key p) (set_default event.room_key p)

-- The second section of `enqueue_event`: the envelope goes to the end of its room's queue.
abbrev pub append_envelope : InMemoryEventEnvelope → MemoryPipeline → MemoryPipeline
append_envelope envelope p = record p {
  room_queues = insert room (queue_of room p ++ envelope ∷ []) p.room_queues;
  dedupe = insert envelope.dedupe_key envelope.accepted_at p.dedupe;
  dedupe_order = p.dedupe_order ++ (envelope.dedupe_key, envelope.accepted_at) ∷ [];
  queued_total = p.queued_total + 1;
  stats = record stats { accepted = stats.accepted + 1 };
  oldest_accepted_at = some (oldest_of p.oldest_accepted_at envelope.accepted_at);
}
  where
    open p use {stats}

    room : String
    room = envelope.event.room_key

unfoldable pub commit : InMemoryEventEnvelope → MemoryPipeline → MemoryPipeline
commit envelope p = mark_room_ready envelope.event.room_key (append_envelope envelope p)

-- The arguments of `enqueue_event`, with the readings that it takes: the time, the monotonic clock and
-- a fresh uuid.
pub record EnqueueCall : Type 0 where
  pub event : BridgeEvent
  pub processor : Processor
  pub backup : Bool
  pub checkpoint_processed : Bool
  pub now : ℕ
  pub monotonic_ns : ℕ
  pub uuid : String

abbrev pub envelope_of : EnqueueCall → InMemoryEventEnvelope
envelope_of c = record {
  event = c.event;
  received_monotonic_ns = c.monotonic_ns;
  accepted_at = c.now;
  trace_id = c.uuid;
  dedupe_key = c.event.event_id;
  checkpoint_processed = c.checkpoint_processed;
  processor = c.processor;
}

-- `enqueue_event` where no other thread comes between its sections.
abbrev pub after_admit :
    EnqueueCall
    → MemoryPipeline
    → EnqueueResult
    → AsyncSqliteWriter
    → MemoryPipeline × EnqueueResult × AsyncSqliteWriter
after_admit c p accepted w =
    if c.backup
    then (let (w', saved) = Writer.enqueue (message_backup c.event) w in
        if saved then (commit (envelope_of c) p, accepted, w') else (reject p, writer_full, w'))
    else (commit (envelope_of c) p, accepted, w)
after_admit c p refused w = (p, refused, w)

unfoldable pub enqueue_event :
    EnqueueCall
    → MemoryPipeline
    → AsyncSqliteWriter
    → MemoryPipeline × EnqueueResult × AsyncSqliteWriter
enqueue_event c p w = let (p', r) = admit c.event c.now p in after_admit c p' r w
