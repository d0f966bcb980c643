-- ===== src/Pipeline/Worker.antt =====
-- app/infra/memory_pipeline.py: what a worker thread does before and after an item's callback.
use kakao_x_termux.Prelude.{
  ℕ, ◌+◌, ◌-◌, String, Option, none, some, Bool, true, false, List, [], ◌∷◌, ◌&&◌, is_empty,
  if◌then◌else◌,
}
use kakao_x_termux.Prelude.Texts.{add, discard}
use kakao_x_termux.Dict.{Dict, insert, remove}
use kakao_x_termux.Writer.{AsyncSqliteWriter, message_backup, message_processed}
use kakao_x_termux.Writer
use kakao_x_termux.Pipeline.State.{
  InMemoryEventEnvelope, PipelineStats, MemoryPipeline, queue_of, mark_room_ready, oldest_of,
}

-- A room whose queue has run out leaves the dictionary.
abbrev pub without_head :
    String
    → List InMemoryEventEnvelope
    → Dict (List InMemoryEventEnvelope)
    → Dict (List InMemoryEventEnvelope)
without_head room rest d = if is_empty rest then remove room d else insert room rest d

-- `_next_item`, once a room is ready: the room leaves the ready list, and its oldest envelope goes to
-- the worker.
abbrev pub take_head :
    String
    → List InMemoryEventEnvelope
    → MemoryPipeline
    → MemoryPipeline × Option (String × InMemoryEventEnvelope)
take_head room [] p = (p, none)
take_head room (envelope ∷ rest) p = (
  record p {
    room_queues = without_head room rest room_queues;
    queued_total = queued_total - 1;
    active_total = active_total + 1;
    active_rooms = add room active_rooms;
  },
  some (room, envelope),
)
  where
    open p use {room_queues, queued_total, active_total, active_rooms}

abbrev pub take_ready :
    List String → MemoryPipeline → MemoryPipeline × Option (String × InMemoryEventEnvelope)
take_ready [] p = (p, none)
take_ready (room ∷ rest) p =
    take_head room (queue_of room p)
      (record p { ready_rooms = rest; ready_room_set = discard room p.ready_room_set })

unfoldable pub next_item : MemoryPipeline → MemoryPipeline × Option (String × InMemoryEventEnvelope)
next_item p = take_ready p.ready_rooms p

-- `_recompute_oldest_locked`
unfoldable pub recompute_oldest : Dict (List InMemoryEventEnvelope) → Option ℕ → Option ℕ
recompute_oldest [] oldest = oldest
recompute_oldest ((room, []) ∷ rooms) oldest = recompute_oldest rooms oldest
recompute_oldest ((room, e ∷ rest) ∷ rooms) oldest =
    recompute_oldest rooms (some (oldest_of oldest e.accepted_at))

-- What a worker does with its item after the callback: the counters, and the `finally` section.
abbrev pub count_outcome : Bool → PipelineStats → PipelineStats
count_outcome true s = record s { processed = s.processed + 1 }
count_outcome false s = record s { errors = s.errors + 1 }

abbrev pub release : String → Bool → MemoryPipeline → MemoryPipeline
release room returned p = record p {
  stats = count_outcome returned p.stats;
  active_total = p.active_total - 1;
  active_rooms = discard room p.active_rooms;
}

abbrev pub mark_if_pending : String → MemoryPipeline → MemoryPipeline
mark_if_pending room p = if is_empty (queue_of room p) then p else mark_room_ready room p

-- The section of the counters and that of the `finally`, which follow each other, in one.
unfoldable pub finish : String → Bool → MemoryPipeline → MemoryPipeline
finish room returned p =
    let q = mark_if_pending room (release room returned p) in
    record q { oldest_accepted_at = recompute_oldest q.room_queues none }

-- The writer's part of a worker's round: the processed mark of an event whose callback returned.
abbrev pub checkpoint : Bool → InMemoryEventEnvelope → AsyncSqliteWriter → AsyncSqliteWriter
checkpoint returned envelope w =
    if returned && envelope.checkpoint_processed
    then (Writer.enqueue (message_processed envelope.event.event_id) w).0
    else w
