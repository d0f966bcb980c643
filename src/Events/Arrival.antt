-- ===== src/Events/Arrival.antt =====
-- What the answer to an event says of the event.
use kakao_x_termux.Prelude.{
  ℕ, ◌≡◌, refl, Bool, true, false, List, [], ◌∷◌, ◌++◌, ◌||◌, not, arith, eq_refl, Bool-cases, inl,
  inr,
}
use kakao_x_termux.Schemas.{BridgeEvent, EventResponse, queued}
use kakao_x_termux.Messages.{MessageRow, insert_message, has_event}
use kakao_x_termux.Writer.{AsyncSqliteWriter}
use kakao_x_termux.Writer
use kakao_x_termux.Pipeline.State.{
  InMemoryEventEnvelope, MemoryPipeline, queue_of, EnqueueResult, accepted, duplicate,
  partition_limit, queue_full, room_full, writer_full,
}
use kakao_x_termux.Pipeline.Admission.{enqueue_event, envelope_of, EnqueueCall}
use kakao_x_termux.Events.{
  EventState, EventEnv, DurabilityMode, sync_backup, queue_call, answer_enqueue, enqueue_inserted,
}

has_last :
    (row : MessageRow) (xs : List MessageRow) → has_event row.event.event_id (xs ++ row ∷ []) ≡ true
unfolding has_event
has_last row [] = ground (arith, eq_refl row.event.event_id)
has_last row (x ∷ xs) = ground (arith, has_last row xs)

pub insert_message-has :
    (event : BridgeEvent) (now : ℕ) (rows : List MessageRow)
    → has_event event.event_id (insert_message event now rows).0 ≡ true
unfolding insert_message
insert_message-has event now rows = elim (Bool-cases (has_event event.event_id rows)) [
  | inl old ↦ rw old old
  | inr new ↦ rw new (has_last _ rows)
]

-- The envelope of an accepted call stands last in the queue of its room.
abbrev pub StandsLast : InMemoryEventEnvelope → MemoryPipeline → Type 0
StandsLast envelope p =
    (q : List InMemoryEventEnvelope) × (queue_of envelope.event.room_key p ≡ q ++ envelope ∷ [])

abbrev Queued : EnqueueCall → MemoryPipeline × EnqueueResult × AsyncSqliteWriter → Type 0
Queued c (p, accepted, w) = StandsLast (envelope_of c) p
Queued c (p, r, w) = Unit

module _ {C : Type 0} (e : EventEnv C) (event : BridgeEvent) where
  -- An answer QUEUED, and what it says.
  abbrev Told : EventState C × EventResponse → Type 0
  Told (s, r) = r.action ≡ queued → StandsLast (envelope_of (queue_call e event)) s.pipeline

  answer_enqueue-messages :
      (r : EnqueueResult) (s : EventState C) → (answer_enqueue e event r s).0.messages ≡ s.messages
  answer_enqueue-messages accepted s = refl
  answer_enqueue-messages duplicate s = ground arith
  answer_enqueue-messages partition_limit s = refl
  answer_enqueue-messages queue_full s = refl
  answer_enqueue-messages room_full s = refl
  answer_enqueue-messages writer_full s = refl

  pub enqueue_inserted-messages :
      (s : EventState C) → (enqueue_inserted e event s).0.messages ≡ s.messages
  unfolding enqueue_inserted
  enqueue_inserted-messages s =
      let out = enqueue_event (queue_call e event) s.pipeline s.writer in
      answer_enqueue-messages out.1 (record s { pipeline = out.0; writer = out.2 })

abbrev pub is_sync : DurabilityMode → Bool
is_sync sync_backup = true
is_sync _ = false

module _ {C : Type 0} (e : EventEnv C) (event : BridgeEvent) where
  abbrev Kept : DurabilityMode → EventState C × EventResponse → Type 0
  Kept mode (s, r) =
      r.action ≡ queued
      → StandsLast (envelope_of (queue_call e event)) s.pipeline
        × ((not (is_sync mode) || has_event event.event_id s.messages) ≡ true)
