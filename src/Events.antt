-- ===== src/Events.antt =====
-- app/services/event_service.py: an event from the bridge, from its arrival to its answer. What a call
-- meets is an argument: the settings, the clock, a fresh uuid, which statements raise, and the processing of
-- an event by the bots, which works on a state of its own and may raise.
pub mod Arrival
pub mod Refusal
use kakao_x_termux.Prelude.{
  ℕ, String, Option, none, some, Bool, true, false, List, [], ◌∷◌, ◌++◌, ◌&&◌, not, ◌==◌,
  if◌then◌else◌,
}
use kakao_x_termux.Schemas.{BridgeEvent, EventAction, EventResponse}
use kakao_x_termux.Messages.{MessageRow, insert_message, mark_message_processed}
use kakao_x_termux.Messages.Tokens.{ReplyTokenCache, update_from_event}
use kakao_x_termux.Writer.{AsyncSqliteWriter}
use kakao_x_termux.Pipeline.State.{
  MemoryPipeline, process_queued, EnqueueResult, accepted, duplicate, partition_limit, queue_full,
  room_full, writer_full,
}
use kakao_x_termux.Pipeline.Admission.{EnqueueCall, enqueue_event}
use kakao_x_termux.Rules.{acknowledge}

-- `event_process_mode` and `event_durability_mode`; the settings are texts, of which the code names these.
pub data ProcessMode : Type 0 where
  memory_queue inline_wait other_mode : ProcessMode

pub data DurabilityMode : Type 0 where
  sync_backup enqueue_backup memory_only other_durability : DurabilityMode

-- A row that `log_event_result` writes: the event, its answer, and whether it was a duplicate.
abbrev pub ResultLog : Type 0
ResultLog = List (String × EventResponse × Bool)

pub record EventState (C : Type 0) : Type 0 where
  pub messages : List MessageRow
  pub token_cache : ReplyTokenCache
  pub pipeline : MemoryPipeline
  pub writer : AsyncSqliteWriter
  pub chat : C
  pub results : ResultLog

pub record EventEnv (C : Type 0) : Type 0 where
  pub shared_secret : String
  pub process_mode : ProcessMode
  pub durability_mode : DurabilityMode
  pub result_log_enabled : Bool
  pub now : ℕ
  pub monotonic_ns : ℕ
  pub uuid : String
  pub insert_raises : Bool
  pub mark_raises : Bool
  pub log_raises : Bool
  pub process : BridgeEvent → C → C × Option EventResponse

-- `EventResponse(ack=True, action=EventAction.none, error=…)`
abbrev pub failed_with : String → EventResponse
failed_with error = record (acknowledge EventAction.none) { error = some error }

abbrev pub internal_error : EventResponse
internal_error = failed_with "internal processing error"

abbrev pub duplicate_event : EventResponse
duplicate_event = failed_with "duplicate eventId"

abbrev pub or_internal_error : Option EventResponse → EventResponse
or_internal_error none = internal_error
or_internal_error (some r) = r

abbrev pub is_enqueue_backup : DurabilityMode → Bool
is_enqueue_backup enqueue_backup = true
is_enqueue_backup _ = false

abbrev pub is_memory_only : DurabilityMode → Bool
is_memory_only memory_only = true
is_memory_only _ = false

-- The text of a refusal.
abbrev pub refusal : EnqueueResult → String
refusal partition_limit = "active room partition limit reached"
refusal queue_full = "event queue full"
refusal room_full = "room queue full"
refusal writer_full = "sqlite writer queue full"
refusal _ = "event queue rejected"

abbrev pub refused : String → EventResponse
refused error = record (acknowledge EventAction.none) { ack = false; error = some error }

module _ {C : Type 0} where
  -- `log_event_result`, whose exception is only logged.
  abbrev pub log_result :
      EventEnv C → BridgeEvent → EventResponse → Bool → EventState C → EventState C
  log_result e event r is_duplicate s =
      if e.log_raises
      then s
      else record s { results = s.results ++ (event.event_id, r, is_duplicate) ∷ [] }

  abbrev mark : EventEnv C → Bool → BridgeEvent → EventState C → EventState C
  mark e mark_processed event s =
      if mark_processed && not e.mark_raises
      then record s { messages = mark_message_processed event.event_id s.messages }
      else s

  abbrev log_if : EventEnv C → BridgeEvent → EventResponse → EventState C → EventState C
  log_if e event r s = if e.result_log_enabled then log_result e event r false s else s

  -- `_process_inserted_event`, called with `log_result=True`.
  unfoldable pub process_inserted_event :
      EventEnv C → Bool → BridgeEvent → EventState C → EventState C × EventResponse
  unfolding mark_message_processed
  process_inserted_event e mark_processed event s =
      let (chat, answer) = e.process event s.chat in
      let r = or_internal_error answer in
      (log_if e event r (mark e mark_processed event (record s { chat = chat })), r)

  -- The insertion of the event: `none` where the statement raises.
  abbrev pub insert_event : EventEnv C → BridgeEvent → EventState C → EventState C × Option Bool
  insert_event e event s =
      if e.insert_raises
      then (s, none)
      else (let (rows, new) = insert_message event e.now s.messages in
          (record s { messages = rows }, some new))

  abbrev pub answer_duplicate :
      EventEnv C → BridgeEvent → EventState C → EventState C × EventResponse
  answer_duplicate e event s = (log_result e event duplicate_event true s, duplicate_event)

  abbrev pub queue_call : EventEnv C → BridgeEvent → EnqueueCall
  queue_call e event = record {
    event = event;
    processor = process_queued;
    backup = is_enqueue_backup e.durability_mode;
    checkpoint_processed = not (is_memory_only e.durability_mode);
    now = e.now;
    monotonic_ns = e.monotonic_ns;
    uuid = e.uuid;
  }

  abbrev pub answer_enqueue :
      EventEnv C → BridgeEvent → EnqueueResult → EventState C → EventState C × EventResponse
  answer_enqueue e event accepted s = (s, acknowledge EventAction.queued)
  answer_enqueue e event duplicate s = answer_duplicate e event s
  answer_enqueue e event r s = (s, refused (refusal r))

  unfoldable pub enqueue_inserted :
      EventEnv C → BridgeEvent → EventState C → EventState C × EventResponse
  unfolding enqueue_event
  enqueue_inserted e event s =
      let (p, r, w) = enqueue_event (queue_call e event) s.pipeline s.writer in
      answer_enqueue e event r (record s { pipeline = p; writer = w })

  -- What follows the insertion of an event.
  abbrev pub when_new :
      EventEnv C
      → BridgeEvent
      → (EventState C → EventState C × EventResponse)
      → EventState C × Option Bool
      → EventState C × EventResponse
  when_new e event go (s, none) = (s, internal_error)
  when_new e event go (s, some false) = answer_duplicate e event s
  when_new e event go (s, some true) = go s

  -- With `sync_backup` the event is stored before it is queued.
  unfoldable pub by_durability :
      DurabilityMode → EventEnv C → BridgeEvent → EventState C → EventState C × EventResponse
  unfolding insert_message enqueue_inserted
  by_durability sync_backup e event s =
      when_new e event (enqueue_inserted e event) (insert_event e event s)
  by_durability _ e event s = enqueue_inserted e event s

  -- `_handle_memory_queue_event`
  unfoldable pub handle_memory_queue_event :
      EventEnv C → BridgeEvent → EventState C → EventState C × EventResponse
  unfolding by_durability
  handle_memory_queue_event e event s = by_durability e.durability_mode e event s

  unfoldable pub handle_inline_event :
      EventEnv C → BridgeEvent → EventState C → EventState C × EventResponse
  unfolding insert_message process_inserted_event
  handle_inline_event e event s =
      when_new e event (process_inserted_event e true event) (insert_event e event s)

  -- `handle_event`; `none` is the HTTP error 401 of `verify_token`.
  unfoldable pub handle_event :
      EventEnv C → BridgeEvent → EventState C → EventState C × Option EventResponse
  unfolding update_from_event handle_memory_queue_event handle_inline_event
  handle_event e event s0 =
      let s = record s0 { token_cache = update_from_event event s0.token_cache } in
      if not (event.token == e.shared_secret) then (s0, none) else elim e.process_mode [
        | memory_queue ↦ (let (s', r) = handle_memory_queue_event e event s in (s', some r))
        | _ ↦ (let (s', r) = handle_inline_event e event s in (s', some r))
      ]

  -- `recover_inserted_event`
  unfoldable pub recover_inserted_event :
      EventEnv C → BridgeEvent → EventState C → EventState C × EventResponse
  unfolding process_inserted_event
  recover_inserted_event e event s = process_inserted_event e true event s
