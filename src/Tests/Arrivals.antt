-- ===== src/Tests/Arrivals.antt =====
-- The event service on a concrete event. The bots count their calls.
use kakao_x_termux.Prelude.{ℕ, suc, ◌≡◌, refl, some, true, false, [], if◌then◌else◌}
use kakao_x_termux.Schemas.{EventAction}
use kakao_x_termux.Messages.{has_event}
use kakao_x_termux.Messages.Tokens.{empty_cache}
use kakao_x_termux.Writer.{fresh}
use kakao_x_termux.Pipeline.State.{init}
use kakao_x_termux.Rules.{acknowledge}
use kakao_x_termux.Events.{
  EventState, EventEnv, memory_queue, sync_backup, handle_memory_queue_event, handle_inline_event,
  duplicate_event, or_internal_error,
}
use kakao_x_termux.Events.Refusal.{is_processed, handle_inline_event_lem, sync_retry}
use kakao_x_termux.Tests.Sends.{event}

abbrev env : EventEnv ℕ
env = record {
  shared_secret = "secret";
  process_mode = memory_queue;
  durability_mode = sync_backup;
  result_log_enabled = true;
  now = 10;
  monotonic_ns = 10;
  uuid = "u";
  insert_raises = false;
  mark_raises = false;
  log_raises = false;
  process = λ e n. (suc n, some (acknowledge EventAction.none));
}

abbrev at_start : EventState ℕ
at_start = record {
  messages = [];
  token_cache = empty_cache;
  pipeline = init 4 2 2 false 60;
  writer = fresh 4 2 false;
  chat = 0;
  results = [];
}

handle_inline_event_lem_example :
    let out = handle_inline_event env event at_start in
    let old = has_event "e1" [] in
    (out.1 ≡ (if old then duplicate_event else or_internal_error (env.process event 0).1))
    × (out.0.chat ≡ (if old then 0 else (env.process event 0).0))
    × ((if old then true else is_processed "e1" out.0.messages) ≡ true)
handle_inline_event_lem_example = handle_inline_event_lem env event at_start refl refl

sync_retry_example :
    let once = (handle_memory_queue_event env event at_start).0 in
    ((handle_memory_queue_event env event once).1 ≡ duplicate_event)
    × ((handle_memory_queue_event env event once).0.pipeline ≡ once.pipeline)
sync_retry_example = sync_retry env env event at_start refl refl refl refl
