-- ===== src/Tests/Batches.antt =====
-- Batches on concrete data.
use kakao_x_termux.Prelude.{
  ℕ, ◌≡◌, refl, String, none, some, true, false, List, [], ◌∷◌, arith, length, keep_if, min, ◌==◌,
}
use kakao_x_termux.Dict.{lookup}
use kakao_x_termux.Schemas.{null, real_kakao}
use kakao_x_termux.ReplyJobs.{ReplyJob, dispatching}
use kakao_x_termux.Send.{Surroundings}
use kakao_x_termux.Targets.Resolve.{ResolvedTarget}
use kakao_x_termux.Targets.Groups.{rooms, no_filter}
use kakao_x_termux.Batches.{
  SendBatch, running, completed, canceled, SendBatchItem, queued, BatchTables, no_cursor,
  get_send_batch, has_row, get_send_batch_items_summary, list_send_batch_items,
}
use kakao_x_termux.Batches.Service.{BatchState, zero_counts, refresh_batch_counts, listed}
use kakao_x_termux.Batches.Create.{BatchEnv, SendBatchRequest, dispatch_targets}
use kakao_x_termux.Batches.Totals.{sum_counts, refresh_batch_counts_lem}
use kakao_x_termux.Batches.Agreement.{of_summary, refresh_batch_counts-summary}
use kakao_x_termux.Batches.Status.{Stands, refresh-in_flight}
use kakao_x_termux.Batches.Life.{
  Action, creates, retries, summarises, cancels, act_all, act_all-Stands,
}
use kakao_x_termux.Tests.Targets.{sources}
use kakao_x_termux.Batches.Pages.{walk, all_behind, walk_lem}
use kakao_x_termux.Batches.Repeats.{dispatch_targets-repeated}
use kakao_x_termux.Tests.Sends.{surroundings, idle}

abbrev target : String → ResolvedTarget
target room = record {
  room_key = room;
  room = "Room";
  reply_token = some "t";
  reply_token_expires_at = some 90;
  last_seen_at = 5;
  source_type = real_kakao;
  last_sender = some "kim";
  sender_count = 1;
  last_send_status = none;
  last_send_at = none;
}

abbrev batch_request : String → SendBatchRequest
batch_request text = record {
  token = "secret";
  target = record {
    type = rooms;
    room_keys = "r" ∷ "q" ∷ [];
    filter = no_filter;
    group_key = none;
  };
  text = text;
  dry_run = false;
  confirm = true;
  dedupe_key = some "k";
  max_targets = none;
}

abbrev open_batch : SendBatch
open_batch = record {
  target_type = "rooms";
  target_json = null;
  text_hash = "h";
  text_preview = "hello";
  status = running;
  target_count = 2;
  counts = zero_counts;
  created_at = 1;
  updated_at = 1;
  completed_at = none;
}

abbrev item : ℕ → String → SendBatchItem
item id room = record {
  id = id;
  batch_id = "b";
  room_key = room;
  room = "Room";
  job_id = some "j";
  status = queued;
  skip_reason = none;
  created_at = 1;
  updated_at = 1;
}

abbrev job : ReplyJob
job = record {
  room_key = "r";
  room = "Room";
  text = "hello";
  status = dispatching;
  dedupe_key = some "j";
  reply_token = some "t";
  attempt_count = 1;
  last_error = none;
  bridge_mode = "noop";
  created_at = 1;
  updated_at = 1;
  dispatch_owner = none;
  dispatch_lease_expires_at = none;
  dispatch_started_at = none;
  sent_at = none;
}

abbrev tables : BatchTables
tables = record {
  batches = ("b", open_batch) ∷ [];
  items = item 1 "r" ∷ item 2 "q" ∷ [];
  next_id = 3;
}

abbrev state : BatchState
state = record { tables = tables; send = record idle { db = ("j", job) ∷ [] } }

abbrev targets : List ResolvedTarget
targets = target "r" ∷ target "q" ∷ []

abbrev sends : ℕ → Surroundings
sends i = surroundings

dispatch_targets-repeated_example :
    let once = (dispatch_targets "b1" (batch_request "hello") sends 0 targets state).0 in
    ((dispatch_targets "b2" (batch_request "again") sends 0 targets once).0.send ≡ once.send)
    × ((dispatch_targets "b2" (batch_request "again") sends 0 targets once).1 ≡ true)
dispatch_targets-repeated_example =
    dispatch_targets-repeated "b1" "b2" (batch_request "hello") (batch_request "again") sends sends
      "k" targets state (λ i. (refl, refl, refl)) (λ i. (refl, refl, refl)) refl refl refl

refresh_batch_counts-summary_example :
    (b' : SendBatch) × (get_send_batch "b" (refresh_batch_counts "b" [] 9 tables) ≡ some b')
    × (b'.counts
        ≡ of_summary (get_send_batch_items_summary "b" (refresh_batch_counts "b" [] 9 tables)))
unfolding get_send_batch lookup has_row
refresh_batch_counts-summary_example =
    refresh_batch_counts-summary "b" [] 9 tables open_batch refl (refl, (refl, tt)) (omega arith)

refresh_batch_counts_lem_example :
    (b' : SendBatch) × (get_send_batch "b" (refresh_batch_counts "b" [] 9 tables) ≡ some b')
    × (sum_counts b'.counts ≡ min 1000 (length (keep_if (λ r. r.batch_id == "b") tables.items)))
    × (b'.target_count ≡ 2)
unfolding get_send_batch lookup
refresh_batch_counts_lem_example = refresh_batch_counts_lem "b" [] 9 tables open_batch refl

abbrev canceled_state : BatchState
canceled_state = record state {
  tables = record tables { batches = ("b", record open_batch { status = canceled }) ∷ [] };
}

abbrev env : BatchEnv
env = record {
  shared_secret = "secret";
  bulk_send_enabled = true;
  sources = sources;
  new_batch_id = "b9";
  target_type = λ spec. "rooms";
  target_json = λ spec. null;
  text_hash = λ text. text;
  text_preview = λ text. text;
  sends = sends;
  now = 8;
}

abbrev batch_actions : List Action
batch_actions =
    creates env (batch_request "hello")
    ∷ summarises "b" 9
    ∷ cancels "b" 10
    ∷ retries env "b" "again" "secret" none
    ∷ []

act_all-Stands_example : Stands "b" canceled (act_all batch_actions canceled_state).tables
unfolding get_send_batch lookup
act_all-Stands_example =
    act_all-Stands "b" canceled batch_actions canceled_state refl
      (record open_batch { status = canceled }, refl, refl)

refresh-in_flight_example :
    (b' : SendBatch) × (get_send_batch "b" (refresh_batch_counts "b" state.send.db 9 tables)
      ≡ some b')
    × (b'.status ≡ completed)
    × (b'.counts.skipped ≡ length (listed "b" tables))
    × (b'.counts.sent ≡ 0)
unfolding get_send_batch lookup list_send_batch_items
refresh-in_flight_example =
    refresh-in_flight "b" state.send.db 9 tables open_batch refl refl (omega arith) refl

walk_lem_example : walk 3 "b" 1 tables no_cursor ≡ all_behind "b" no_cursor tables
unfolding all_behind
walk_lem_example =
    walk_lem 3 "b" 1 tables no_cursor ((omega arith, tt), (tt, tt)) (omega arith) (omega arith)
      (omega arith)
