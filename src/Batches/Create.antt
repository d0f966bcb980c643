-- ===== src/Batches/Create.antt =====
-- app/services/send_batch_service.py: `create_batch`, `retry_failed` and `preview_batch`.
use kakao_x_termux.Prelude.{
  ℕ, suc, ◌+◌, String, Option, none, some, Bool, true, false, List, [], ◌∷◌, ◌&&◌, not, ltb, length,
  is_empty, keep_if, map, ◌==◌, if◌then◌else◌,
}
use kakao_x_termux.Dict.{lookup}
use kakao_x_termux.Schemas.{Json}
use kakao_x_termux.Send.{SendRequest, SendResponse, Surroundings, SendState, handle_send}
use kakao_x_termux.StateStore.Keys.{join}
use kakao_x_termux.Dispatch.{first_text}
use kakao_x_termux.Targets.Groups.{SendTargetSpec, rooms, no_filter}
use kakao_x_termux.Targets.Resolve.{
  ResolvedTarget, TargetResolution, Sources, resolve_target_spec, sum_values,
}
use kakao_x_termux.Targets.Listing.{Preview, preview_target_spec}
use kakao_x_termux.Batches.{
  SendBatchStatus, dry_run, failed, token_expired, handle_expired, skipped, SendBatch,
  SendBatchItem, BatchTables, insert_send_batch, insert_send_batch_item,
}
use kakao_x_termux.Batches.Service.{
  BatchState, unauthorized, disabled, unconfirmed, over_limit, nothing_to_retry, id_taken, Result,
  error, ok, SendBatchResponse, zero_counts, item_status_from_reply, refresh_batch_counts,
  get_batch, get_batch_summary, listed,
}

pub record SendBatchRequest : Type 0 where
  pub token : String
  pub target : SendTargetSpec
  pub text : String
  pub dry_run : Bool
  pub confirm : Bool
  pub dedupe_key : Option String
  pub max_targets : Option ℕ

-- What a call of the service reads: the settings, the sources of the targets, the new `batch_…` id of
-- `uuid4`, the texts of hashlib and json, and what the send request with a given index meets.
pub record BatchEnv : Type 0 where
  pub shared_secret : String
  pub bulk_send_enabled : Bool
  pub sources : Sources
  pub new_batch_id : String
  pub target_type : SendTargetSpec → String
  pub target_json : SendTargetSpec → Json
  pub text_hash : String → String
  pub text_preview : String → String
  pub sends : ℕ → Surroundings
  pub now : ℕ

-- `f"{request.dedupeKey or batch_id}:{target.room_key}"`
unfoldable pub target_key : String → SendBatchRequest → ResolvedTarget → String
unfolding join
target_key batch_id q t = join (first_text q.dedupe_key batch_id) (join ":" t.room_key)

abbrev pub send_request : String → SendBatchRequest → ResolvedTarget → SendRequest
send_request batch_id q t = record {
  room_key = t.room_key;
  room = t.room;
  text = q.text;
  dedupe_key = some (target_key batch_id q t);
  reply_token = t.reply_token;
  token = q.token;
}

-- The item of a target that a send request answered.
abbrev pub record_item : String → ResolvedTarget → SendResponse → ℕ → BatchTables → BatchTables
record_item batch_id t r now =
    insert_send_batch_item batch_id t.room_key t.room (some r.job_id)
      (item_status_from_reply r.status) r.error now

-- A send request that is refused raises out of the loop.
abbrev pub after_send :
    String → ResolvedTarget → ℕ → SendState × Option SendResponse → BatchState → BatchState × Bool
after_send batch_id t now (sent, none) s = (record s { send = sent }, false)
after_send batch_id t now (sent, some r) s =
    (record { send = sent; tables = record_item batch_id t r now s.tables }, true)

-- `_dispatch_targets` from the target with index n on, with False where a request raised. The result's
-- counts are not read by the caller.
unfoldable pub dispatch_targets :
    String
    → SendBatchRequest
    → (ℕ → Surroundings)
    → ℕ
    → List ResolvedTarget
    → BatchState
    → BatchState × Bool
unfolding target_key handle_send insert_send_batch_item item_status_from_reply
dispatch_targets batch_id q sends n [] s = (s, true)
dispatch_targets batch_id q sends n (t ∷ ts) s =
    let r =
      after_send batch_id t (sends n).now (handle_send (sends n) (send_request batch_id q t) s.send)
        s in
    let rest = dispatch_targets batch_id q sends (suc n) ts r.0 in if r.1 then rest else r

-- `_persist_preview_items`
unfoldable pub persist_preview_items : String → ℕ → List ResolvedTarget → BatchTables → BatchTables
unfolding insert_send_batch_item
persist_preview_items batch_id now [] tables = tables
persist_preview_items batch_id now (t ∷ ts) tables =
    persist_preview_items batch_id now ts
      (insert_send_batch_item batch_id t.room_key t.room none skipped (some "dryRun") now tables)

abbrev pub over_max : Option ℕ → Bool
over_max none = false
over_max (some n) = ltb 0 n

-- The row of a new batch.
unfoldable pub insert_batch_row :
    BatchEnv → SendBatchRequest → TargetResolution → BatchTables → Option BatchTables
unfolding insert_send_batch sum_values
insert_batch_row e q r tables =
    insert_send_batch e.new_batch_id (e.target_type q.target) (e.target_json q.target)
      (e.text_hash q.text) (e.text_preview q.text)
      (if q.dry_run then dry_run else SendBatchStatus.queued)
      (length r.targets + sum_values r.excluded_reasons)
      (record zero_counts { skipped = sum_values r.excluded_reasons }) e.now tables

-- The refresh and the answer behind the items.
abbrev pub finish_batch : BatchEnv → BatchState → BatchState × Result SendBatchResponse
finish_batch e s =
    let t = refresh_batch_counts e.new_batch_id s.send.db e.now s.tables in
    (record s { tables = t }, get_batch e.new_batch_id t)

-- The batch once its row is stored.
unfoldable pub fill_batch :
    BatchEnv
    → SendBatchRequest
    → List ResolvedTarget
    → BatchState
    → BatchState × Result SendBatchResponse
unfolding persist_preview_items dispatch_targets refresh_batch_counts get_batch
fill_batch e q targets s =
    if q.dry_run
    then finish_batch e
        (record s { tables = persist_preview_items e.new_batch_id e.now targets s.tables })
    else (let (s', done) = dispatch_targets e.new_batch_id q e.sends 0 targets s in
        if done then finish_batch e s' else (s', error unauthorized))

-- The batch of a request that may go on, with its targets.
unfoldable pub store_batch :
    BatchEnv
    → SendBatchRequest
    → TargetResolution
    → BatchState
    → BatchState × Result SendBatchResponse
unfolding insert_batch_row fill_batch
store_batch e q r s =
    if not q.dry_run && over_max (lookup "maxTargets" r.excluded_reasons)
    then (s, error over_limit)
    else elim (insert_batch_row e q r s.tables) [
      | none ↦ (s, error id_taken)
      | some tables ↦ fill_batch e q r.targets (record s { tables = tables })
    ]

-- `create_batch`
unfoldable pub create_batch :
    BatchEnv → SendBatchRequest → BatchState → BatchState × Result SendBatchResponse
unfolding store_batch resolve_target_spec
create_batch e q s =
    if not (q.token == e.shared_secret)
    then (s, error unauthorized)
    else if not e.bulk_send_enabled
    then (s, error disabled)
    else if not q.dry_run && not q.confirm
    then (s, error unconfirmed)
    else store_batch e q (resolve_target_spec e.sources q.target q.max_targets (not q.dry_run)) s

abbrev pub has_failed : SendBatchItem → Bool
has_failed r = elim r.status [
  | failed ↦ true
  | token_expired ↦ true
  | handle_expired ↦ true
  | _ ↦ false
]

abbrev pub retry_request : String → String → Option String → List SendBatchItem → SendBatchRequest
retry_request token text dedupe_key items = record {
  token = token;
  target = record {
    type = rooms;
    room_keys = map (λ r. r.room_key) items;
    filter = no_filter;
    group_key = none;
  };
  text = text;
  dry_run = false;
  confirm = true;
  dedupe_key = dedupe_key;
  max_targets = none;
}

abbrev pub summary_of :
    BatchEnv → BatchState × Result SendBatchResponse → BatchState × Result SendBatch
summary_of e (s, error r) = (s, error r)
summary_of e (s, ok r) = get_batch_summary r.batch_id e.now s

-- `retry_failed`
unfoldable pub retry_failed :
    BatchEnv → String → String → String → Option String → BatchState → BatchState × Result SendBatch
unfolding create_batch get_batch_summary
retry_failed e batch_id text token dedupe_key s =
    let items = keep_if has_failed (listed batch_id s.tables) in
    if not (token == e.shared_secret)
    then (s, error unauthorized)
    else if not e.bulk_send_enabled
    then (s, error disabled)
    else if is_empty items
    then (s, error nothing_to_retry)
    else summary_of e (create_batch e (retry_request token text dedupe_key items) s)

-- `preview_batch`
unfoldable pub preview_batch : BatchEnv → String → SendTargetSpec → Option ℕ → Result Preview
unfolding preview_target_spec
preview_batch e token target max_targets =
    if not (token == e.shared_secret)
    then error unauthorized
    else if not e.bulk_send_enabled
    then error disabled
    else ok (preview_target_spec e.sources target max_targets)
