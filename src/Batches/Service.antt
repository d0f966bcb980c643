-- ===== src/Batches/Service.antt =====
-- app/services/send_batch_service.py: batches of sends, their items and their counts. What the service
-- reads from elsewhere is an argument: the settings, the clock, the new batch id, the texts that hashlib
-- and json give, and for each target what its send request meets.
use kakao_x_termux.Prelude.{
  ℕ, suc, ◌+◌, String, Option, none, some, Bool, true, false, List, [], ◌∷◌, ◌&&◌, eqb, ltb, length,
  ◌==◌, if◌then◌else◌,
}
use kakao_x_termux.Dict.{lookup}
use kakao_x_termux.ReplyJobs.{ReplyJob, ReplyJobStatus, Db}
use kakao_x_termux.Send.{SendState}
use kakao_x_termux.Batches.{
  SendBatchStatus, running, completed, canceled, SendBatchItemStatus, queued, sent, failed,
  token_expired, handle_expired, skipped, Counts, SendBatch, SendBatchItem, BatchTables,
  item_status_eq, is_final, get_send_batch, update_send_batch_counts, list_send_batch_items,
  update_send_batch_item_status, ItemCursor, no_cursor, after,
}

-- `_item_status_from_reply`
unfoldable pub item_status_from_reply : ReplyJobStatus → SendBatchItemStatus
item_status_from_reply ReplyJobStatus.sent = sent
item_status_from_reply ReplyJobStatus.queued = queued
item_status_from_reply ReplyJobStatus.token_expired = token_expired
item_status_from_reply ReplyJobStatus.handle_expired = handle_expired
item_status_from_reply ReplyJobStatus.failed = failed
item_status_from_reply _ = skipped

abbrev pub zero_counts : Counts
zero_counts = record { queued = 0; sent = 0; failed = 0; expired = 0; skipped = 0 }

-- The counter that an item's status raises.
abbrev pub count_status : SendBatchItemStatus → Counts → Counts
count_status queued c = record c { queued = suc c.queued }
count_status sent c = record c { sent = suc c.sent }
count_status token_expired c = record c { expired = suc c.expired }
count_status handle_expired c = record c { expired = suc c.expired }
count_status failed c = record c { failed = suc c.failed }
count_status skipped c = record c { skipped = suc c.skipped }

-- The job of an item: `if job_id: job = get_reply_job(job_id)`.
abbrev pub job_of : Db → Option String → Option ReplyJob
job_of db none = none
job_of db (some j) = if j == "" then none else lookup j db

abbrev pub status_now : Option ReplyJob → SendBatchItem → SendBatchItemStatus
status_now none r = r.status
status_now (some job) r = item_status_from_reply job.status

-- The update of an item whose job has another status.
abbrev pub refresh_item : String → ℕ → Option ReplyJob → SendBatchItem → BatchTables → BatchTables
refresh_item batch_id now none r t = t
refresh_item batch_id now (some job) r t =
    if item_status_eq (item_status_from_reply job.status) r.status
    then t
    else update_send_batch_item_status batch_id r.room_key (item_status_from_reply job.status)
        job.last_error r.job_id now t

unfoldable pub refresh_items : String → Db → ℕ → List SendBatchItem → BatchTables → BatchTables
unfolding item_status_from_reply update_send_batch_item_status
refresh_items batch_id db now [] t = t
refresh_items batch_id db now (r ∷ rows) t =
    refresh_items batch_id db now rows (refresh_item batch_id now (job_of db r.job_id) r t)

unfoldable pub count_rows : Db → List SendBatchItem → Counts
unfolding item_status_from_reply
count_rows db [] = zero_counts
count_rows db (r ∷ rows) = count_status (status_now (job_of db r.job_id) r) (count_rows db rows)

-- The status of a batch that is neither canceled nor finished.
abbrev pub open_status : Counts → ℕ → SendBatchStatus
open_status c n =
    if eqb c.skipped n && ltb 0 n
    then completed
    else if ltb 0 c.failed && (eqb c.sent 0 && eqb c.queued 0)
    then SendBatchStatus.failed
    else if ltb 0 c.queued
    then running
    else completed

abbrev pub next_status : Option SendBatch → Counts → ℕ → SendBatchStatus
next_status none c n = open_status c n
next_status (some b) c n = if is_final b.status then b.status else open_status c n

abbrev is_canceled : SendBatchStatus → Bool
is_canceled canceled = true
is_canceled _ = false

abbrev pub completed_now : Option SendBatch → Counts → ℕ → Option ℕ
completed_now none c now = if eqb c.queued 0 then some now else none
completed_now (some b) c now =
    if is_canceled b.status then b.completed_at else if eqb c.queued 0 then some now else none

abbrev target_count_of : Option SendBatch → ℕ → ℕ
target_count_of none n = n
target_count_of (some b) n = b.target_count

-- The rows that a refresh reads: the limit is that of the repository.
abbrev pub listed : String → BatchTables → List SendBatchItem
listed batch_id t = list_send_batch_items batch_id 10000 no_cursor none t

-- `_refresh_batch_counts`
unfoldable pub refresh_batch_counts : String → Db → ℕ → BatchTables → BatchTables
unfolding list_send_batch_items refresh_items count_rows update_send_batch_counts get_send_batch
refresh_batch_counts batch_id db now t =
    let b = get_send_batch batch_id t in
    let rows = listed batch_id t in
    let c = count_rows db rows in
    update_send_batch_counts batch_id (next_status b c (length rows))
      (target_count_of b (length rows)) c (completed_now b c now) now
      (refresh_items batch_id db now rows t)

-- The errors that a caller of the service gets: 401, 403, 400, 400, 400, 404, and `IntegrityError`.
pub data BatchError : Type 0 where
  unauthorized disabled unconfirmed over_limit nothing_to_retry not_found id_taken : BatchError

pub data Result {ℓ} (A : Type ℓ) : Type ℓ where
  error : BatchError → Result A
  ok : A → Result A

-- What the service works on: the batches, and the jobs and the queue of the send service.
pub record BatchState : Type 0 where
  pub tables : BatchTables
  pub send : SendState

-- `get_batch_summary` on the refreshed tables.
unfoldable pub get_batch_summary : String → ℕ → BatchState → BatchState × Result SendBatch
unfolding refresh_batch_counts get_send_batch
get_batch_summary batch_id now s =
    let t = refresh_batch_counts batch_id s.send.db now s.tables in
    (
      record s { tables = t },
      elim (get_send_batch batch_id t) [ none ↦ error not_found | some b ↦ ok b ],
    )

pub record SendBatchResponse : Type 0 where
  pub batch_id : String
  pub status : SendBatchStatus
  pub target_count : ℕ
  pub queued_count : ℕ
  pub skipped_count : ℕ
  pub excluded_count : ℕ

abbrev batch_response : String → SendBatch → SendBatchResponse
batch_response batch_id b = record {
  batch_id = batch_id;
  status = b.status;
  target_count = b.target_count;
  queued_count = b.counts.queued;
  skipped_count = b.counts.skipped;
  excluded_count = b.counts.failed + b.counts.expired + b.counts.skipped;
}

-- `get_batch`
unfoldable pub get_batch : String → BatchTables → Result SendBatchResponse
unfolding get_send_batch
get_batch batch_id t = elim (get_send_batch batch_id t) [
  | none ↦ error not_found
  | some b ↦ ok (batch_response batch_id b)
]

unfoldable pub last_item : List SendBatchItem → Option SendBatchItem
last_item [] = none
last_item (r ∷ []) = some r
last_item (r ∷ q ∷ rows) = last_item (q ∷ rows)

-- A full page has the id of its last row as the cursor of what follows.
abbrev pub next_item_cursor : ℕ → List SendBatchItem → ItemCursor
next_item_cursor limit rows =
    if eqb (length rows) limit
    then elim (last_item rows) [ none ↦ no_cursor | some r ↦ after r.id ]
    else no_cursor

-- `list_batch_items`
unfoldable pub list_batch_items :
    String → ℕ → ItemCursor → ℕ → BatchState → BatchState × (List SendBatchItem × ItemCursor)
unfolding refresh_batch_counts list_send_batch_items last_item
list_batch_items batch_id limit cursor now s =
    let t = refresh_batch_counts batch_id s.send.db now s.tables in
    let rows = list_send_batch_items batch_id limit cursor none t in
    (record s { tables = t }, (rows, next_item_cursor limit rows))

-- `cancel_batch`
unfoldable pub cancel_batch : String → ℕ → BatchState → BatchState × Result SendBatch
unfolding get_send_batch update_send_batch_counts get_batch_summary
cancel_batch batch_id now s = elim (get_send_batch batch_id s.tables) [
  | none ↦ (s, error not_found)
  | some b ↦
      if is_final b.status
      then get_batch_summary batch_id now s
      else get_batch_summary batch_id now (record s {
        tables =
            update_send_batch_counts batch_id canceled b.target_count b.counts (some now) now
              s.tables;
      })
]
