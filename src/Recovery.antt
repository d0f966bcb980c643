-- ===== src/Recovery.antt =====
-- app/services/recovery_service.py: what a recovery puts back into the queues from SQLite. The clock, the
-- uuids, the settings and which statements raise are arguments. A stored message makes an event again: the
-- validators accepted it before it was stored.
pub mod Laws
use kakao_x_termux.Prelude.{
  ℕ, ◌+◌, ◌-◌, String, Option, none, some, Bool, true, false, List, [], ◌∷◌, ◌++◌, not, max, min,
  leb, take, keep_if, ◌==◌, if◌then◌else◌,
}
use kakao_x_termux.Schemas.{
  BridgeEvent, BridgeMode, am_broadcast, adb_broadcast, http_test_backend, noop, ReplyCommand,
}
use kakao_x_termux.ReplyJobs.{ReplyJob, queued, failed, Db, update_reply_job_if_status}
use kakao_x_termux.ReplyJobs.Recoverable.{list_recoverable_reply_jobs}
use kakao_x_termux.Dispatch.{DispatchQueue, enqueue, first_text}
use kakao_x_termux.Messages.{MessageRow}
use kakao_x_termux.Messages.Tokens.{ReplyTokenCache, update_from_event}
use kakao_x_termux.Writer.{AsyncSqliteWriter}
use kakao_x_termux.Pipeline.State.{MemoryPipeline, recover_inserted, EnqueueResult, accepted}
use kakao_x_termux.Pipeline.Admission.{EnqueueCall, enqueue_event}

-- The counters that the two loops write; the others show the limit in use and the scheduler.
pub record RecoveryStats : Type 0 where
  pub messages_requeued : ℕ
  pub reply_jobs_requeued : ℕ
  pub failed_count : ℕ

-- `max(min(limit, 1_000), 1)`
abbrev pub batch_limit : ℕ → ℕ
batch_limit limit = max (min limit 1000) 1

-- A row among rows in the order of `received_at`; an equal time keeps the order of the ids.
unfoldable pub insert_message_row : MessageRow → List MessageRow → List MessageRow
insert_message_row row [] = row ∷ []
insert_message_row row (other ∷ rows) =
    let rest = insert_message_row row rows in
    if leb row.event.received_at other.event.received_at then row ∷ other ∷ rows else other ∷ rest

unfoldable pub sort_messages : List MessageRow → List MessageRow
unfolding insert_message_row
sort_messages [] = []
sort_messages (row ∷ rows) = insert_message_row row (sort_messages rows)

-- `list_unprocessed_messages`
unfoldable pub list_unprocessed_messages : ℕ → List MessageRow → List MessageRow
unfolding sort_messages
list_unprocessed_messages limit rows =
    take (batch_limit limit) (sort_messages (keep_if (λ row. not row.processed) rows))

-- What a recovery meets.
pub record RecoveryInputs : Type 0 where
  pub shared_secret : String
  pub bridge_mode : String
  pub dispatching_stale_ms : ℕ
  pub now : ℕ
  pub monotonic_ns : String → ℕ
  pub uuid : String → String
  pub claim_raises : String → Bool
  pub failure_raises : String → Bool

-- The two queues with the stores they are filled from.
pub record RecoveryState : Type 0 where
  pub pipeline : MemoryPipeline
  pub writer : AsyncSqliteWriter
  pub token_cache : ReplyTokenCache
  pub db : Db
  pub dispatch_queue : DispatchQueue
  pub stats : RecoveryStats

abbrev pub count_failed : RecoveryStats → RecoveryStats
count_failed s = record s { failed_count = s.failed_count + 1 }

abbrev recovered_call : RecoveryInputs → BridgeEvent → EnqueueCall
recovered_call i event = record {
  event = record event { token = i.shared_secret };
  processor = recover_inserted;
  backup = false;
  checkpoint_processed = false;
  now = i.now;
  monotonic_ns = i.monotonic_ns event.event_id;
  uuid = i.uuid event.event_id;
}

abbrev count_message : EnqueueResult → RecoveryStats → RecoveryStats
count_message accepted s = record s { messages_requeued = s.messages_requeued + 1 }
count_message _ s = count_failed s

-- One round of the loop of `_recover_messages`.
unfoldable pub recover_message : RecoveryInputs → MessageRow → RecoveryState → RecoveryState
recover_message i row s =
    let (p, r, w) = enqueue_event (recovered_call i row.event) s.pipeline s.writer in
    record s {
      pipeline = p;
      writer = w;
      token_cache = update_from_event (record row.event { token = i.shared_secret }) s.token_cache;
      stats = count_message r s.stats;
    }

unfoldable pub recover_messages : RecoveryInputs → List MessageRow → RecoveryState → RecoveryState
unfolding recover_message
recover_messages i [] s = s
recover_messages i (row ∷ rows) s = recover_messages i rows (recover_message i row s)

-- `BridgeMode(…)`, which raises on any other text.
abbrev pub parse_bridge_mode : String → Option BridgeMode
parse_bridge_mode t =
    if t == "am_broadcast"
    then some am_broadcast
    else if t == "adb_broadcast"
    then some adb_broadcast
    else if t == "http_test_backend"
    then some http_test_backend
    else if t == "noop"
    then some noop
    else none

abbrev pub recovered_mode : RecoveryInputs → ReplyJob → Option BridgeMode
recovered_mode i job =
    parse_bridge_mode (if job.bridge_mode == "" then i.bridge_mode else job.bridge_mode)

abbrev pub recovered_command : RecoveryInputs → String → ReplyJob → ReplyCommand
recovered_command i k job = record {
  job_id = some k;
  room_key = job.room_key;
  room = job.room;
  text = job.text;
  dedupe_key = some (first_text job.dedupe_key k);
  reply_token = job.reply_token;
  token = i.shared_secret;
}

-- The job is claimed: it goes to the queue, or is failed if that is full. An exception of the second
-- statement counts as another failure.
unfoldable pub requeue :
    RecoveryInputs → String → ReplyJob → BridgeMode → RecoveryState → RecoveryState
requeue i k job mode s =
    let (d, room) = enqueue (recovered_command i k job) mode s.dispatch_queue in
    let s' = record s { dispatch_queue = d } in
    if room
    then record s' { stats = record stats { reply_jobs_requeued = stats.reply_jobs_requeued + 1 } }
    else if i.failure_raises k
    then record s' { stats = count_failed (count_failed stats) }
    else record s' {
      db =
          (update_reply_job_if_status k (queued ∷ []) failed (some "dispatch queue full") i.now
            s.db).0;
      stats = count_failed stats;
    }
  where
    open s use {stats}

-- One round of the loop of `_recover_reply_jobs`.
unfoldable pub recover_reply_job :
    RecoveryInputs → String × ReplyJob → RecoveryState → RecoveryState
unfolding requeue
recover_reply_job i (k, job) s = elim (recovered_mode i job) [
  | none ↦ record s { stats = count_failed s.stats }
  | some mode ↦
      if i.claim_raises k
      then record s { stats = count_failed s.stats }
      else (let (db, claimed) =
            update_reply_job_if_status k (job.status ∷ []) queued none i.now s.db in
          if claimed then requeue i k job mode (record s { db = db }) else s)
]

unfoldable pub recover_reply_jobs :
    RecoveryInputs → List (String × ReplyJob) → RecoveryState → RecoveryState
unfolding recover_reply_job
recover_reply_jobs i [] s = s
recover_reply_jobs i (row ∷ rows) s = recover_reply_jobs i rows (recover_reply_job i row s)

-- `_recover_locked`: the messages, then the jobs as they stand in the table.
unfoldable pub recover : RecoveryInputs → ℕ → List MessageRow → RecoveryState → RecoveryState
unfolding recover_messages recover_reply_jobs
recover i limit messages s =
    let s' = recover_messages i (list_unprocessed_messages (batch_limit limit) messages) s in
    recover_reply_jobs i
      (list_recoverable_reply_jobs (batch_limit limit) (i.now - i.dispatching_stale_ms) s'.db) s'
