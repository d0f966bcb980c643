-- ===== src/Writer.antt =====
-- app/infra/memory_pipeline.py, class AsyncSqliteWriter: a bounded queue of SQLite writes and the one
-- worker that drains it in batches. What SQLite answers is an argument.
pub mod Accounting
use kakao_x_termux.Prelude.{
  ℕ, zero, suc, ◌+◌, String, Option, Bool, true, false, List, [], ◌∷◌, ◌++◌, ◌&&◌, leb, ltb, eqb,
  max, is_empty, length, if◌then◌else◌,
}
use kakao_x_termux.Schemas.{Json, BridgeEvent}

-- A task with its payload; `kind` is the constructor.
pub data SqliteWriteTask : Type 0 where
  message_backup : BridgeEvent → SqliteWriteTask
  message_processed : String → SqliteWriteTask
  bridge_log : String → String → String → Option String → Bool → SqliteWriteTask
  chatbot_run :
      String → String → String → Option String → Option ℕ → Option String → SqliteWriteTask
  state_snapshot : String → String → String → Option String → Json → Option ℕ → SqliteWriteTask
  state_delete : String → SqliteWriteTask
  state_prune : Option ℕ → SqliteWriteTask

abbrev pub priority : SqliteWriteTask → ℕ
priority (message_backup e) = 10
priority (message_processed id) = 10
priority (bridge_log l c m r p) = 1
priority (chatbot_run e b a r d x) = 1
priority (state_snapshot k b r s v x) = 5
priority (state_delete k) = 5
priority (state_prune now) = 5

abbrev pub is_snapshot : SqliteWriteTask → Bool
is_snapshot (state_snapshot k b r s v x) = true
is_snapshot _ = false

pub record SqliteWriterStats : Type 0 where
  pub submitted : ℕ
  pub written : ℕ
  pub dropped : ℕ
  pub failed : ℕ
  pub state_snapshot_submitted : ℕ
  pub state_snapshot_written : ℕ
  pub state_snapshot_failed : ℕ

-- `batch` is what the worker has taken from the queue and not yet settled.
pub record AsyncSqliteWriter : Type 0 where
  pub max_size : ℕ
  pub batch_size : ℕ
  pub drop_low_priority : Bool
  pub queue : List SqliteWriteTask
  pub batch : List SqliteWriteTask
  pub stats : SqliteWriterStats

-- `__init__`: a size below one counts as one.
abbrev pub fresh : ℕ → ℕ → Bool → AsyncSqliteWriter
fresh max_size batch_size drop_low_priority = record {
  max_size = max max_size 1;
  batch_size = max batch_size 1;
  drop_low_priority = drop_low_priority;
  queue = [];
  batch = [];
  stats = record {
    submitted = 0;
    written = 0;
    dropped = 0;
    failed = 0;
    state_snapshot_submitted = 0;
    state_snapshot_written = 0;
    state_snapshot_failed = 0;
  };
}

abbrev pub count_if : Bool → ℕ → ℕ
count_if b n = if b then n + 1 else n

-- `_enqueue`: the put and the section of the count behind it, in one.
unfoldable pub enqueue : SqliteWriteTask → AsyncSqliteWriter → AsyncSqliteWriter × Bool
enqueue task w =
    if ltb (length w.queue) w.max_size
    then (record w { queue = w.queue ++ task ∷ []; stats = submitted }, true)
    else if w.drop_low_priority && leb (priority task) 1
    then (record w { stats = record stats { dropped = stats.dropped + 1 } }, false)
    else (record w { stats = record stats { failed = stats.failed + 1 } }, false)
  where
    open w use {stats}

    submitted : SqliteWriterStats
    submitted = record stats {
      submitted = stats.submitted + 1;
      state_snapshot_submitted = count_if (is_snapshot task) stats.state_snapshot_submitted;
    }

pub data WriteOutcome : Type 0 where
  written locked raised : WriteOutcome

-- The loop of `_write_with_retry` over `range(3)`, with the attempts left: a locked database is
-- tried again, but after attempt 2 the error is raised.
unfoldable pub write_attempts : ℕ → ℕ → (ℕ → WriteOutcome) → Bool
write_attempts zero attempt outcome = true
write_attempts (suc left) attempt outcome = elim (outcome attempt) [
  | written ↦ true
  | locked ↦ if eqb attempt 2 then false else write_attempts left (attempt + 1) outcome
  | raised ↦ false
]

unfoldable pub write_with_retry : (ℕ → WriteOutcome) → Bool
unfolding write_attempts
write_with_retry outcome = write_attempts 3 0 outcome

-- `_drain_batch`: one `get`, while the batch has room and the queue is not empty.
abbrev take_task : List SqliteWriteTask → AsyncSqliteWriter → AsyncSqliteWriter
take_task [] w = w
take_task (task ∷ rest) w =
    if ltb (length w.batch) w.batch_size
    then record w { queue = rest; batch = w.batch ++ task ∷ [] }
    else w

unfoldable pub drain_one : AsyncSqliteWriter → AsyncSqliteWriter
drain_one w = take_task w.queue w

-- One round of the `for task in batch` loop of `_run`, with what the write comes to.
abbrev settle : Bool → SqliteWriteTask → SqliteWriterStats → SqliteWriterStats
settle true task s = record s {
  written = s.written + 1;
  state_snapshot_written = count_if (is_snapshot task) s.state_snapshot_written;
}
settle false task s = record s {
  failed = s.failed + 1;
  state_snapshot_failed = count_if (is_snapshot task) s.state_snapshot_failed;
}

abbrev settle_batch :
    (ℕ → WriteOutcome) → List SqliteWriteTask → AsyncSqliteWriter → AsyncSqliteWriter
settle_batch outcome [] w = w
settle_batch outcome (task ∷ rest) w = record w {
  batch = rest;
  stats = settle (write_with_retry outcome) task w.stats;
}

unfoldable pub settle_one : (ℕ → WriteOutcome) → AsyncSqliteWriter → AsyncSqliteWriter
settle_one outcome w = settle_batch outcome w.batch w

-- The test of `wait_until_idle`.
unfoldable pub reports_idle : AsyncSqliteWriter → Bool
reports_idle w =
    is_empty w.queue && leb w.stats.submitted (w.stats.written + w.stats.failed + w.stats.dropped)
