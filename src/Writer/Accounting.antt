-- ===== src/Writer/Accounting.antt =====
-- What the counters of the writer say of its tasks, over any interleaving of callers and the worker.
use kakao_x_termux.Prelude.{
  ℕ, max, ◌+◌, ◌≤◌, ◌≡◌, ◌↔◌, ◌⊎◌, refl, ap, Bool, true, List, [], ◌∷◌, arith, length,
  length-append, if◌then◌else◌, is_empty,
}
use kakao_x_termux.Writer.{
  AsyncSqliteWriter, fresh, SqliteWriteTask, WriteOutcome, enqueue, drain_one, settle_one,
  reports_idle, take_task, settle_batch, written, locked, write_with_retry,
}

pub data WriterStep : Type 0 where
  enqueues : SqliteWriteTask → WriterStep
  drains : WriterStep
  settles : (ℕ → WriteOutcome) → WriterStep

unfoldable pub step : WriterStep → AsyncSqliteWriter → AsyncSqliteWriter
unfolding enqueue drain_one settle_one
step (enqueues task) w = (enqueue task w).0
step drains w = drain_one w
step (settles outcome) w = settle_one outcome w

unfoldable pub run : List WriterStep → AsyncSqliteWriter → AsyncSqliteWriter
unfolding step
run [] w = w
run (s ∷ ss) w = run ss (step s w)

-- How many calls of `_enqueue` in the sequence return False.
abbrev refused_by : WriterStep → AsyncSqliteWriter → ℕ
refused_by (enqueues task) w = if (enqueue task w).1 then 0 else 1
refused_by _ w = 0

unfoldable pub refusals : List WriterStep → AsyncSqliteWriter → ℕ
unfolding step
refusals [] w = 0
refusals (s ∷ ss) w = refused_by s w + refusals ss (step s w)

abbrev pub settled : AsyncSqliteWriter → ℕ
settled w = w.stats.written + w.stats.failed + w.stats.dropped

-- `n` calls were refused so far.
abbrev Balanced : ℕ → AsyncSqliteWriter → Type 0
Balanced n w = w.stats.submitted + n ≡ settled w + length w.queue + length w.batch

enqueue-Balanced :
    (n : ℕ) (task : SqliteWriteTask) (w : AsyncSqliteWriter)
    → Balanced n w
    → Balanced (refused_by (enqueues task) w + n) (enqueue task w).0
unfolding enqueue
enqueue-Balanced n task w h = ground (arith, length-append w.queue (task ∷ []))

drain-Balanced :
    (n : ℕ) (w : AsyncSqliteWriter) (queue : List SqliteWriteTask)
    → w.queue ≡ queue
    → Balanced n w
    → Balanced n (take_task queue w)
drain-Balanced n w [] e h = h
drain-Balanced n w (task ∷ rest) e h = ground (arith, length-append w.batch (task ∷ []))

settle-Balanced :
    (n : ℕ) (outcome : ℕ → WriteOutcome) (w : AsyncSqliteWriter) (batch : List SqliteWriteTask)
    → w.batch ≡ batch
    → Balanced n w
    → Balanced n (settle_batch outcome batch w)
settle-Balanced n outcome w [] e h = h
settle-Balanced n outcome w (task ∷ rest) e h = ground arith

step-Balanced :
    (n : ℕ) (s : WriterStep) (w : AsyncSqliteWriter)
    → Balanced n w
    → Balanced (refused_by s w + n) (step s w)
unfolding step
step-Balanced n (enqueues task) w h = enqueue-Balanced n task w h
step-Balanced n drains w h = omega (arith, drain-Balanced n w w.queue refl h)
step-Balanced n (settles outcome) w h = omega (arith, settle-Balanced n outcome w w.batch refl h)

run-Balanced :
    (n : ℕ) (ss : List WriterStep) (w : AsyncSqliteWriter)
    → Balanced n w
    → Balanced (refusals ss w + n) (run ss w)
unfolding run refusals
run-Balanced n [] w h = omega arith
run-Balanced n (s ∷ ss) w h =
    omega (arith, run-Balanced (refused_by s w + n) ss (step s w) (step-Balanced n s w h))

-- From a new writer, after any interleaving of calls, drains and writes: the accepted tasks and the
-- refused calls together are the written, failed and dropped ones, the queue and the batch. So no
-- accepted task is lost, whatever the database answers.
pub writer_accounting :
    (max_size batch_size : ℕ) (drop_low_priority : Bool) (ss : List WriterStep)
    → let w = run ss (fresh max_size batch_size drop_low_priority) in
      w.stats.submitted + refusals ss (fresh max_size batch_size drop_low_priority)
      ≡ settled w + length w.queue + length w.batch
writer_accounting max_size batch_size drop_low_priority ss =
    omega (arith, run-Balanced 0 ss (fresh max_size batch_size drop_low_priority) (omega arith))

is_empty-length {ℓ} : {A : Type ℓ} (xs : List A) → (is_empty xs ≡ true) ↔ (length xs ≡ 0)
is_empty-length [] = ground arith
is_empty-length (x ∷ xs) = ground arith

-- `wait_until_idle` sees an idle writer exactly when the queue is empty and the batch holds no more
-- tasks than calls were refused. With no refusal that is an idle writer; each refusal lets it report
-- idle with one more task still unwritten.
pub reports_idle_iff :
    (max_size batch_size : ℕ) (drop_low_priority : Bool) (ss : List WriterStep)
    → let start = fresh max_size batch_size drop_low_priority in
      (reports_idle (run ss start) ≡ true)
      ↔ ((length (run ss start).queue ≡ 0) × (length (run ss start).batch ≤ refusals ss start))
unfolding reports_idle
reports_idle_iff max_size batch_size drop_low_priority ss =
    let w = run ss (fresh max_size batch_size drop_low_priority) in
    ground
      (arith, writer_accounting max_size batch_size drop_low_priority ss, is_empty-length w.queue)

abbrev Fits : ℕ → ℕ → AsyncSqliteWriter → Type 0
Fits m b w = (w.max_size ≡ m) × (w.batch_size ≡ b) × (length w.queue ≤ m) × (length w.batch ≤ b)

module _ (m b : ℕ) where
  drain-Fits :
      (w : AsyncSqliteWriter) (queue : List SqliteWriteTask)
      → w.queue ≡ queue
      → Fits m b w
      → Fits m b (take_task queue w)
  drain-Fits w [] e h = h
  drain-Fits w (task ∷ rest) e h = ground (arith, ap length e, length-append w.batch (task ∷ []))

  settle-Fits :
      (outcome : ℕ → WriteOutcome) (w : AsyncSqliteWriter) (batch : List SqliteWriteTask)
      → w.batch ≡ batch
      → Fits m b w
      → Fits m b (settle_batch outcome batch w)
  settle-Fits outcome w [] e h = h
  settle-Fits outcome w (task ∷ rest) e h = ground (arith, ap length e)

  step-Fits : (s : WriterStep) (w : AsyncSqliteWriter) → Fits m b w → Fits m b (step s w)
  unfolding step
  step-Fits (enqueues task) w h =
      unfold enqueue in ground (arith, length-append w.queue (task ∷ []))
  step-Fits drains w h = drain-Fits w w.queue refl h
  step-Fits (settles outcome) w h = settle-Fits outcome w w.batch refl h

  run-Fits : (ss : List WriterStep) (w : AsyncSqliteWriter) → Fits m b w → Fits m b (run ss w)
  unfolding run
  run-Fits [] w h = h
  run-Fits (s ∷ ss) w h = run-Fits ss (step s w) (step-Fits s w h)

-- The queue never holds more than the configured size, nor the batch more than the configured batch
-- size, where a setting below one counts as one.
pub writer_bounds :
    (max_size batch_size : ℕ) (drop_low_priority : Bool) (ss : List WriterStep)
    → let w = run ss (fresh max_size batch_size drop_low_priority) in
      (length w.queue ≤ max max_size 1) × (length w.batch ≤ max batch_size 1)
writer_bounds m b d ss =
    let h = run-Fits (max m 1) (max b 1) ss (fresh m b d) (refl, refl, omega arith, omega arith) in
    (h.2, h.3)

-- A write is retried only while the database is locked, and at most three attempts are made: it
-- succeeds exactly when one of the first three attempts writes and each one before it was locked.
pub write_with_retry_iff :
    (outcome : ℕ → WriteOutcome)
    → (write_with_retry outcome ≡ true) ↔ (
        (outcome 0 ≡ written)
        ⊎ ((outcome 0 ≡ locked) × (outcome 1 ≡ written))
        ⊎ ((outcome 0 ≡ locked) × (outcome 1 ≡ locked) × (outcome 2 ≡ written)))
unfolding write_with_retry
write_with_retry_iff outcome = ground arith
