-- ===== src/Recovery/Laws.antt =====
-- What a recovery leaves in the table, in the queues and in its counters.
use kakao_x_termux.Prelude.{
  ℕ, ◌+◌, ◌≡◌, ◌⊎◌, inl, inr, refl, String, none, some, true, false, List, [], ◌∷◌, ◌++◌, length,
  length-append, any, arith, Bool-cases, Option-cases, ltb,
}
use kakao_x_termux.Dict.{lookup}
use kakao_x_termux.Schemas.{BridgeMode}
use kakao_x_termux.ReplyJobs.{
  ReplyJob, ReplyJobStatus, status_eq, queued, failed, update_where, update_reply_job_if_status,
  set_status,
}
use kakao_x_termux.ReplyJobs.Update.{update_row}
use kakao_x_termux.Dispatch.{DispatchQueue, DispatchTask, enqueue}
use kakao_x_termux.Messages.{MessageRow}
use kakao_x_termux.Recovery.{
  RecoveryInputs, RecoveryState, recover_message, recover_messages, requeue, recover_reply_job,
  recover_reply_jobs, recovered_mode, recovered_command,
}

abbrev pub handled_messages : RecoveryState → ℕ
handled_messages s = s.stats.messages_requeued + s.stats.failed_count

recover_message-counts :
    (i : RecoveryInputs) (row : MessageRow) (s : RecoveryState)
    → handled_messages (recover_message i row s) ≡ handled_messages s + 1
unfolding recover_message
recover_message-counts i row s = ground arith

-- Each message of a recovery is counted once, as put back or as failed.
pub recover_messages-counts :
    (i : RecoveryInputs) (rows : List MessageRow) (s : RecoveryState)
    → handled_messages (recover_messages i rows s) ≡ handled_messages s + length rows
unfolding recover_messages
recover_messages-counts i [] s = omega arith
recover_messages-counts i (row ∷ rows) s = omega (
  arith,
  recover_messages-counts i rows (recover_message i row s),
  recover_message-counts i row s,
)

-- The queue with a task for the job behind it.
abbrev pub task_of : RecoveryInputs → String → ReplyJob → BridgeMode → DispatchQueue → DispatchTask
task_of i k job mode d = record {
  command = recovered_command i k job;
  bridge_mode = mode;
  max_attempts = d.max_attempts;
}

abbrev pub requeued_job : RecoveryInputs → ReplyJob → ReplyJob
requeued_job i job = set_status queued none i.now job

-- A recovered job is QUEUED and waits in the queue, or is FAILED since the queue is full.
abbrev pub Recovered :
    RecoveryInputs → String → ReplyJob → BridgeMode → RecoveryState → RecoveryState → Type 0
Recovered i k job mode s s' =
    ((lookup k s'.db ≡ some (requeued_job i job))
      × (s'.dispatch_queue.queue
          ≡ s.dispatch_queue.queue ++ task_of i k job mode s.dispatch_queue ∷ []))
    ⊎ ((lookup k s'.db
          ≡ some (set_status failed (some "dispatch queue full") i.now (requeued_job i job)))
        × (s'.dispatch_queue.queue ≡ s.dispatch_queue.queue)
        × (ltb (length s.dispatch_queue.queue) s.dispatch_queue.max_size ≡ false))

requeue-Recovered :
    (i : RecoveryInputs) (k : String) (job : ReplyJob) (mode : BridgeMode) (s : RecoveryState)
    → i.failure_raises k ≡ false
    → lookup k s.db ≡ some (requeued_job i job)
    → Recovered i k job mode s (requeue i k job mode s)
unfolding requeue enqueue update_reply_job_if_status
requeue-Recovered i k job mode s quiet h =
    elim (Bool-cases (ltb (length s.dispatch_queue.queue) s.dispatch_queue.max_size)) [
      | inl room ↦ rw room (inl (h, refl))
      | inr full ↦
          rw (full, quiet)
            (inr (
              (update_row k (λ j. any (status_eq j.status) (queued ∷ []))
                  (set_status failed (some "dispatch queue full") i.now) s.db (requeued_job i job) h
                  refl).1,
              refl,
              refl,
            ))
    ]

status_eq_refl : (t : ReplyJobStatus) → any (status_eq t) (t ∷ []) ≡ true
status_eq_refl t = ground arith

-- A listed job whose row still has the listed status, with a known bridge mode, when neither statement
-- raises: the row is QUEUED and a task for it is the last of the queue; or the queue is full and stays as it
-- is, and the row is FAILED.
pub recover_reply_job-Recovered :
    (i : RecoveryInputs) (k : String) (job : ReplyJob) (mode : BridgeMode) (s : RecoveryState)
    → lookup k s.db ≡ some job
    → recovered_mode i job ≡ some mode
    → i.claim_raises k ≡ false
    → i.failure_raises k ≡ false
    → Recovered i k job mode s (recover_reply_job i (k, job) s)
unfolding recover_reply_job update_reply_job_if_status
recover_reply_job-Recovered i k job mode s h m quiet quiet' =
    let u =
      update_row k (λ j. any (status_eq j.status) (job.status ∷ [])) (set_status queued none i.now)
        s.db job h (status_eq_refl job.status) in
    rw (m, recover_reply_job, quiet, u.0)
      (requeue-Recovered i k job mode
        (record s {
          db =
              (update_where k (λ j. any (status_eq j.status) (job.status ∷ []))
                (set_status queued none i.now) s.db).0;
        })
        quiet' u.1)

abbrev pub queued_jobs : RecoveryState → ℕ
queued_jobs s = length s.dispatch_queue.queue

requeue-counts :
    (i : RecoveryInputs) (k : String) (job : ReplyJob) (mode : BridgeMode) (s : RecoveryState)
    → queued_jobs (requeue i k job mode s) + s.stats.reply_jobs_requeued
      ≡ queued_jobs s + (requeue i k job mode s).stats.reply_jobs_requeued
unfolding requeue enqueue
requeue-counts i k job mode s =
    ground
      (arith, length-append s.dispatch_queue.queue (task_of i k job mode s.dispatch_queue ∷ []))

recover_reply_job-counts :
    (i : RecoveryInputs) (k : String) (job : ReplyJob) (s : RecoveryState)
    → queued_jobs (recover_reply_job i (k, job) s) + s.stats.reply_jobs_requeued
      ≡ queued_jobs s + (recover_reply_job i (k, job) s).stats.reply_jobs_requeued
unfolding recover_reply_job
recover_reply_job-counts i k job s = elim (Option-cases (recovered_mode i job)) [
  | inl h ↦ rw (h, recover_reply_job) refl
  | inr (mode, h) ↦
      let u = update_reply_job_if_status k (job.status ∷ []) queued none i.now s.db in
      rw (h, recover_reply_job)
        (elim (Bool-cases (i.claim_raises k)) [
          | inl e ↦ rw e refl
          | inr e ↦ rw e (elim (Bool-cases u.1) [
            | inl c ↦ rw c (requeue-counts i k job mode (record s { db = u.0 }))
            | inr c ↦ rw c refl
          ])
        ])
]

-- The dispatch queue grows by exactly the jobs that a recovery counts as put back, whatever fails or raises.
pub recover_reply_jobs-counts :
    (i : RecoveryInputs) (rows : List (String × ReplyJob)) (s : RecoveryState)
    → queued_jobs (recover_reply_jobs i rows s) + s.stats.reply_jobs_requeued
      ≡ queued_jobs s + (recover_reply_jobs i rows s).stats.reply_jobs_requeued
unfolding recover_reply_jobs
recover_reply_jobs-counts i [] s = refl
recover_reply_jobs-counts i ((k, job) ∷ rows) s = omega (
  arith,
  recover_reply_job-counts i k job s,
  recover_reply_jobs-counts i rows (recover_reply_job i (k, job) s),
)
