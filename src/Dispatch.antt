-- ===== src/Dispatch.antt =====
-- app/infra/dispatch_queue.py: the queue of reply commands and what a worker does with one. The adapter's
-- answers, the clock, the owner names and what other workers do to the table meanwhile are arguments.
pub mod Outcomes
pub mod Completion
use kakao_x_termux.Prelude.{
  ℕ, zero, suc, ◌+◌, String, Option, none, some, Bool, true, false, List, [], ◌∷◌, ◌++◌, ◌&&◌, ltb,
  max, length, if◌then◌else◌, ◌==◌,
}
use kakao_x_termux.Schemas.{BridgeMode, ReplyCommand}
use kakao_x_termux.ReplyJobs.{
  ReplyJobStatus, pending, queued, dispatching, retrying, sent, failed, token_expired,
  handle_expired, duplicate, status_eq, Db, claim_reply_job_for_dispatch,
  mark_reply_job_retrying_if_owned, complete_reply_job_if_owned,
}

pub record AdapterResult : Type 0 where
  pub ok : Bool
  pub status : ReplyJobStatus
  pub error : Option String

pub record DispatchQueueStats : Type 0 where
  pub submitted : ℕ
  pub sent_count : ℕ
  pub failed_count : ℕ
  pub retrying_count : ℕ
  pub rejected : ℕ

pub record DispatchTask : Type 0 where
  pub command : ReplyCommand
  pub bridge_mode : BridgeMode
  pub max_attempts : ℕ

pub record DispatchQueue : Type 0 where
  pub max_size : ℕ
  pub max_attempts : ℕ
  pub lease_millis : ℕ
  pub queue : List DispatchTask
  pub stats : DispatchQueueStats

-- `enqueue`
unfoldable pub enqueue : ReplyCommand → BridgeMode → DispatchQueue → DispatchQueue × Bool
enqueue command mode d =
    if ltb (length d.queue) d.max_size
    then (
      record d {
        queue =
            d.queue
            ++ (record { command = command; bridge_mode = mode; max_attempts = d.max_attempts })
              ∷ [];
        stats = record stats { submitted = stats.submitted + 1 };
      },
      true,
    )
    else (record d { stats = record stats { rejected = stats.rejected + 1 } }, false)
  where
    open d use {stats}

-- What one attempt meets: its owner name, the times at which it claims and settles, whether the claim
-- raises, what the adapter answers (`none` if it raises, with the message), and what other workers do to
-- the table between the claim and the settling.
pub record Round : Type 0 where
  pub owner : String
  pub claim_at : ℕ
  pub claim_raises : Bool
  pub answer : Option AdapterResult
  pub message : String
  pub others : Db → Db
  pub settle_at : ℕ

-- The table, the counters, and the attempts on which the adapter was called.
pub record DispatchState : Type 0 where
  pub db : Db
  pub stats : DispatchQueueStats
  pub calls : List ℕ

abbrev pub raised : String → AdapterResult
raised message = record { ok = false; status = failed; error = some message }

-- A call of the adapter that raises counts as failed.
abbrev pub answer_of : Round → AdapterResult
answer_of r = elim r.answer [ none ↦ raised r.message | some a ↦ a ]

-- The `try` of an attempt: `none` if the job could not be claimed.
unfoldable pub attempt_send :
    String → ℕ → ℕ → Round → DispatchState → DispatchState × Option AdapterResult
attempt_send job_id lease attempt r s =
    if r.claim_raises
    then (s, some (raised r.message))
    else (let (db, claimed) = claim_reply_job_for_dispatch job_id r.owner lease r.claim_at s.db in
        if claimed
        then (record s { db = r.others db; calls = s.calls ++ attempt ∷ [] }, some (answer_of r))
        else (record s { db = db }, none))

-- `status in terminal_no_retry`
abbrev pub no_retry : ReplyJobStatus → Bool
no_retry token_expired = true
no_retry handle_expired = true
no_retry duplicate = true
no_retry _ = false

-- The status after the last attempt.
abbrev pub last_status : ReplyJobStatus → ReplyJobStatus
last_status retrying = failed
last_status queued = failed
last_status dispatching = failed
last_status pending = failed
last_status status = status

abbrev pub count_sent : DispatchQueueStats → DispatchQueueStats
count_sent s = record s { sent_count = s.sent_count + 1 }

abbrev pub count_failed : DispatchQueueStats → DispatchQueueStats
count_failed s = record s { failed_count = s.failed_count + 1 }

abbrev pub count_retrying : DispatchQueueStats → DispatchQueueStats
count_retrying s = record s { retrying_count = s.retrying_count + 1 }

-- A completion, which counts only if the job was still owned.
unfoldable pub complete :
    String
    → Round
    → ReplyJobStatus
    → Option String
    → (DispatchQueueStats → DispatchQueueStats)
    → DispatchState
    → DispatchState
complete job_id r status error count s =
    let (db, done) = complete_reply_job_if_owned job_id r.owner status error r.settle_at s.db in
    record s { db = db; stats = if done then count s.stats else s.stats }

-- What follows an answer: the new state, and whether the loop goes on.
unfoldable pub settle : String → Bool → Round → AdapterResult → DispatchState → DispatchState × Bool
unfolding complete
settle job_id more r a s =
    if a.ok && status_eq a.status sent
    then (complete job_id r sent a.error count_sent s, false)
    else if no_retry a.status
    then (complete job_id r a.status a.error count_failed s, false)
    else if more
    then (let (db, owned) =
          mark_reply_job_retrying_if_owned job_id r.owner a.error r.settle_at s.db in
        (record s { db = db; stats = if owned then count_retrying s.stats else s.stats }, owned))
    else (complete job_id r (last_status a.status) a.error count_failed s, false)

-- One attempt.
unfoldable pub attempt_once : String → ℕ → ℕ → Bool → Round → DispatchState → DispatchState × Bool
unfolding attempt_send settle
attempt_once job_id lease attempt more r s =
    let (s', answer) = attempt_send job_id lease attempt r s in
    elim answer [ none ↦ (s', false) | some a ↦ settle job_id more r a s' ]

-- The loop of `_dispatch`: attempts that are left, the number of the next one, and what each meets.
unfoldable pub dispatch_loop : String → ℕ → ℕ → ℕ → (ℕ → Round) → DispatchState → DispatchState
unfolding attempt_once
dispatch_loop job_id lease zero attempt rounds s = s
dispatch_loop job_id lease (suc left) attempt rounds s =
    let (s', go_on) = attempt_once job_id lease attempt (ltb 0 left) (rounds attempt) s in
    elim go_on [ true ↦ dispatch_loop job_id lease left (attempt + 1) rounds s' | false ↦ s' ]

-- `task.command.jobId or task.command.dedupeKey or ""`, where an empty text counts as none.
abbrev pub first_text : Option String → String → String
first_text none d = d
first_text (some t) d = if t == "" then d else t

unfoldable pub dispatch : ℕ → DispatchTask → (ℕ → Round) → DispatchState → DispatchState
unfolding dispatch_loop
dispatch lease task rounds s =
    dispatch_loop (first_text task.command.job_id (first_text task.command.dedupe_key "")) lease
      task.max_attempts 1 rounds s
