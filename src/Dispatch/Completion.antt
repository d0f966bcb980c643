-- ===== src/Dispatch/Completion.antt =====
-- A worker that has a job to itself.
use kakao_x_termux.Prelude.{
  ℕ, zero, suc, ◌+◌, ◌≡◌, ◌⊎◌, refl, String, Option, some, Bool, true, false, [], ◌∷◌, ◌++◌, ◌&&◌,
  arith, length, length-append, ltb, eq_refl, Bool-cases, inl, inr,
}
use kakao_x_termux.Dict.{lookup}
use kakao_x_termux.ReplyJobs.{
  ReplyJob, ReplyJobStatus, is_terminal, status_eq, Db, claimable, claim_reply_job_for_dispatch,
  complete_reply_job_if_owned, mark_reply_job_retrying_if_owned, claim, owned_by, to_terminal,
  to_retrying, terminal_or_failed, pending, queued, retrying, sent,
}
use kakao_x_termux.ReplyJobs.Update.{update_row}
use kakao_x_termux.Dispatch.{
  DispatchState, DispatchQueueStats, Round, AdapterResult, attempt_once, attempt_send, settle,
  complete, dispatch_loop, answer_of, count_sent, count_failed, no_retry, last_status,
}

abbrev pub is_waiting : ReplyJob → Bool
is_waiting job = elim job.status [ pending ↦ true | queued ↦ true | retrying ↦ true | _ ↦ false ]

-- The job after an attempt: counted once more, and finished, or waiting for the next attempt.
abbrev Settled : String → ℕ → Bool → DispatchState × Bool → Type 0
Settled k n more out =
    (job : ReplyJob) × (lookup k out.0.db ≡ some job)
    × (job.attempt_count ≡ n + 1)
    × (((out.1 ≡ false) × (is_terminal job.status ≡ true))
        ⊎ ((out.1 ≡ true) × (more ≡ true) × (is_waiting job ≡ true)))

module _ (k : String) (r : Round) (s : DispatchState) (job : ReplyJob)
    (h : lookup k s.db ≡ some job) (own : owned_by r.owner job ≡ true) where
  complete-Settled :
      (status : ReplyJobStatus) (error : Option String)
      (count : DispatchQueueStats → DispatchQueueStats) (more : Bool)
      → Settled k job.attempt_count more (complete k r status error count s, false)
  unfolding complete complete_reply_job_if_owned
  complete-Settled status error count more =
      let u =
        update_row k (owned_by r.owner) (to_terminal (terminal_or_failed status) error r.settle_at)
          s.db job h own in
      (
        to_terminal (terminal_or_failed status) error r.settle_at job,
        u.1,
        refl,
        inl (refl, ground arith),
      )

  settle-Settled :
      (a : AdapterResult) (more : Bool) → Settled k job.attempt_count more (settle k more r a s)
  unfolding settle mark_reply_job_retrying_if_owned
  settle-Settled a more = elim (Bool-cases (a.ok && status_eq a.status sent)) [
    | inl e ↦ rw e (complete-Settled sent a.error count_sent more)
    | inr e ↦ rw e (elim (Bool-cases (no_retry a.status)) [
      | inl e' ↦ rw e' (complete-Settled a.status a.error count_failed more)
      | inr e' ↦ rw e' (elim (Bool-cases more) [
        | inl m ↦
            let u =
              update_row k (owned_by r.owner) (to_retrying a.error r.settle_at) s.db job h own in
            rw m (to_retrying a.error r.settle_at job, u.1, refl, inr (u.0, refl, refl))
        | inr m ↦ rw m (complete-Settled (last_status a.status) a.error count_failed false)
      ])
    ])
  ]

waiting-claimable : (job : ReplyJob) (t : ℕ) → is_waiting job ≡ true → claimable t job ≡ true
waiting-claimable job t w = ground arith

-- No other worker touches the table meanwhile, and the claim does not raise.
abbrev pub Alone : Round → Type 0
Alone r = (r.claim_raises ≡ false) × ((db : Db) → r.others db ≡ db)

settle_calls :
    (k : String) (more : Bool) (r : Round) (a : AdapterResult) (s : DispatchState)
    → (settle k more r a s).0.calls ≡ s.calls
unfolding settle complete
settle_calls k more r a s = ground arith

module _ (k : String) (lease attempt : ℕ) (more : Bool) (r : Round) (s : DispatchState)
    (job : ReplyJob) (alone : Alone r) (h : lookup k s.db ≡ some job)
    (w : is_waiting job ≡ true) where
  claimed : DispatchState
  claimed = record s {
    db = (claim_reply_job_for_dispatch k r.owner lease r.claim_at s.db).0;
    calls = s.calls ++ attempt ∷ [];
  }

  claim_row :
      ((claim_reply_job_for_dispatch k r.owner lease r.claim_at s.db).1 ≡ true)
      × (lookup k (claim_reply_job_for_dispatch k r.owner lease r.claim_at s.db).0
          ≡ some (claim r.owner lease r.claim_at job))
  unfolding claim_reply_job_for_dispatch
  claim_row =
      update_row k (claimable r.claim_at) (claim r.owner lease r.claim_at) s.db job h
        (waiting-claimable job r.claim_at w)

  attempt_once_alone : attempt_once k lease attempt more r s ≡ settle k more r (answer_of r) claimed
  unfolding attempt_once attempt_send claimed
  attempt_once_alone = ground (
    arith,
    alone.0,
    claim_row.0,
    alone.1 (claim_reply_job_for_dispatch k r.owner lease r.claim_at s.db).0,
  )

  attempt_once-Settled :
      Settled k job.attempt_count more (attempt_once k lease attempt more r s)
      × (length (attempt_once k lease attempt more r s).0.calls ≡ length s.calls + 1)
  unfolding claimed
  attempt_once-Settled = rw attempt_once_alone (
    settle-Settled k r claimed (claim r.owner lease r.claim_at job) claim_row.1
        (ground (arith, eq_refl r.owner)) (answer_of r) more,
    rw (settle_calls k more r (answer_of r) claimed)
        (omega (arith, length-append s.calls (attempt ∷ []))),
  )

-- The job when the worker is done with it.
abbrev pub Finished : String → ReplyJob → DispatchState → DispatchState → Type 0
Finished k job s s' =
    (job' : ReplyJob) × (lookup k s'.db ≡ some job')
    × (is_terminal job'.status ≡ true)
    × (job'.attempt_count + length s.calls ≡ job.attempt_count + length s'.calls)

-- The end of the loop after an attempt.
carry_on : String → ℕ → ℕ → ℕ → (ℕ → Round) → DispatchState × Bool → DispatchState
carry_on k lease left attempt rounds (s, true) = dispatch_loop k lease left (attempt + 1) rounds s
carry_on k lease left attempt rounds (s, false) = s

dispatch_loop-suc :
    (k : String) (lease left attempt : ℕ) (rounds : ℕ → Round) (s : DispatchState)
    → dispatch_loop k lease (suc left) attempt rounds s
      ≡ carry_on k lease left attempt rounds
          (attempt_once k lease attempt (ltb 0 left) (rounds attempt) s)
unfolding dispatch_loop carry_on
dispatch_loop-suc k lease left attempt rounds s = ground arith

carry_on-Finished :
    (k : String) (lease left attempt : ℕ) (rounds : ℕ → Round) (s : DispatchState) (job : ReplyJob)
    (out : DispatchState × Bool)
    → Settled k job.attempt_count (ltb 0 left) out
    → length out.0.calls ≡ length s.calls + 1
    → ((job' : ReplyJob)
        → ltb 0 left ≡ true
        → lookup k out.0.db ≡ some job'
        → is_waiting job' ≡ true
        → Finished k job' out.0 (dispatch_loop k lease left (attempt + 1) rounds out.0))
    → Finished k job s (carry_on k lease left attempt rounds out)
unfolding carry_on
carry_on-Finished k lease left attempt rounds s job (s', true) (job', h', count, inl (stop, done))
      calls next =
    ground (arith, stop)
carry_on-Finished k lease left attempt rounds s job (s', false) (job', h', count, inl (stop, done))
      calls next =
    (job', h', done, omega arith)
carry_on-Finished k lease left attempt rounds s job (s', false)
      (job', h', count, inr (go_on, more, w')) calls next =
    ground (arith, go_on)
carry_on-Finished k lease left attempt rounds s job (s', true)
      (job', h', count, inr (go_on, more, w')) calls next =
    let (last, e, done, n) = next job' more h' w' in (last, e, done, omega arith)

-- A job that waits for dispatch, at least one attempt, claims that do not raise and a table that no other
-- worker touches: the worker brings the job to a terminal status, and `attempt_count` grows by the number of
-- calls of the adapter.
pub dispatch_loop-Finished :
    (k : String) (lease left attempt : ℕ) (rounds : ℕ → Round) (s : DispatchState) (job : ReplyJob)
    → ((n : ℕ) → Alone (rounds n))
    → lookup k s.db ≡ some job
    → is_waiting job ≡ true
    → Finished k job s (dispatch_loop k lease (suc left) attempt rounds s)
dispatch_loop-Finished k lease zero attempt rounds s job alone h w =
    rw (dispatch_loop-suc k lease 0 attempt rounds s) (
      let once =
        attempt_once-Settled k lease attempt (ltb 0 0) (rounds attempt) s job (alone attempt) h w in
      carry_on-Finished k lease 0 attempt rounds s job
        (attempt_once k lease attempt (ltb 0 0) (rounds attempt) s) once.0 once.1
        (λ job' none_left h' w'. ground (arith, none_left)))
dispatch_loop-Finished k lease (suc left) attempt rounds s job alone h w =
    rw (dispatch_loop-suc k lease (suc left) attempt rounds s) (
      let once =
        attempt_once-Settled k lease attempt (ltb 0 (suc left)) (rounds attempt) s job
          (alone attempt) h w in
      carry_on-Finished k lease (suc left) attempt rounds s job
        (attempt_once k lease attempt (ltb 0 (suc left)) (rounds attempt) s) once.0 once.1
        (λ job' more h' w'.
          dispatch_loop-Finished k lease left (attempt + 1) rounds
            (attempt_once k lease attempt (ltb 0 (suc left)) (rounds attempt) s).0 job' alone h'
            w'))
