-- ===== src/Dispatch/Outcomes.antt =====
-- What a worker makes of one job.
use kakao_x_termux.Prelude.{
  ℕ, zero, suc, ◌+◌, ◌≤◌, ◌≡◌, refl, ap, ◌∙◌, String, some, Bool, false, [], ◌∷◌, arith, length,
  length-append, ltb,
}
use kakao_x_termux.Dict.{lookup}
use kakao_x_termux.ReplyJobs.{ReplyJob, claimable, claim_reply_job_for_dispatch, claim}
use kakao_x_termux.ReplyJobs.Update.{update_where_miss, hits}
use kakao_x_termux.Dispatch.{
  DispatchState, Round, attempt_once, attempt_send, settle, complete, dispatch_loop,
}

-- A job that cannot be claimed when the worker comes to it is left alone: the table, the counters and
-- the adapter.
pub dispatch_unclaimable :
    (k : String) (lease left : ℕ) (rounds : ℕ → Round) (s : DispatchState) (job : ReplyJob)
    → lookup k s.db ≡ some job
    → (rounds 1).claim_raises ≡ false
    → claimable (rounds 1).claim_at job ≡ false
    → dispatch_loop k lease left 1 rounds s ≡ s
unfolding dispatch_loop attempt_once attempt_send claim_reply_job_for_dispatch
dispatch_unclaimable k lease zero rounds s job h ok no_claim = refl
dispatch_unclaimable k lease (suc left) rounds s job h ok no_claim =
    let miss =
      update_where_miss k (claimable (rounds 1).claim_at)
        (claim (rounds 1).owner lease (rounds 1).claim_at) s.db
        (ap (hits (claimable (rounds 1).claim_at)) h ∙ no_claim) in
    ground (arith, miss)

-- One attempt calls the adapter at most once.
attempt_once_calls :
    (k : String) (lease attempt : ℕ) (more : Bool) (r : Round) (s : DispatchState)
    → length (attempt_once k lease attempt more r s).0.calls ≤ length s.calls + 1
unfolding attempt_once attempt_send settle complete
attempt_once_calls k lease attempt more r s = ground (arith, length-append s.calls (attempt ∷ []))

-- The adapter is called at most once for each attempt that is allowed, whatever it answers and whatever
-- other workers do.
pub dispatch_calls_le :
    (k : String) (lease left attempt : ℕ) (rounds : ℕ → Round) (s : DispatchState)
    → length (dispatch_loop k lease left attempt rounds s).calls ≤ length s.calls + left
unfolding dispatch_loop
dispatch_calls_le k lease zero attempt rounds s = omega arith
dispatch_calls_le k lease (suc left) attempt rounds s =
    let r = attempt_once k lease attempt (ltb 0 left) (rounds attempt) s in
    ground (
      arith,
      attempt_once_calls k lease attempt (ltb 0 left) (rounds attempt) s,
      dispatch_calls_le k lease left (attempt + 1) rounds r.0,
    )
