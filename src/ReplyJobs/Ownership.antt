-- ===== src/ReplyJobs/Ownership.antt =====
-- Leases: who may dispatch a job, and for how long.
use kakao_x_termux.Prelude.{ℕ, ◌+◌, ◌<◌, String, ◌≡◌, ◌≢◌, Option, true, false, max, arith, eq_iff}
use kakao_x_termux.Dict.{lookup}
use kakao_x_termux.ReplyJobs.{
  ReplyJobStatus, Db, claimable, claim, claim_reply_job_for_dispatch, owned_by,
  mark_reply_job_retrying_if_owned, complete_reply_job_if_owned,
}
use kakao_x_termux.ReplyJobs.Update.{hits, update_where_row, update_where_miss}

module _ (k owner : String) (lease t : ℕ) (db : Db) where
  -- While the lease of a successful claim runs, every other claim of the job fails and changes
  -- nothing, whoever makes it.
  pub claim_exclusive :
      (other : String) (lease' t' : ℕ)
      → (claim_reply_job_for_dispatch k owner lease t db).1 ≡ true
      → t' < t + max lease 1
      → claim_reply_job_for_dispatch k other lease' t'
          (claim_reply_job_for_dispatch k owner lease t db).0
        ≡ ((claim_reply_job_for_dispatch k owner lease t db).0, false)
  unfolding claim_reply_job_for_dispatch
  claim_exclusive other lease' t' h lt =
      let (job, _, _, e) = update_where_row k (claimable t) (claim owner lease t) db h in
      update_where_miss k _ _ _ (rw e (ground arith))

  -- After a successful claim no other owner can complete the job or put it back for a retry: each
  -- fails and changes nothing.
  pub stale_owner_refused :
      (stale : String) (status : ReplyJobStatus) (error : Option String) (t' : ℕ)
      → stale ≢ owner
      → (claim_reply_job_for_dispatch k owner lease t db).1 ≡ true
      → let db' = (claim_reply_job_for_dispatch k owner lease t db).0 in
        (complete_reply_job_if_owned k stale status error t' db' ≡ (db', false))
        × (mark_reply_job_retrying_if_owned k stale error t' db' ≡ (db', false))
  unfolding claim_reply_job_for_dispatch complete_reply_job_if_owned
      mark_reply_job_retrying_if_owned
  stale_owner_refused stale status error t' ne h =
      let (job, _, _, e) = update_where_row k (claimable t) (claim owner lease t) db h in
      let refused : hits (owned_by stale)
            (lookup k (claim_reply_job_for_dispatch k owner lease t db).0)
          ≡ false =
        rw e (ground (arith, eq_iff owner stale)) in
      (update_where_miss k _ _ _ refused, update_where_miss k _ _ _ refused)
