-- ===== src/ReplyJobs/Recoverable.antt =====
-- app/repositories/reply_jobs.py: the listing of jobs for a recovery, and the metrics of the queued jobs.
use kakao_x_termux.Prelude.{
  ℕ, suc, ◌-◌, String, Option, none, some, Bool, true, false, List, [], ◌∷◌, max, min, leb, take,
  keep_if, if◌then◌else◌,
}
use kakao_x_termux.ReplyJobs.{pending, queued, dispatching, retrying, status_eq, ReplyJob, Db}

-- The `WHERE` clause of the recovery listing.
abbrev pub recoverable : ℕ → ReplyJob → Bool
recoverable cutoff job = elim job.status [
  | pending ↦ true
  | queued ↦ true
  | retrying ↦ true
  | dispatching ↦ elim job.dispatch_lease_expires_at [
    | some at ↦ leb at cutoff
    | none ↦ leb job.updated_at cutoff
  ]
  | _ ↦ false
]

-- `ORDER BY created_at ASC, id ASC`: an insertion sort that keeps the order of equal rows.
unfoldable pub insert_row : String × ReplyJob → List (String × ReplyJob) → List (String × ReplyJob)
insert_row r [] = r ∷ []
insert_row r (q ∷ rows) =
    let rest = insert_row r rows in
    if leb r.1.created_at q.1.created_at then r ∷ q ∷ rows else q ∷ rest

unfoldable pub sort_rows : List (String × ReplyJob) → List (String × ReplyJob)
unfolding insert_row
sort_rows [] = []
sort_rows (r ∷ rows) = insert_row r (sort_rows rows)

-- The listing with a cutoff given.
unfoldable pub list_recoverable_reply_jobs : ℕ → ℕ → Db → List (String × ReplyJob)
unfolding sort_rows
list_recoverable_reply_jobs limit cutoff db =
    take (max (min limit 1000) 1) (sort_rows (keep_if (λ r. recoverable cutoff r.1) db))

-- The number of QUEUED jobs and the age of the oldest.
abbrev oldest_of : Option ℕ → ℕ → ℕ
oldest_of none at = at
oldest_of (some a) at = min a at

pub queued_reply_jobs : Db → ℕ × Option ℕ
queued_reply_jobs [] = (0, none)
queued_reply_jobs ((j, job) ∷ db) =
    let (n, oldest) = queued_reply_jobs db in
    if status_eq job.status queued
    then (suc n, some (oldest_of oldest job.updated_at))
    else (n, oldest)

unfoldable pub queued_reply_job_metrics : ℕ → Db → ℕ × ℕ
unfolding queued_reply_jobs
queued_reply_job_metrics current db = elim (queued_reply_jobs db).1 [
  | none ↦ ((queued_reply_jobs db).0, 0)
  | some at ↦ ((queued_reply_jobs db).0, current - at)
]
