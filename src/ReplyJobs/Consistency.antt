-- ===== src/ReplyJobs/Consistency.antt =====
-- The dispatch columns of a row against its status.
use kakao_x_termux.Prelude.{
  ℕ, String, ◌≡◌, Option, none, some, true, List, [], ◌∷◌, arith, ◌==◌, is_some, Bool, ◌||◌, inl,
  inr, Bool-cases,
}
use kakao_x_termux.Dict.{lookup, insert, lookup-insert, lookup-empty}
use kakao_x_termux.ReplyJobs.{
  ReplyJobStatus, ReplyJob, Db, dedupe_key_taken, claim_reply_job_for_dispatch,
  mark_reply_job_retrying_if_owned, complete_reply_job_if_owned, update_where, claim, to_retrying,
  to_terminal, terminal_or_failed, set_status, insert_reply_job, update_reply_job,
  update_reply_job_if_status, dispatching,
}
use kakao_x_termux.ReplyJobs.Lifecycle.{WorkerCall, claims, retries, completes, perform}
use kakao_x_termux.ReplyJobs.Update.{changed, lookup-update_where}

-- An owner or a lease is recorded only on a DISPATCHING row, and the two come together.
pub record IsLeased (job : ReplyJob) : Type 0 where
  pub owner_dispatching : is_some job.dispatch_owner ≡ true → job.status ≡ dispatching
  pub lease_of_owner : is_some job.dispatch_lease_expires_at ≡ is_some job.dispatch_owner

abbrev pub AllLeased : Option ReplyJob → Type 0
AllLeased none = Unit {0}
AllLeased (some job) = IsLeased job

pub record IsConsistent (db : Db) : Type 0 where
  pub row : (k : String) → AllLeased (lookup k db)

-- Every statement that the repository issues on the table.
pub data Statement : Type 0 where
  inserts :
      String → String → String → String → Option String → Option String → String → ℕ → Statement
  calls : WorkerCall → Statement
  updates : String → ReplyJobStatus → Option String → ℕ → Statement
  updates_if : String → List ReplyJobStatus → ReplyJobStatus → Option String → ℕ → Statement

unfoldable pub execute : Statement → Db → Db
execute (inserts k room_key room text dedupe_key token mode now) db =
    (insert_reply_job k room_key room text dedupe_key token mode now db).0
execute (calls c) db = (perform c db).0
execute (updates k status error t) db = update_reply_job k status error t db
execute (updates_if k expected status error t) db =
    (update_reply_job_if_status k expected status error t db).0

unfoldable pub execute_all : List Statement → Db → Db
execute_all [] db = db
execute_all (s ∷ ss) db = execute_all ss (execute s db)

changed-AllLeased :
    (test : ReplyJob → Bool) (change : ReplyJob → ReplyJob)
    → ((job : ReplyJob) → IsLeased job → IsLeased (change job))
    → (o : Option ReplyJob) → AllLeased o
    → AllLeased (changed test change o)
changed-AllLeased test change keeps none v = tt
changed-AllLeased test change keeps (some job) v = elim (Bool-cases (test job)) [
  | inl t ↦ rw t (keeps job v)
  | inr f ↦ rw f v
]

update_where-IsConsistent :
    (k : String) (test : ReplyJob → Bool) (change : ReplyJob → ReplyJob) (db : Db)
    → ((job : ReplyJob) → IsLeased job → IsLeased (change job))
    → IsConsistent db
    → IsConsistent (update_where k test change db).0
update_where-IsConsistent k test change db keeps v = record {
  row = λ j. rw (lookup-update_where k j test change db) (elim (Bool-cases (k == j)) [
    | inl e ↦ rw e (changed-AllLeased test change keeps (lookup j db) (v.row j))
    | inr e ↦ rw e (v.row j)
  ]);
}

set_status-IsLeased :
    (status : ReplyJobStatus) (error : Option String) (t : ℕ) (job : ReplyJob)
    → IsLeased job
    → IsLeased (set_status status error t job)
set_status-IsLeased status error t job v = ground arith

to_terminal-IsLeased :
    (status : ReplyJobStatus) (error : Option String) (t : ℕ) (job : ReplyJob)
    → IsLeased job
    → IsLeased (to_terminal status error t job)
to_terminal-IsLeased status error t job v = ground arith

insert-IsConsistent :
    (k : String) (job : ReplyJob) (db : Db)
    → IsLeased job
    → IsConsistent db
    → IsConsistent (insert k job db)
insert-IsConsistent k job db fresh v = record {
  row = λ j.
      rw (lookup-insert k j job db)
        (elim (Bool-cases (k == j)) [ inl e ↦ rw e fresh | inr e ↦ rw e (v.row j) ]);
}

insert_reply_job-IsConsistent :
    (k room_key room text : String) (dedupe_key token : Option String) (mode : String) (now : ℕ)
    (db : Db)
    → IsConsistent db
    → IsConsistent (insert_reply_job k room_key room text dedupe_key token mode now db).0
unfolding insert_reply_job
insert_reply_job-IsConsistent k room_key room text dedupe_key token mode now db v =
    elim (Bool-cases (is_some (lookup k db) || dedupe_key_taken dedupe_key db)) [
      | inl e ↦ rw e v
      | inr e ↦ rw e (insert-IsConsistent k _ db (ground arith) v)
    ]

perform-IsConsistent : (c : WorkerCall) (db : Db) → IsConsistent db → IsConsistent (perform c db).0
unfolding perform claim_reply_job_for_dispatch mark_reply_job_retrying_if_owned
    complete_reply_job_if_owned
perform-IsConsistent (claims k owner lease t) db =
    update_where-IsConsistent k _ (claim owner lease t) db (λ job v. ground arith)
perform-IsConsistent (retries k owner error t) db =
    update_where-IsConsistent k _ (to_retrying error t) db (λ job v. ground arith)
perform-IsConsistent (completes k owner status error t) db =
    update_where-IsConsistent k _ _ db (to_terminal-IsLeased (terminal_or_failed status) error t)

execute-IsConsistent : (s : Statement) (db : Db) → IsConsistent db → IsConsistent (execute s db)
unfolding execute update_reply_job update_reply_job_if_status
execute-IsConsistent (inserts k room_key room text dedupe_key token mode now) db v =
    insert_reply_job-IsConsistent k room_key room text dedupe_key token mode now db v
execute-IsConsistent (calls c) db v = perform-IsConsistent c db v
execute-IsConsistent (updates k status error t) db v =
    update_where-IsConsistent k _ _ db (set_status-IsLeased status error t) v
execute-IsConsistent (updates_if k expected status error t) db v =
    update_where-IsConsistent k _ _ db (set_status-IsLeased status error t) v

execute_all-IsConsistent :
    (ss : List Statement) (db : Db) → IsConsistent db → IsConsistent (execute_all ss db)
unfolding execute_all
execute_all-IsConsistent [] db v = v
execute_all-IsConsistent (s ∷ ss) db v =
    execute_all-IsConsistent ss (execute s db) (execute-IsConsistent s db v)

-- After any sequence of the repository's statements on an empty table, in every row the owner and
-- the lease are recorded together, and only while the status is DISPATCHING.
pub execute_all-empty-IsConsistent : (ss : List Statement) → IsConsistent (execute_all ss [])
execute_all-empty-IsConsistent ss =
    execute_all-IsConsistent ss [] (record { row = λ k. rw (lookup-empty k) tt })
