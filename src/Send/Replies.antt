-- ===== src/Send/Replies.antt =====
-- The answer to a send request, against the table.
use kakao_x_termux.Prelude.{
  ℕ, String, ◌≡◌, refl, if◌then◌else◌, Option, some, true, ◌||◌, arith, Bool-cases, inl, inr,
  is_some, eq_refl, ◌∙◌,
}
use kakao_x_termux.Dict.{lookup, insert, lookup-insert}
use kakao_x_termux.ReplyJobs.{ReplyJob, pending, Db, insert_reply_job, dedupe_key_taken}
use kakao_x_termux.Send.{SendState, SendResponse, Surroundings}

-- The job is in the table, with the status that the answer tells.
abbrev pub Told : String → SendState × SendResponse → Type 0
Told k out = (job : ReplyJob) × (lookup k out.0.db ≡ some job) × (job.status ≡ out.1.status)

stored_in :
    (k : String) (job : ReplyJob) (db : Db)
    → (job' : ReplyJob) × (lookup k (insert k job db) ≡ some job')
stored_in k job db = (job, lookup-insert k k job db ∙ (rw (eq_refl k) refl))

pub insert_reply_job-row :
    (k room_key room text : String) (dedupe_key reply_token : Option String) (mode : String)
    (now : ℕ) (db : Db)
    → (insert_reply_job k room_key room text dedupe_key reply_token mode now db).1 ≡ true
    → (job : ReplyJob) × (lookup k
          (insert_reply_job k room_key room text dedupe_key reply_token mode now db).0
        ≡ some job)
unfolding insert_reply_job
insert_reply_job-row k room_key room text dedupe_key reply_token mode now db h =
    elim (Bool-cases (is_some (lookup k db) || dedupe_key_taken dedupe_key db)) [
      | inl t ↦ ground (arith, h, t)
      | inr f ↦ rw f (stored_in k _ db)
    ]

-- The job is in the table, with the status that the answer tells, or still PENDING where the updates raise.
abbrev pub Answered : Surroundings → String → SendState × SendResponse → Type 0
Answered e k out =
    (job : ReplyJob) × (lookup k out.0.db ≡ some job)
    × (job.status ≡ (if e.update_raises then pending else out.1.status))
