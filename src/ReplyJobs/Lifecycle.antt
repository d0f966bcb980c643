-- ===== src/ReplyJobs/Lifecycle.antt =====
-- The life of one job under any sequence of the statements that dispatch workers issue.
use kakao_x_termux.Prelude.{
  ℕ, suc, ◌≤◌, String, ◌≡◌, refl, ap, ◌∙◌, Option, some, Bool, true, false, List, [], ◌∷◌, arith,
  ◌==◌, eq_iff, ◌&&◌, if◌then◌else◌, Bool-cases, inl, inr,
}
use kakao_x_termux.Dict.{lookup}
use kakao_x_termux.ReplyJobs.{
  ReplyJobStatus, ReplyJob, Db, is_terminal, update_where, claimable, owned_by, to_terminal,
  terminal_or_failed, claim_reply_job_for_dispatch, mark_reply_job_retrying_if_owned,
  complete_reply_job_if_owned,
}
use kakao_x_termux.ReplyJobs.Update.{hits, update_where_row, update_where-hits, lookup-update_where}

-- A statement of a dispatch worker, with its job, its owner and the time at which it runs.
pub data WorkerCall : Type 0 where
  claims : String → String → ℕ → ℕ → WorkerCall
  retries : String → String → Option String → ℕ → WorkerCall
  completes : String → String → ReplyJobStatus → Option String → ℕ → WorkerCall

unfoldable pub perform : WorkerCall → Db → Db × Bool
perform (claims k owner lease t) = claim_reply_job_for_dispatch k owner lease t
perform (retries k owner error t) = mark_reply_job_retrying_if_owned k owner error t
perform (completes k owner status error t) = complete_reply_job_if_owned k owner status error t

unfoldable pub run : List WorkerCall → Db → Db
unfolding perform
run [] db = db
run (c ∷ cs) db = run cs (perform c db).0

abbrev pub completes_job : String → WorkerCall → Bool
completes_job k (completes j owner status error t) = k == j
completes_job k _ = false

-- How many completions of the job succeed in the sequence.
unfoldable pub completions : String → List WorkerCall → Db → ℕ
unfolding perform
completions k [] db = 0
completions k (c ∷ cs) db =
    let later = completions k cs (perform c db).0 in
    if completes_job k c && (perform c db).1 then suc later else later

-- A row in a terminal status meets none of the guards.
terminal-guards :
    (job : ReplyJob) (t : ℕ) (owner : String)
    → is_terminal job.status ≡ true
    → (claimable t job ≡ false) × (owned_by owner job ≡ false)
terminal-guards job t owner h = ground arith

module _ (k : String) (job : ReplyJob) (done : is_terminal job.status ≡ true) where
  update_keeps :
      (j : String) (test : ReplyJob → Bool) (change : ReplyJob → ReplyJob) (db : Db)
      → test job ≡ false
      → lookup k db ≡ some job
      → (lookup k (update_where j test change db).0 ≡ some job)
        × (((j == k) && (update_where j test change db).1) ≡ false)
  update_keeps j test change db no_hit e = (
    lookup-update_where j k test change db ∙ (rw (e, no_hit) (ground arith)),
    ground (arith, eq_iff j k, update_where-hits j test change db, ap (hits test) e),
  )

  perform_keeps :
      (c : WorkerCall) (db : Db)
      → lookup k db ≡ some job
      → (lookup k (perform c db).0 ≡ some job) × ((completes_job k c && (perform c db).1) ≡ false)
  unfolding perform claim_reply_job_for_dispatch mark_reply_job_retrying_if_owned
      complete_reply_job_if_owned
  perform_keeps (claims j owner lease t) db e =
      ((update_keeps j _ _ db (terminal-guards job t owner done).0 e).0, refl)
  perform_keeps (retries j owner error t) db e =
      ((update_keeps j _ _ db (terminal-guards job t owner done).1 e).0, refl)
  perform_keeps (completes j owner status error t) db e =
      let kept =
        update_keeps j _ (to_terminal (terminal_or_failed status) error t) db
          (terminal-guards job t owner done).1 e in
      (kept.0, ground (arith, kept.1, eq_iff j k, eq_iff k j))

  -- No sequence of claims, retries and completions, by any workers at any times, changes a job
  -- that stands in a terminal status.
  pub terminal-run :
      (cs : List WorkerCall) (db : Db) → lookup k db ≡ some job → lookup k (run cs db) ≡ some job
  unfolding run
  terminal-run [] db e = e
  terminal-run (c ∷ cs) db e = terminal-run cs (perform c db).0 (perform_keeps c db e).0

  completions_terminal :
      (cs : List WorkerCall) (db : Db) → lookup k db ≡ some job → completions k cs db ≡ 0
  unfolding completions
  completions_terminal [] db e = refl
  completions_terminal (c ∷ cs) db e =
      rw (perform_keeps c db e).1
        (completions_terminal cs (perform c db).0 (perform_keeps c db e).0)

completed_row :
    (k : String) (c : WorkerCall) (db : Db)
    → (completes_job k c && (perform c db).1) ≡ true
    → (job : ReplyJob) × (lookup k (perform c db).0 ≡ some job) × (is_terminal job.status ≡ true)
unfolding perform complete_reply_job_if_owned
completed_row k (claims j owner lease t) db h = cc
completed_row k (retries j owner error t) db h = cc
completed_row k (completes j owner status error t) db h =
    let same : k ≡ j = ground (arith, eq_iff k j) in
    let (job, _, _, e) =
      update_where_row j (owned_by owner) (to_terminal (terminal_or_failed status) error t) db
        (ground arith) in
    (to_terminal (terminal_or_failed status) error t job, rw same e, ground arith)

-- Whatever calls the workers make and in whatever order, at most one completion of a job succeeds.
pub completions-le-one : (k : String) (cs : List WorkerCall) (db : Db) → completions k cs db ≤ 1
unfolding completions
completions-le-one k [] db = omega arith
completions-le-one k (c ∷ cs) db = elim (Bool-cases (completes_job k c && (perform c db).1)) [
  | inl hit ↦
      let (job, e, done) = completed_row k c db hit in
      rw hit (omega (arith, completions_terminal k job done cs (perform c db).0 e))
  | inr miss ↦ rw miss (completions-le-one k cs (perform c db).0)
]
