-- ===== src/ReplyJobs.antt =====
-- app/repositories/reply_jobs.py: the table `reply_jobs` and the statements on it. A row is found by
-- its unique `job_id`; rows stand in the order of their `id`. The clock is an argument of each call.
pub mod Update
pub mod Ownership
pub mod Lifecycle
pub mod Consistency
pub mod Recoverable
pub mod Listing
use kakao_x_termux.Prelude.{
  ℕ, suc, ◌+◌, ◌-◌, String, Option, none, some, Bool, true, false, List, [], ◌∷◌, ◌&&◌, ◌||◌, not,
  max, min, leb, any, take, keep_if, ◌==◌, if◌then◌else◌, is_some,
}
use kakao_x_termux.Dict.{Dict, lookup, insert}

pub data ReplyJobStatus : Type 0 where
  pending queued dispatching retrying sent failed token_expired handle_expired duplicate :
      ReplyJobStatus

abbrev pub status_eq : ReplyJobStatus → ReplyJobStatus → Bool
status_eq pending pending = true
status_eq queued queued = true
status_eq dispatching dispatching = true
status_eq retrying retrying = true
status_eq sent sent = true
status_eq failed failed = true
status_eq token_expired token_expired = true
status_eq handle_expired handle_expired = true
status_eq duplicate duplicate = true
status_eq _ _ = false

-- `status in TERMINAL_STATUSES`
abbrev pub is_terminal : ReplyJobStatus → Bool
is_terminal sent = true
is_terminal failed = true
is_terminal token_expired = true
is_terminal handle_expired = true
is_terminal duplicate = true
is_terminal _ = false

pub record ReplyJob : Type 0 where
  pub room_key : String
  pub room : String
  pub text : String
  pub status : ReplyJobStatus
  pub dedupe_key : Option String
  pub reply_token : Option String
  pub attempt_count : ℕ
  pub last_error : Option String
  pub bridge_mode : String
  pub created_at : ℕ
  pub updated_at : ℕ
  pub dispatch_owner : Option String
  pub dispatch_lease_expires_at : Option ℕ
  pub dispatch_started_at : Option ℕ
  pub sent_at : Option ℕ

abbrev pub Db : Type 0
Db = Dict ReplyJob

abbrev pub text_eq? : Option String → Option String → Bool
text_eq? none _ = false
text_eq? (some a) none = false
text_eq? (some a) (some b) = a == b

-- The partial unique index on `dedupe_key`: NULL equals nothing.
unfoldable pub dedupe_key_taken : Option String → Db → Bool
dedupe_key_taken k [] = false
dedupe_key_taken k ((j, job) ∷ db) = text_eq? job.dedupe_key k || dedupe_key_taken k db

-- A new job is stored as PENDING; a unique key that is taken raises `IntegrityError`.
unfoldable pub insert_reply_job :
    String → String → String → String → Option String → Option String → String → ℕ → Db → Db × Bool
unfolding dedupe_key_taken
insert_reply_job job_id room_key room text dedupe_key reply_token bridge_mode now db =
    if is_some (lookup job_id db) || dedupe_key_taken dedupe_key db
    then (db, false)
    else (insert job_id job db, true)
  where
    job : ReplyJob
    job = record {
      room_key = room_key;
      room = room;
      text = text;
      status = pending;
      dedupe_key = dedupe_key;
      reply_token = reply_token;
      attempt_count = 0;
      last_error = none;
      bridge_mode = bridge_mode;
      created_at = now;
      updated_at = now;
      dispatch_owner = none;
      dispatch_lease_expires_at = none;
      dispatch_started_at = none;
      sent_at = none;
    }

-- `UPDATE reply_jobs SET … WHERE job_id = ? AND …`, and whether `rowcount` is 1.
unfoldable pub update_where : String → (ReplyJob → Bool) → (ReplyJob → ReplyJob) → Db → Db × Bool
update_where job_id test change db = elim (lookup job_id db) [
  | none ↦ (db, false)
  | some job ↦ if test job then (insert job_id (change job) db, true) else (db, false)
]

abbrev pub lease_expired : Option ℕ → ℕ → Bool
lease_expired none current = false
lease_expired (some at) current = leb at current

-- The `WHERE` clause of a claim.
abbrev pub claimable : ℕ → ReplyJob → Bool
claimable current job = elim job.status [
  | pending ↦ true
  | queued ↦ true
  | retrying ↦ true
  | dispatching ↦ lease_expired job.dispatch_lease_expires_at current
  | _ ↦ false
]

abbrev pub claim : String → ℕ → ℕ → ReplyJob → ReplyJob
claim owner lease_millis current job = record job {
  status = dispatching;
  dispatch_owner = some owner;
  dispatch_lease_expires_at = some (current + max lease_millis 1);
  dispatch_started_at = some current;
  updated_at = current;
}

unfoldable pub claim_reply_job_for_dispatch : String → String → ℕ → ℕ → Db → Db × Bool
claim_reply_job_for_dispatch job_id owner lease_millis current =
    update_where job_id (claimable current) (claim owner lease_millis current)

abbrev pub owned_by : String → ReplyJob → Bool
owned_by owner job = status_eq job.status dispatching && text_eq? job.dispatch_owner (some owner)

abbrev pub to_retrying : Option String → ℕ → ReplyJob → ReplyJob
to_retrying error current job = record job {
  status = retrying;
  last_error = error;
  attempt_count = job.attempt_count + 1;
  updated_at = current;
  dispatch_owner = none;
  dispatch_lease_expires_at = none;
}

unfoldable pub mark_reply_job_retrying_if_owned :
    String → String → Option String → ℕ → Db → Db × Bool
mark_reply_job_retrying_if_owned job_id owner error current =
    update_where job_id (owned_by owner) (to_retrying error current)

abbrev pub terminal_or_failed : ReplyJobStatus → ReplyJobStatus
terminal_or_failed status = if is_terminal status then status else failed

abbrev pub to_terminal : ReplyJobStatus → Option String → ℕ → ReplyJob → ReplyJob
to_terminal status error current job = record job {
  status = status;
  last_error = error;
  attempt_count = job.attempt_count + 1;
  updated_at = current;
  sent_at = if status_eq status sent then some current else none;
  dispatch_owner = none;
  dispatch_lease_expires_at = none;
}

unfoldable pub complete_reply_job_if_owned :
    String → String → ReplyJobStatus → Option String → ℕ → Db → Db × Bool
complete_reply_job_if_owned job_id owner status error current =
    update_where job_id (owned_by owner) (to_terminal (terminal_or_failed status) error current)

-- `status in counted_statuses`
abbrev pub is_counted : ReplyJobStatus → Bool
is_counted retrying = true
is_counted sent = true
is_counted failed = true
is_counted token_expired = true
is_counted handle_expired = true
is_counted _ = false

-- The `SET` list of `_update_reply_job`.
abbrev pub set_status : ReplyJobStatus → Option String → ℕ → ReplyJob → ReplyJob
set_status status error current job = record job {
  status = status;
  last_error = error;
  attempt_count = if is_counted status then job.attempt_count + 1 else job.attempt_count;
  updated_at = current;
  sent_at = if status_eq status sent then some current else none;
  dispatch_owner = if status_eq status dispatching then job.dispatch_owner else none;
  dispatch_lease_expires_at =
      if status_eq status dispatching then job.dispatch_lease_expires_at else none;
}

unfoldable pub update_reply_job : String → ReplyJobStatus → Option String → ℕ → Db → Db
update_reply_job job_id status error current db =
    (update_where job_id (λ _. true) (set_status status error current) db).0

unfoldable pub update_reply_job_if_status :
    String → List ReplyJobStatus → ReplyJobStatus → Option String → ℕ → Db → Db × Bool
update_reply_job_if_status job_id expected status error current =
    update_where job_id (λ job. any (status_eq job.status) expected)
      (set_status status error current)
