-- ===== src/Send/Repeats.antt =====
-- A repeated send request, against the unique `job_id` and the unique `dedupe_key`.
use kakao_x_termux.Prelude.{
  String, ◌≡◌, refl, Option, none, some, Bool, true, false, [], ◌∷◌, ◌==◌, ◌||◌, if_both, arith,
  Bool-cases, Option-cases, inl, inr, any, is_some, sym, ap, ◌∙◌,
}
use kakao_x_termux.Dict.{lookup, insert, lookup-insert}
use kakao_x_termux.Schemas.{ReplyCommand}
use kakao_x_termux.ReplyJobs.{
  ReplyJob, ReplyJobStatus, status_eq, queued, failed, duplicate, Db, insert_reply_job,
  update_reply_job, update_reply_job_if_status, set_status, update_where, dedupe_key_taken,
}
use kakao_x_termux.Dispatch.{enqueue}
use kakao_x_termux.Send.{
  SendState, SendRequest, SendResponse, Surroundings, send_verified, send_inserted, inserted,
  job_id_of, try_update, terminal_response, enqueue_response, dispatch_now, response,
  bridge_mode_value, find_token, is_expired, command_of, queue_full,
}
use kakao_x_termux.Send.Replies.{insert_reply_job-row}

-- What stops an insertion of the key.
abbrev pub taken : String → Option String → Db → Bool
taken k dedupe_key db = is_some (lookup k db) || dedupe_key_taken dedupe_key db

abbrev pub HasJob : String → Option String → SendState → Type 0
HasJob k d s = taken k d s.db ≡ true

dedupe_key-insert :
    (d : Option String) (k : String) (job : ReplyJob) (db : Db)
    → ((old : ReplyJob) → lookup k db ≡ some old → job.dedupe_key ≡ old.dedupe_key)
    → dedupe_key_taken d db ≡ true
    → dedupe_key_taken d (insert k job db) ≡ true
unfolding dedupe_key_taken insert lookup
dedupe_key-insert d k job [] same h = ground (arith, h)
dedupe_key-insert d k job ((j, old) ∷ db) same h = elim (Bool-cases (j == k)) [
  | inl here ↦ (let e = same old (rw here refl) in rw here (rw e h))
  | inr other ↦
      rw other (ground (arith, h, dedupe_key-insert d k job db (λ o g. same o (rw other g))))
]

abbrev dedupe_of : Option ReplyJob → Option String
dedupe_of none = none
dedupe_of (some job) = job.dedupe_key

update_where-HasJob :
    (k : String) (d : Option String) (j : String) (test : ReplyJob → Bool)
    (change : ReplyJob → ReplyJob) (db : Db)
    → ((job : ReplyJob) → (change job).dedupe_key ≡ job.dedupe_key)
    → taken k d db ≡ true
    → taken k d (update_where j test change db).0 ≡ true
unfolding update_where
update_where-HasJob k d j test change db same h = elim (Option-cases (lookup j db)) [
  | inl a ↦ rw (a, update_where) h
  | inr (job, a) ↦ elim (Bool-cases (test job)) [
    | inl t ↦
        rw (a, update_where, t)
          (rw (lookup-insert j k (change job) db) (
            ground (
              arith,
              h,
              dedupe_key-insert d j (change job) db (λ old g. same job ∙ ap dedupe_of (sym a ∙ g)),
            )))
    | inr f ↦ rw (a, update_where, f) h
  ]
]

-- Each call of the service keeps every job of the table.
module _ (k : String) (d : Option String) (e : Surroundings) (q : SendRequest) where
  try_update-HasJob :
      (status : ReplyJobStatus) (error : Option String) (s : SendState)
      → HasJob k d s
      → HasJob k d (try_update e q status error s)
  unfolding update_reply_job
  try_update-HasJob status error s h = if_both (HasJob k d) e.update_raises s _ h (
      update_where-HasJob k d (job_id_of e q) (λ _. true) (set_status status error e.now) s.db
        (λ job. refl) h)

  queue_full-HasJob : (s : SendState) → HasJob k d s → HasJob k d (queue_full e q s)
  unfolding update_reply_job_if_status
  queue_full-HasJob s h = if_both (HasJob k d) e.update_raises s _ h (
      update_where-HasJob k d (job_id_of e q) (λ j. any (status_eq j.status) (queued ∷ []))
        (set_status failed (some "dispatch queue full") e.now) s.db (λ job. refl) h)

  -- Either way of sending keeps the job.
  abbrev Kept : SendState × SendResponse → Type 0
  Kept out = HasJob k d out.0

  enqueue_response-Kept :
      (command : ReplyCommand) (s : SendState)
      → HasJob k d s
      → Kept (enqueue_response e q command s)
  unfolding enqueue_response
  enqueue_response-Kept command s h =
      if_both Kept (enqueue command e.bridge_mode (try_update e q queued none s).dispatch_queue).1 _
        _ (try_update-HasJob queued none s h)
        (queue_full-HasJob
          (record (try_update e q queued none s) {
            dispatch_queue =
                (enqueue command e.bridge_mode (try_update e q queued none s).dispatch_queue).0;
          })
          (try_update-HasJob queued none s h))

  dispatch_now-Kept : (s : SendState) → HasJob k d s → Kept (dispatch_now e q s)
  unfolding dispatch_now
  dispatch_now-Kept s h = elim (Option-cases e.external) [
    | inl a ↦ rw a (try_update-HasJob failed (some e.external_error) s h)
    | inr (r, a) ↦ rw a (try_update-HasJob r.status r.error s h)
  ]

  send_inserted-Kept : (s : SendState) → HasJob k d s → Kept (send_inserted e q s)
  unfolding send_inserted terminal_response
  send_inserted-Kept s h = elim (Option-cases (find_token e q).0) [
    | inl a ↦ rw (a, send_inserted) (try_update-HasJob _ _ s h)
    | inr (t, a) ↦
        rw (a, send_inserted)
          (if_both Kept (is_expired (find_token e q).1 e.now) _ _ (try_update-HasJob _ _ s h) (
            if_both Kept e.async_enqueue _ _ (enqueue_response-Kept (command_of e q t) s h)
              (dispatch_now-Kept s h)))
  ]

pub not_inserted :
    (e : Surroundings) (q : SendRequest) (db : Db)
    → taken (job_id_of e q) q.dedupe_key db ≡ true
    → (inserted e q db).1 ≡ false
unfolding insert_reply_job
not_inserted e q db h = rw h refl

not_inserted-taken :
    (e : Surroundings) (q : SendRequest) (db : Db)
    → (inserted e q db).1 ≡ false
    → taken (job_id_of e q) q.dedupe_key db ≡ true
unfolding insert_reply_job
not_inserted-taken e q db h = elim (Bool-cases (taken (job_id_of e q) q.dedupe_key db)) [
  | inl t ↦ t
  | inr f ↦ ground (arith, rw f at h)
]

inserted-HasJob :
    (e : Surroundings) (q : SendRequest) (s : SendState)
    → (inserted e q s.db).1 ≡ true
    → HasJob (job_id_of e q) q.dedupe_key (record s { db = (inserted e q s.db).0 })
inserted-HasJob e q s new =
    let (job, h) =
      insert_reply_job-row (job_id_of e q) q.room_key q.room q.text q.dedupe_key (find_token e q).0
        (bridge_mode_value e.bridge_mode) e.now s.db new in
    let found = ap is_some h in ground (arith, found)

insert-taken :
    (k : String) (d : Option String) (j : String) (job : ReplyJob) (db : Db)
    → is_some (lookup j db) ≡ false
    → taken k d db ≡ true
    → taken k d (insert j job db) ≡ true
insert-taken k d j job db new h =
    let free : (old : ReplyJob) → lookup j db ≡ some old → job.dedupe_key ≡ old.dedupe_key =
      λ old g. (let found = ap is_some g in ground (arith, new, found)) in
    rw (lookup-insert j k job db) (ground (arith, h, dedupe_key-insert d j job db free))

inserted-keeps :
    (k : String) (d : Option String) (e : Surroundings) (q : SendRequest) (db : Db)
    → taken k d db ≡ true
    → taken k d (inserted e q db).0 ≡ true
unfolding insert_reply_job
inserted-keeps k d e q db h = elim (Bool-cases (taken (job_id_of e q) q.dedupe_key db)) [
  | inl t ↦ rw t h
  | inr f ↦ rw f (insert-taken k d (job_id_of e q) _ db (ground (arith, f)) h)
]

-- No call of the service takes a job out of the table.
pub send_verified-HasJob :
    (k : String) (d : Option String) (e : Surroundings) (q : SendRequest) (s : SendState)
    → HasJob k d s
    → HasJob k d (send_verified e q s).0
unfolding send_verified
send_verified-HasJob k d e q s h = if_both (Kept k d e q) e.lookup_raises _ _ h (
    if_both (Kept k d e q) e.insert_raises _ _ h (elim (Bool-cases (inserted e q s.db).1) [
      | inl new ↦ rw new (
          send_inserted-Kept k d e q (record s { db = (inserted e q s.db).0 })
            (inserted-keeps k d e q s.db h))
      | inr old ↦ rw old h
    ]))

pub send_verified-taken :
    (e : Surroundings) (q : SendRequest) (s : SendState)
    → e.lookup_raises ≡ false
    → e.insert_raises ≡ false
    → taken (job_id_of e q) q.dedupe_key (send_verified e q s).0.db ≡ true
unfolding send_verified
send_verified-taken e q s l i = elim (Bool-cases (inserted e q s.db).1) [
  | inl new ↦
      let kept =
        send_inserted-Kept (job_id_of e q) q.dedupe_key e q
          (record s { db = (inserted e q s.db).0 }) (inserted-HasJob e q s new) in
      simp (l, i, new) kept
  | inr old ↦ simp (l, i, old) (not_inserted-taken e q s.db old)
]

-- `dedupeKey` is the job id of the request that has one.
pub job_id_of-key :
    (e : Surroundings) (q : SendRequest) (k : String)
    → q.dedupe_key ≡ some k
    → (k == "") ≡ false
    → job_id_of e q ≡ k
job_id_of-key e q k h filled = rw (h, filled) refl

-- A request with a dedupe key that is not empty, and a later one with the same key, where neither the lookup
-- of the token nor the insertion raises: the second one changes neither the table nor the queue, and its
-- answer is `duplicate`.
pub send_verified-repeated :
    (first second : Surroundings) (q r : SendRequest) (k : String) (s : SendState)
    → (first.lookup_raises ≡ false) × (first.insert_raises ≡ false)
    → (second.lookup_raises ≡ false) × (second.insert_raises ≡ false)
    → q.dedupe_key ≡ some k
    → r.dedupe_key ≡ some k
    → (k == "") ≡ false
    → send_verified second r (send_verified first q s).0 ≡ (
      (send_verified first q s).0,
      response second r false duplicate (some "duplicate dedupeKey"),
    )
unfolding send_verified
send_verified-repeated first second q r k s (l, i) (l', i') hq hr filled =
    let s' : SendState = (send_verified first q s).0 in
    let t : taken k (some k) s'.db ≡ true =
      sym (cc (job_id_of-key first q k hq filled, hq)) ∙ send_verified-taken first q s l i in
    let no_new : (inserted second r s'.db).1 ≡ false =
      not_inserted second r s'.db (cc (job_id_of-key second r k hr filled, hr, t)) in
    simp (l', i', no_new) refl

-- A request whose key is the id of a stored job changes nothing.
pub send_verified-found :
    (e : Surroundings) (q : SendRequest) (k : String) (s : SendState)
    → (e.lookup_raises ≡ false) × (e.insert_raises ≡ false)
    → q.dedupe_key ≡ some k
    → (k == "") ≡ false
    → HasJob k (some k) s
    → (send_verified e q s).0 ≡ s
unfolding send_verified
send_verified-found e q k s (l, i) hq filled h =
    let no_new : (inserted e q s.db).1 ≡ false =
      not_inserted e q s.db (cc (job_id_of-key e q k hq filled, hq, h)) in
    simp (l, i, no_new) refl

-- A request with a key leaves a job of that id, unless the key was taken as a dedupe key of another.
pub send_verified-stores :
    (e : Surroundings) (q : SendRequest) (k : String) (s : SendState)
    → (e.lookup_raises ≡ false) × (e.insert_raises ≡ false)
    → q.dedupe_key ≡ some k
    → (k == "") ≡ false
    → HasJob k (some k) (send_verified e q s).0
send_verified-stores e q k s (l, i) hq filled =
    sym (cc (job_id_of-key e q k hq filled, hq)) ∙ send_verified-taken e q s l i
