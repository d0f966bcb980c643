-- ===== src/Send.antt =====
-- app/services/send_service.py: `handle_send`. What the service reads from elsewhere is an argument: the
-- secret, the new job id, the clock, whether a call of the repository raises, and the adapter's result.
pub mod Replies
pub mod Repeats
use kakao_x_termux.Prelude.{
  ℕ, String, Option, none, some, Bool, true, false, List, [], ◌∷◌, ◌==◌, if◌then◌else◌, or_else,
  leb,
}
use kakao_x_termux.Schemas.{
  BridgeMode, am_broadcast, adb_broadcast, http_test_backend, noop, ReplyCommand,
}
use kakao_x_termux.ReplyJobs.{
  ReplyJobStatus, queued, failed, token_expired, handle_expired, duplicate, Db, insert_reply_job,
  update_reply_job, update_reply_job_if_status,
}
use kakao_x_termux.Dispatch.{DispatchQueue, AdapterResult, enqueue, first_text}
use kakao_x_termux.Messages.{MessageRow, latest_reply_token, expires_at_for_token}
use kakao_x_termux.Messages.Tokens.{
  ReplyTokenCache, peek_latest_for_room, peek_expires_at_for_token,
}

pub record SendRequest : Type 0 where
  pub room_key : String
  pub room : String
  pub text : String
  pub dedupe_key : Option String
  pub reply_token : Option String
  pub token : String

pub record SendResponse : Type 0 where
  pub ok : Bool
  pub job_id : String
  pub status : ReplyJobStatus
  pub bridge_mode : BridgeMode
  pub error : Option String

-- What a request meets. `new_job_id` is the `job_…` of `uuid4`; `external` is the value of the external
-- runner, or `none` with its error text if the runner did not complete. The updates of the job all raise, or none.
pub record Surroundings : Type 0 where
  pub shared_secret : String
  pub bridge_mode : BridgeMode
  pub async_enqueue : Bool
  pub new_job_id : String
  pub now : ℕ
  pub cache : Option ReplyTokenCache
  pub messages : List MessageRow
  pub lookup_raises : Bool
  pub insert_raises : Bool
  pub update_raises : Bool
  pub external : Option AdapterResult
  pub external_error : String

-- The table of jobs and the queue of the dispatch workers.
pub record SendState : Type 0 where
  pub db : Db
  pub dispatch_queue : DispatchQueue

abbrev pub bridge_mode_value : BridgeMode → String
bridge_mode_value am_broadcast = "am_broadcast"
bridge_mode_value adb_broadcast = "adb_broadcast"
bridge_mode_value http_test_backend = "http_test_backend"
bridge_mode_value noop = "noop"

-- `request.dedupeKey or f"job_{uuid4().hex}"`
abbrev pub job_id_of : Surroundings → SendRequest → String
job_id_of e q = first_text q.dedupe_key e.new_job_id

abbrev cached_expiry : String → Option ReplyTokenCache → Option ℕ
cached_expiry token none = none
cached_expiry token (some c) = peek_expires_at_for_token token c

-- The newest token of the room, from the cache or else from the table.
abbrev newest_token : Surroundings → String → Option String × Option ℕ
newest_token e room_key = elim e.cache [
  | none ↦ latest_reply_token room_key e.messages
  | some c ↦ elim (peek_latest_for_room room_key c) [
    | none ↦ latest_reply_token room_key e.messages
    | some cached ↦ cached
  ]
]

-- The reply token and its expiry. An empty token is kept, and has no expiry.
unfoldable pub find_token : Surroundings → SendRequest → Option String × Option ℕ
find_token e q = elim q.reply_token [
  | none ↦ newest_token e q.room_key
  | some t ↦ (
    some t,
    if t == "" then none else or_else (cached_expiry t e.cache) (expires_at_for_token t e.messages),
  )
]

abbrev pub response :
    Surroundings → SendRequest → Bool → ReplyJobStatus → Option String → SendResponse
response e q ok status error = record {
  ok = ok;
  job_id = job_id_of e q;
  status = status;
  bridge_mode = e.bridge_mode;
  error = error;
}

-- An update whose exception is only logged.
abbrev pub try_update :
    Surroundings → SendRequest → ReplyJobStatus → Option String → SendState → SendState
try_update e q status error s =
    if e.update_raises
    then s
    else record s { db = update_reply_job (job_id_of e q) status error e.now s.db }

-- `_terminal_response`
unfoldable pub terminal_response :
    Surroundings → SendRequest → ReplyJobStatus → String → SendState → SendState × SendResponse
terminal_response e q status error s =
    (try_update e q status (some error) s, response e q false status (some error))

abbrev pub queue_full : Surroundings → SendRequest → SendState → SendState
queue_full e q s = if e.update_raises then s else record s {
  db =
      (update_reply_job_if_status (job_id_of e q) (queued ∷ []) failed (some "dispatch queue full")
        e.now s.db).0;
}

-- `_enqueue_response`
unfoldable pub enqueue_response :
    Surroundings → SendRequest → ReplyCommand → SendState → SendState × SendResponse
enqueue_response e q command s =
    let s' = try_update e q queued none s in
    let (d, accepted) = enqueue command e.bridge_mode s'.dispatch_queue in
    if accepted then (record s' { dispatch_queue = d }, response e q true queued none) else (
      queue_full e q (record s' { dispatch_queue = d }),
      response e q false failed (some "dispatch queue full"),
    )

abbrev pub command_of : Surroundings → SendRequest → String → ReplyCommand
command_of e q token = record {
  job_id = some (job_id_of e q);
  room_key = q.room_key;
  room = q.room;
  text = q.text;
  dedupe_key = some (first_text q.dedupe_key (job_id_of e q));
  reply_token = some token;
  token = q.token;
}

-- The call of the adapter that the request waits for, and its result in the table.
unfoldable pub dispatch_now : Surroundings → SendRequest → SendState → SendState × SendResponse
dispatch_now e q s = elim e.external [
  | none ↦ (
    try_update e q failed (some e.external_error) s,
    response e q false failed (some e.external_error),
  )
  | some r ↦ (try_update e q r.status r.error s, response e q r.ok r.status r.error)
]

-- `expires_at is not None and expires_at <= now_millis()`
abbrev pub is_expired : Option ℕ → ℕ → Bool
is_expired none now = false
is_expired (some t) now = leb t now

-- The request once its job is stored.
unfoldable pub send_inserted : Surroundings → SendRequest → SendState → SendState × SendResponse
unfolding terminal_response enqueue_response dispatch_now
send_inserted e q s = elim (find_token e q).0 [
  | none ↦ terminal_response e q handle_expired "reply token not found" s
  | some t ↦
      if is_expired (find_token e q).1 e.now
      then terminal_response e q token_expired "reply token expired" s
      else if e.async_enqueue
      then enqueue_response e q (command_of e q t) s
      else dispatch_now e q s
]

-- The insertion of the job.
abbrev pub inserted : Surroundings → SendRequest → Db → Db × Bool
inserted e q db =
    insert_reply_job (job_id_of e q) q.room_key q.room q.text q.dedupe_key (find_token e q).0
      (bridge_mode_value e.bridge_mode) e.now db

unfoldable pub send_verified : Surroundings → SendRequest → SendState → SendState × SendResponse
unfolding send_inserted
send_verified e q s =
    if e.lookup_raises
    then (s, response e q false failed (some "reply token lookup failed"))
    else if e.insert_raises
    then (s, response e q false failed (some "reply job insert failed"))
    else (let (db, new) = inserted e q s.db in
        if new
        then send_inserted e q (record s { db = db })
        else (s, response e q false duplicate (some "duplicate dedupeKey")))

-- `handle_send`; `none` is the HTTP error 401 of `verify_token`.
unfoldable pub handle_send :
    Surroundings → SendRequest → SendState → SendState × Option SendResponse
unfolding send_verified
handle_send e q s =
    if q.token == e.shared_secret
    then (let (s', r) = send_verified e q s in (s', some r))
    else (s, none)
