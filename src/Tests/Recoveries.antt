-- ===== src/Tests/Recoveries.antt =====
-- A recovery on concrete rows.
use kakao_x_termux.Prelude.{none, some, false, [], ◌∷◌}
use kakao_x_termux.Schemas.{real_kakao, text_message}
use kakao_x_termux.ReplyJobs.{ReplyJob, pending, retrying}
use kakao_x_termux.Messages.{MessageRow}
use kakao_x_termux.Messages.Tokens.{empty_cache}
use kakao_x_termux.Writer.{fresh}
use kakao_x_termux.Pipeline.State.{init}
use kakao_x_termux.Recovery.{RecoveryInputs, RecoveryState}

abbrev stored_job : ReplyJob
stored_job = record {
  room_key = "r";
  room = "Room";
  text = "hello";
  status = pending;
  dedupe_key = none;
  reply_token = some "t";
  attempt_count = 0;
  last_error = none;
  bridge_mode = "noop";
  created_at = 5;
  updated_at = 5;
  dispatch_owner = none;
  dispatch_lease_expires_at = none;
  dispatch_started_at = none;
  sent_at = none;
}

abbrev pub stored_message : MessageRow
stored_message = record {
  event = record {
    schema_version = 1;
    event_id = "e1";
    source = "android";
    source_package = "com.kakao.talk";
    source_type = real_kakao;
    room_key = "r";
    room = "Room";
    sender = some "kim";
    text = "hello";
    message_type = text_message;
    received_at = 5;
    notification_key = none;
    reply_token = some "t";
    reply_token_expires_at = some 90;
    token = "";
  };
  processed = false;
  created_at = 5;
  updated_at = 5;
  deleted_at = none;
}

abbrev inputs : RecoveryInputs
inputs = record {
  shared_secret = "secret";
  bridge_mode = "noop";
  dispatching_stale_ms = 10;
  now = 100;
  monotonic_ns = λ id. 1;
  uuid = λ id. id;
  claim_raises = λ id. false;
  failure_raises = λ id. false;
}

-- A dispatch queue for one task, with two jobs to put back.
abbrev restarted : RecoveryState
restarted = record {
  pipeline = init 4 2 2 false 60;
  writer = fresh 4 2 false;
  token_cache = empty_cache;
  db = ("a", stored_job) ∷ ("b", record stored_job { status = retrying }) ∷ [];
  dispatch_queue = record {
    max_size = 1;
    max_attempts = 3;
    lease_millis = 30;
    queue = [];
    stats = record {
      submitted = 0;
      sent_count = 0;
      failed_count = 0;
      retrying_count = 0;
      rejected = 0;
    };
  };
  stats = record { messages_requeued = 0; reply_jobs_requeued = 0; failed_count = 0 };
}
