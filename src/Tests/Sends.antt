-- ===== src/Tests/Sends.antt =====
-- Send requests, reply tokens and reply slots on concrete data.
use kakao_x_termux.Prelude.{ℕ, ◌≡◌, refl, none, some, true, false, []}
use kakao_x_termux.Schemas.{BridgeEvent, real_kakao, text_message, noop}
use kakao_x_termux.ReplyJobs.{sent, duplicate}
use kakao_x_termux.RateLimiter.{WaitCall, room}
use kakao_x_termux.Send.{Surroundings, SendRequest, SendState, send_verified, response}
use kakao_x_termux.Send.Repeats.{send_verified-repeated}

abbrev pub event : BridgeEvent
event = record {
  schema_version = 1;
  event_id = "e1";
  source = "android";
  source_package = "com.kakao.talk";
  source_type = real_kakao;
  room_key = "r";
  room = "Room";
  sender = some "kim";
  text = "hello";
  message_type = text_message;
  received_at = 5;
  notification_key = none;
  reply_token = some "t";
  reply_token_expires_at = some 90;
  token = "secret";
}

abbrev slot : ℕ → WaitCall
slot now = record {
  bot_key = "bot";
  room_key = "r";
  sender_name = none;
  interval_millis = 1000;
  scope = room;
  now = now;
}

abbrev pub surroundings : Surroundings
surroundings = record {
  shared_secret = "secret";
  bridge_mode = noop;
  async_enqueue = false;
  new_job_id = "job_1";
  now = 10;
  cache = none;
  messages = [];
  lookup_raises = false;
  insert_raises = false;
  update_raises = false;
  external = some (record { ok = true; status = sent; error = none });
  external_error = "";
}

abbrev request : SendRequest
request = record {
  room_key = "r";
  room = "Room";
  text = "hello";
  dedupe_key = some "k";
  reply_token = some "t";
  token = "secret";
}

abbrev pub idle : SendState
idle = record {
  db = [];
  dispatch_queue = record {
    max_size = 2;
    max_attempts = 3;
    lease_millis = 30;
    queue = [];
    stats = record {
      submitted = 0;
      sent_count = 0;
      failed_count = 0;
      retrying_count = 0;
      rejected = 0;
    };
  };
}

send_verified-repeated_example :
    send_verified surroundings request (send_verified surroundings request idle).0 ≡ (
      (send_verified surroundings request idle).0,
      response surroundings request false duplicate (some "duplicate dedupeKey"),
    )
send_verified-repeated_example =
    send_verified-repeated surroundings surroundings request request "k" idle (refl, refl)
      (refl, refl) refl refl refl
