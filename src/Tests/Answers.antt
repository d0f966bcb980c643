-- ===== src/Tests/Answers.antt =====
-- Answers by rules and by bots on a concrete event.
use kakao_x_termux.Prelude.{none, some, true, false, List, [], ◌∷◌, arith, ◌==◌}
use kakao_x_termux.Schemas.{BridgeEvent, real_kakao, text_message, reply}
use kakao_x_termux.Rules.{TextFunctions, RoomRuleResponse, keyword}
use kakao_x_termux.Processor.{
  ChatDecision, event_action, pass, decides, RegisteredBot, ChatState, process_all,
}
use kakao_x_termux.Processor.Choice.{FitsDecision, process_all-Fits}

abbrev event : BridgeEvent
event = record {
  schema_version = 1;
  event_id = "e1";
  source = "android";
  source_package = "com.kakao.talk";
  source_type = real_kakao;
  room_key = "r";
  room = "Room";
  sender = some "kim";
  text = "hello";
  message_type = text_message;
  received_at = 5;
  notification_key = none;
  reply_token = some "t";
  reply_token_expires_at = some 90;
  token = "secret";
}

-- Texts that are compared as they are.
abbrev pub plain : TextFunctions
plain = record { strip = λ s. s; lower = λ s. s; is_in = λ a b. a == b; starts_with = λ a b. false }

abbrev pub greeting : RoomRuleResponse
greeting = record {
  room_key = "r";
  room = "Room";
  enabled = true;
  mode = keyword;
  rule = record {
    keywords = record { keyword_text = "hello"; reply_text = "hi" } ∷ [];
    queue_keywords = [];
  };
}

abbrev decision : ChatDecision
decision = record {
  action = event_action reply;
  text = some "a long text";
  reply_token = none;
  bot_key = none;
  reason = none;
  terminal = true;
}

-- A bot that passes, and a fallback bot that answers.
abbrev pub bots : List RegisteredBot
bots =
    record {
      key = "quiet";
      priority = 100;
      is_terminal = true;
      is_fallback = false;
      run = λ h. decides (record decision { action = pass });
    }
    ∷ record {
      key = "talk";
      priority = 100;
      is_terminal = true;
      is_fallback = true;
      run = λ h. decides decision;
    }
    ∷ []

abbrev pub chat : ChatState
chat = record { handled = false; runs = [] }

process_all-Fits_example : FitsDecision 4 (process_all 4 (some "t") bots chat).1
process_all-Fits_example =
    process_all-Fits 4 (some "t") bots chat
      ((λ h d e. ground (arith, e)), ((λ h d e. ground (arith, e)), _))
