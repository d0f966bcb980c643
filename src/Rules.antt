-- ===== src/Rules.antt =====
-- app/rule_engine.py and `to_event_response` of app/chatbot/decision.py: what is answered to an event. Python's
-- `strip().lower()`, `in` and `startswith` on texts are parameters.
pub mod Answers
use kakao_x_termux.Prelude.{
  String, Option, none, some, Bool, true, false, List, [], ◌∷◌, ◌==◌, ◌&&◌, not, any, if◌then◌else◌,
  is_some,
}
use kakao_x_termux.Schemas.{BridgeEvent, EventAction, reply, queued, EventResponse}
use kakao_x_termux.Schemas

pub data RoomRuleMode : Type 0 where
  manual keyword disabled : RoomRuleMode

pub record KeywordReplyRule : Type 0 where
  pub keyword_text : String
  pub reply_text : String

pub record RoomRuleConfig : Type 0 where
  pub keywords : List KeywordReplyRule
  pub queue_keywords : List String

pub record RoomRuleResponse : Type 0 where
  pub room_key : String
  pub room : String
  pub enabled : Bool
  pub mode : RoomRuleMode
  pub rule : RoomRuleConfig

-- The text functions of Python that the rules use.
pub record TextFunctions : Type 0 where
  pub strip : String → String
  pub lower : String → String
  pub is_in : String → String → Bool
  pub starts_with : String → String → Bool

abbrev pub acknowledge : EventAction → EventResponse
acknowledge action = record {
  ack = true;
  action = action;
  reply_token = none;
  text = none;
  error = none;
}

abbrev pub reply_with : Option String → Option String → EventResponse
reply_with token text = record {
  ack = true;
  action = reply;
  reply_token = token;
  text = text;
  error = none;
}

-- `keyword.strip().lower() in lowered_text`
abbrev pub found_in : TextFunctions → String → String → Bool
found_in f lowered word = f.is_in (f.lower (f.strip word)) lowered

-- The loop over the keyword rules.
unfoldable pub first_rule :
    TextFunctions → String → Option String → List KeywordReplyRule → EventResponse
first_rule f lowered token [] = acknowledge EventAction.none
first_rule f lowered token (rule ∷ rules) =
    let rest = first_rule f lowered token rules in
    if found_in f lowered rule.keyword_text then reply_with token (some rule.reply_text) else rest

abbrev pub decide_keyword : TextFunctions → BridgeEvent → RoomRuleConfig → String → EventResponse
decide_keyword f event rule lowered =
    if any (λ word. not (f.strip word == "") && found_in f lowered word) rule.queue_keywords
    then acknowledge queued
    else if is_some event.reply_token
    then first_rule f lowered event.reply_token rule.keywords
    else acknowledge EventAction.none

-- `_decide_from_room_rule`
unfoldable pub decide_from_room_rule :
    TextFunctions → BridgeEvent → RoomRuleResponse → String → EventResponse
unfolding first_rule
decide_from_room_rule f event room_rule lowered =
    if room_rule.enabled
    then elim room_rule.mode [
      | keyword ↦ decide_keyword f event room_rule.rule lowered
      | _ ↦ acknowledge EventAction.none
    ]
    else acknowledge EventAction.none

-- `if event.replyToken`: an empty token counts as none.
abbrev filled : Option String → Bool
filled none = false
filled (some t) = not (t == "")

unfoldable pub decide_event_response :
    TextFunctions → BridgeEvent → Option RoomRuleResponse → EventResponse
unfolding decide_from_room_rule
decide_event_response f event room_rule =
    let lowered = f.lower (f.strip event.text) in
    elim room_rule [
      | some rule ↦ decide_from_room_rule f event rule lowered
      | none ↦
          if f.starts_with lowered "manual:"
          then acknowledge EventAction.none
          else if f.starts_with lowered "queue:"
          then acknowledge queued
          else if filled event.reply_token
          then reply_with event.reply_token (some "확인했습니다.")
          else acknowledge EventAction.none
    ]
