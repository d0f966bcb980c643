-- ===== src/Rules/Answers.antt =====
-- When an event is answered by a reply.
use kakao_x_termux.Prelude.{String, ◌≡◌, Option, none, some, true, List, [], ◌∷◌, arith, is_some}
use kakao_x_termux.Schemas.{BridgeEvent, reply, EventResponse}
use kakao_x_termux.Rules.{
  TextFunctions, RoomRuleResponse, KeywordReplyRule, first_rule, decide_from_room_rule,
  decide_event_response,
}

-- A reply goes to the token of the event, which has one.
abbrev pub RepliesTo : BridgeEvent → EventResponse → Type 0
RepliesTo event r = (r.reply_token ≡ event.reply_token) × (is_some event.reply_token ≡ true)

first_rule-token :
    (f : TextFunctions) (lowered : String) (token : Option String) (rules : List KeywordReplyRule)
    → (first_rule f lowered token rules).action ≡ reply
    → (first_rule f lowered token rules).reply_token ≡ token
unfolding first_rule
first_rule-token f lowered token [] h = ground (arith, h)
first_rule-token f lowered token (rule ∷ rules) h =
    ground (arith, first_rule-token f lowered token rules)

decide_from_room_rule-RepliesTo :
    (f : TextFunctions) (event : BridgeEvent) (rule : RoomRuleResponse) (lowered : String)
    → (decide_from_room_rule f event rule lowered).action ≡ reply
    → RepliesTo event (decide_from_room_rule f event rule lowered)
unfolding decide_from_room_rule
decide_from_room_rule-RepliesTo f event rule lowered h =
    ground (arith, first_rule-token f lowered event.reply_token rule.rule.keywords)

-- Whatever the rules of the room are: an answer that is a reply goes to the reply token of the event, and
-- the event has one.
pub decide_event_response-RepliesTo :
    (f : TextFunctions) (event : BridgeEvent) (room_rule : Option RoomRuleResponse)
    → (decide_event_response f event room_rule).action ≡ reply
    → RepliesTo event (decide_event_response f event room_rule)
unfolding decide_event_response
decide_event_response-RepliesTo f event (some rule) h =
    decide_from_room_rule-RepliesTo f event rule _ h
decide_event_response-RepliesTo f event none h = ground arith
