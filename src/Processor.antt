-- ===== src/Processor.antt =====
-- app/chatbot/processor.py and app/chatbot/decision.py: the choice of the bot that answers. What a bot does
-- is an argument: its matchers and its handler are code that is installed. The duration of a handler and the
-- wait of the rate limit change no decision.
pub mod Replies
pub mod Choice
pub mod Selection
use kakao_x_termux.Prelude.{
  ℕ, String, Option, none, some, Bool, true, false, not, List, [], ◌∷◌, ◌++◌, ◌==◌, ◌&&◌, keep_if,
  if◌then◌else◌,
}
use kakao_x_termux.Schemas.{EventAction, reply, queued, EventResponse}
use kakao_x_termux.Rules.{acknowledge, reply_with}
use kakao_x_termux.Dispatch.{first_text}
use kakao_x_termux.Processor.Replies.{truncate_reply}

-- `EventAction | str`, of which "pass" is the one text that the program writes.
pub data DecisionAction : Type 0 where
  event_action : EventAction → DecisionAction
  pass : DecisionAction

pub record ChatDecision : Type 0 where
  pub action : DecisionAction
  pub text : Option String
  pub reply_token : Option String
  pub bot_key : Option String
  pub reason : Option String
  pub terminal : Bool

abbrev pub is_pass : ChatDecision → Bool
is_pass d = elim d.action [ pass ↦ true | event_action a ↦ false ]

abbrev reply_response : ChatDecision → EventResponse
reply_response d = elim d.reply_token [
  | none ↦ record (acknowledge EventAction.none) { error = some "reply token not found" }
  | some t ↦ reply_with (some t) d.text
]

unfoldable pub to_event_response : ChatDecision → EventResponse
to_event_response d = elim d.action [
  | pass ↦ acknowledge EventAction.none
  | event_action a ↦ elim a [
    | reply ↦ reply_response d
    | queued ↦ acknowledge queued
    | EventAction.none ↦ acknowledge EventAction.none
  ]
]

-- What comes of a bot for an event: its patterns do not match, it declines, it decides, or it raises. In the
-- last case there may be a decision of its `on_error`, which did not raise itself.
pub data Outcome : Type 0 where
  unmatched unhandled : Outcome
  decides : ChatDecision → Outcome
  raises : Option ChatDecision → Outcome

-- A registered bot with its declared priority, and its options in the room. `run` is given whether the event is handled already.
pub record RegisteredBot : Type 0 where
  pub key : String
  pub priority : ℕ
  pub is_terminal : Bool
  pub is_fallback : Bool
  pub run : Bool → Outcome

-- The rows of `chatbot_runs` name the bot and what it did.
pub data RunAction : Type 0 where
  passed failed : RunAction
  decided : DecisionAction → RunAction

pub record ChatState : Type 0 where
  pub handled : Bool
  pub runs : List (String × RunAction)

-- `a or b`, where an empty text counts as none.
abbrev or_text : Option String → Option String → Option String
or_text none b = b
or_text (some t) b = if t == "" then b else some t

abbrev named : RegisteredBot → Option String → ChatDecision → ChatDecision
named bot token d = record d {
  bot_key = some (first_text d.bot_key bot.key);
  reply_token = or_text d.reply_token token;
}

abbrev pub completed : ℕ → RegisteredBot → Option String → ChatDecision → ChatDecision
completed max_reply_chars bot token d = record (named bot token d) {
  text = truncate_reply max_reply_chars d.text;
}

abbrev log_run : RegisteredBot → RunAction → ChatState → ChatState
log_run bot action s = record s { runs = s.runs ++ (bot.key, action) ∷ [] }

-- A decision that is not a pass.
abbrev pub answered :
    ℕ → Option String → RegisteredBot → ChatDecision → ChatState → ChatState × Option ChatDecision
answered max_reply_chars token bot d s = (
  log_run bot (decided d.action) (record s { handled = true }),
  if d.terminal && bot.is_terminal then some (completed max_reply_chars bot token d) else none,
)

abbrev pub recovered : Option String → RegisteredBot → Option ChatDecision → Option ChatDecision
recovered token bot none = none
recovered token bot (some d) = if is_pass d then none else some (named bot token d)

-- One round of `_process_bots`.
unfoldable pub process_bot :
    ℕ → Option String → RegisteredBot → ChatState → ChatState × Option ChatDecision
process_bot max_reply_chars token bot s = elim (bot.run s.handled) [
  | unmatched ↦ (s, none)
  | unhandled ↦ (s, none)
  | decides d ↦
      if is_pass d then (log_run bot passed s, none) else answered max_reply_chars token bot d s
  | raises error_decision ↦ (log_run bot failed s, recovered token bot error_decision)
]

unfoldable pub process_bots :
    ℕ → Option String → List RegisteredBot → ChatState → ChatState × Option ChatDecision
unfolding process_bot
process_bots max_reply_chars token [] s = (s, none)
process_bots max_reply_chars token (bot ∷ bots) s =
    let (s', decision) = process_bot max_reply_chars token bot s in
    elim decision [ none ↦ process_bots max_reply_chars token bots s' | some d ↦ (s', some d) ]

-- `self._process_bots(normal_bots, …) or self._process_bots(fallback_bots, …)`
unfoldable pub process_all :
    ℕ → Option String → List RegisteredBot → ChatState → ChatState × Option ChatDecision
unfolding process_bots
process_all max_reply_chars token bots s =
    let (s', decision) =
      process_bots max_reply_chars token (keep_if (λ bot. not bot.is_fallback) bots) s in
    elim decision [
      | some d ↦ (s', some d)
      | none ↦ process_bots max_reply_chars token (keep_if (λ bot. bot.is_fallback) bots) s'
    ]

-- The end of `process`, once the enabled bots are in order.
unfoldable pub answer :
    ℕ → Option String → List RegisteredBot → ChatState → ChatState × EventResponse
unfolding process_all to_event_response
answer max_reply_chars token bots s =
    let (s', decision) = process_all max_reply_chars token bots s in
    (s', elim decision [ none ↦ acknowledge EventAction.none | some d ↦ to_event_response d ])
