-- ===== src/Processor/Choice.antt =====
-- Which decision of the bots becomes the answer.
use kakao_x_termux.Prelude.{
  ℕ, String, ◌≡◌, ◌≢◌, refl, Option, none, some, Bool, true, not, List, [], ◌∷◌, ◌&&◌, arith,
  is_some, keep_if, Option-cases, Bool-cases, inl, inr,
}
use kakao_x_termux.Schemas.{reply}
use kakao_x_termux.Processor.{
  ChatDecision, Outcome, unmatched, unhandled, decides, raises, RegisteredBot, ChatState, is_pass,
  process_bot, process_bots, process_all, answer, to_event_response,
}
use kakao_x_termux.Processor.Replies.{Fits, truncate_reply-Fits}

-- None of the bots raises, whether the event is handled already or not.
abbrev pub NoneRaises : List RegisteredBot → Type 0
NoneRaises [] = Unit {0}
NoneRaises (bot ∷ bots) =
    ((handled : Bool) (d : Option ChatDecision) → bot.run handled ≢ raises d) × NoneRaises bots

-- No decision, or one whose text is within the limit.
abbrev pub FitsDecision : ℕ → Option ChatDecision → Type 0
FitsDecision n none = Unit {0}
FitsDecision n (some d) = Fits n d.text

process_bot-Fits :
    (n : ℕ) (token : Option String) (bot : RegisteredBot) (s : ChatState)
    → ((handled : Bool) (d : Option ChatDecision) → bot.run handled ≢ raises d)
    → FitsDecision n (process_bot n token bot s).1
unfolding process_bot
process_bot-Fits n token bot s quiet = outcome (bot.run s.handled) refl
  where
    outcome : (o : Outcome) → bot.run s.handled ≡ o → FitsDecision n (process_bot n token bot s).1
    outcome unmatched e = rw (e, process_bot) tt
    outcome unhandled e = rw (e, process_bot) tt
    outcome (decides d) e =
        rw (e, process_bot)
          (elim (Bool-cases (is_pass d)) [
            | inl p ↦ rw p tt
            | inr p ↦ rw p (elim (Bool-cases (d.terminal && bot.is_terminal)) [
              | inl t ↦ rw t (truncate_reply-Fits n d.text)
              | inr t ↦ rw t tt
            ])
          ])
    outcome (raises d) e = ground (arith, quiet s.handled d e)

process_bots-Fits :
    (n : ℕ) (token : Option String) (bots : List RegisteredBot) (s : ChatState)
    → NoneRaises bots
    → FitsDecision n (process_bots n token bots s).1
unfolding process_bots
process_bots-Fits n token [] s quiet = tt
process_bots-Fits n token (bot ∷ bots) s quiet = elim (Option-cases (process_bot n token bot s).1) [
  | inl e ↦
      rw (e, process_bots, FitsDecision)
        (process_bots-Fits n token bots (process_bot n token bot s).0 quiet.1)
  | inr (d, e) ↦
      rw (e, process_bots, FitsDecision) (rw e at (process_bot-Fits n token bot s quiet.0))
]

keep_if-NoneRaises :
    (test : RegisteredBot → Bool) (bots : List RegisteredBot)
    → NoneRaises bots
    → NoneRaises (keep_if test bots)
keep_if-NoneRaises test [] quiet = tt
keep_if-NoneRaises test (bot ∷ bots) quiet = elim (Bool-cases (test bot)) [
  | inl t ↦ rw t (quiet.0, keep_if-NoneRaises test bots quiet.1)
  | inr t ↦ rw t (keep_if-NoneRaises test bots quiet.1)
]

-- If no bot raises, the text of the decision that answers an event is within the configured number of
-- characters, where a setting below one counts as one.
pub process_all-Fits :
    (n : ℕ) (token : Option String) (bots : List RegisteredBot) (s : ChatState)
    → NoneRaises bots
    → FitsDecision n (process_all n token bots s).1
unfolding process_all
process_all-Fits n token bots s quiet =
    let normal = process_bots n token (keep_if (λ bot. not bot.is_fallback) bots) s in
    let fits =
      process_bots-Fits n token (keep_if (λ bot. not bot.is_fallback) bots) s
        (keep_if-NoneRaises _ bots quiet) in
    elim (Option-cases normal.1) [
      | inl e ↦
          rw (e, process_all, FitsDecision)
            (process_bots-Fits n token (keep_if (λ bot. bot.is_fallback) bots) normal.0
              (keep_if-NoneRaises _ bots quiet))
      | inr (d, e) ↦ rw (e, process_all, FitsDecision) (rw e at fits)
    ]

-- Whatever the bots do, an answer that is a reply has a reply token.
pub answer-token :
    (n : ℕ) (token : Option String) (bots : List RegisteredBot) (s : ChatState)
    → (answer n token bots s).1.action ≡ reply
    → is_some (answer n token bots s).1.reply_token ≡ true
unfolding answer to_event_response
answer-token n token bots s h = ground (arith, h)
