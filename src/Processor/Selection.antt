-- ===== src/Processor/Selection.antt =====
-- app/chatbot/processor.py, the head of process and _enabled_bots, with app/chatbot/options_cache.py: which bots
-- see an event, and in which order. Priorities are natural numbers; the pruning of states that process may ask
-- the writer for changes no answer.
use kakao_x_termux.Prelude.{
  ℕ, ◌≡◌, refl, ◌∙◌, String, any, ◌==◌, eq_iff, ◌<◌, ◌⊎◌, ap, Option-cases, inl, inr, Option, none,
  some, Bool, true, false, not, List, [], ◌∷◌, ◌&&◌, ◌||◌, arith, eqb, ltb, is_empty, length,
  keep_if, map, ◌++◌, if◌then◌else◌,
}
use kakao_x_termux.Prelude.Sorting.{
  text_ltb, text_ltb-asym, sort_by, count-sort_by, IsLinked, sort_by-IsLinked,
}
use kakao_x_termux.Dict.{Dict, lookup, IsUnique}
use kakao_x_termux.Schemas.{BridgeEvent, EventAction, EventResponse}
use kakao_x_termux.Rules.{
  TextFunctions, RoomRuleResponse, keyword, manual, disabled, acknowledge, decide_event_response,
}
use kakao_x_termux.ConfigCache.{OptionRow}
use kakao_x_termux.Processor.{RegisteredBot, ChatState, answer}

-- A row of chatbot_modules, as far as the selection reads it.
pub record ModuleRow : Type 0 where
  pub enabled : Bool
  pub priority : ℕ

pub record BotOptionView : Type 0 where
  pub module_rows : Dict ModuleRow
  pub room_option_rows : Dict OptionRow

-- A bot is enabled unless the row of its module or its row for the room says otherwise.
unfoldable pub is_enabled : BotOptionView → RegisteredBot → Bool
is_enabled view bot =
    elim (lookup bot.key view.module_rows) [ none ↦ true | some row ↦ row.enabled ]
    && elim (lookup bot.key view.room_option_rows) [ none ↦ true | some row ↦ row.enabled ]

unfoldable pub priority : BotOptionView → RegisteredBot → ℕ
priority view bot = elim (lookup bot.key view.module_rows) [
  | none ↦ bot.priority
  | some row ↦ row.priority
]

-- The order of the pairs of a priority and a key.
unfoldable pub before : BotOptionView → RegisteredBot → RegisteredBot → Bool
unfolding priority
before view a b =
    ltb (priority view a) (priority view b)
    || (eqb (priority view a) (priority view b) && text_ltb a.key b.key)

unfoldable pub enabled_bots : BotOptionView → List RegisteredBot → List RegisteredBot
unfolding is_enabled before
enabled_bots view bots = sort_by (before view) (keep_if (is_enabled view) bots)

-- A room rule that keeps the bots silent.
unfoldable pub silences : Option RoomRuleResponse → Bool
silences none = false
silences (some rule) =
    not rule.enabled || elim rule.mode [ keyword ↦ false | manual ↦ true | disabled ↦ true ]

-- `process`, with the setting `chatbot_enabled` and the bots of the registry.
unfoldable pub process :
    TextFunctions
    → Bool
    → ℕ
    → BotOptionView
    → List RegisteredBot
    → BridgeEvent
    → Option RoomRuleResponse
    → ChatState
    → ChatState × EventResponse
unfolding enabled_bots silences answer
process f chatbot_enabled max_reply_chars view bots event room_rule s =
    if not chatbot_enabled || is_empty bots
    then (s, decide_event_response f event room_rule)
    else if silences room_rule
    then (s, acknowledge EventAction.none)
    else answer max_reply_chars event.reply_token (enabled_bots view bots) s

before-asym :
    (view : BotOptionView) (a b : RegisteredBot) → before view a b ≡ true → before view b a ≡ false
unfolding before
before-asym view a b h = ground (arith, h, text_ltb-asym a.key b.key)

count-keep_if :
    (test chosen : RegisteredBot → Bool) (bots : List RegisteredBot)
    → length (keep_if test (keep_if chosen bots))
      ≡ length (keep_if (λ bot. chosen bot && test bot) bots)
count-keep_if test chosen [] = refl
count-keep_if test chosen (bot ∷ bots) = ground (arith, count-keep_if test chosen bots)

-- Some row of the bot is switched off, among rows with each key once.
abbrev pub off {ℓ} : {V : Type ℓ} → (V → Bool) → String → Dict V → Bool
off on key rows = any (λ r. (r.0 == key) && not (on r.1)) rows

module _ {ℓ} {V : Type ℓ} (on : V → Bool) (key : String) where
  off-absent : (rows : Dict V) → lookup key rows ≡ none → off on key rows ≡ false
  unfolding lookup
  off-absent [] h = refl
  off-absent ((k, row) ∷ rows) h = ground (arith, h, off-absent rows)

  off-found :
      (rows : Dict V) (row : V)
      → IsUnique rows
      → lookup key rows ≡ some row
      → off on key rows ≡ not (on row)
  unfolding lookup
  off-found [] row u h = ground (arith, h)
  off-found ((k, first) ∷ rows) row u h =
      ground (arith, eq_iff k key, u.0, h, off-absent rows, off-found rows row u.1)

  off-lookup :
      (rows : Dict V)
      → IsUnique rows
      → elim (lookup key rows) [ none ↦ true | some row ↦ on row ] ≡ not (off on key rows)
  off-lookup rows u = elim (Option-cases (lookup key rows)) [
    | inl a ↦ rw (a, off-absent rows a) refl
    | inr (row, a) ↦ rw (a, off-found rows row u a) (ground arith)
  ]

-- No row of the module or of the room switches the bot off.
abbrev pub is_allowed : BotOptionView → RegisteredBot → Bool
is_allowed view bot =
    not (off (λ row. row.enabled) bot.key view.module_rows)
    && not (off (λ row. row.enabled) bot.key view.room_option_rows)

is_enabled-allowed :
    (view : BotOptionView)
    → IsUnique view.module_rows
    → IsUnique view.room_option_rows
    → (bot : RegisteredBot) → is_enabled view bot ≡ is_allowed view bot
unfolding is_enabled
is_enabled-allowed view u v bot = λ i.
    off-lookup (λ row. row.enabled) bot.key view.module_rows u i
    && off-lookup (λ row. row.enabled) bot.key view.room_option_rows v i

-- The numbers that decide on the place of a bot: those of its rows, and its own behind them.
abbrev pub numbers : BotOptionView → RegisteredBot → List ℕ
numbers view bot =
    map (λ r. r.1.priority) (keep_if (λ r. r.0 == bot.key) view.module_rows) ++ bot.priority ∷ []

abbrev first_number : List ℕ → ℕ
first_number [] = 0
first_number (n ∷ ns) = n

abbrev pub number : BotOptionView → RegisteredBot → ℕ
number view bot = first_number (numbers view bot)

first_row :
    (bot : RegisteredBot) (rows : Dict ModuleRow)
    → elim (lookup bot.key rows) [ none ↦ bot.priority | some row ↦ row.priority ]
      ≡ first_number
          (map (λ r. r.1.priority) (keep_if (λ r. r.0 == bot.key) rows) ++ bot.priority ∷ [])
unfolding lookup
first_row bot [] = refl
first_row bot ((k, row) ∷ rows) = ground (arith, first_row bot rows)

priority_lem : (view : BotOptionView) (bot : RegisteredBot) → priority view bot ≡ number view bot
unfolding priority
priority_lem view bot = first_row bot view.module_rows

-- Each bot has a smaller number than the next one, or the same one and no greater key.
abbrev pub InOrder : BotOptionView → List RegisteredBot → Type 0
InOrder view [] = Unit {0}
InOrder view (a ∷ []) = Unit {0}
InOrder view (a ∷ b ∷ bots) =
    ((number view a < number view b)
      ⊎ ((number view a ≡ number view b) × (text_ltb b.key a.key ≡ false)))
    × InOrder view (b ∷ bots)

IsLinked-InOrder :
    (view : BotOptionView) (bots : List RegisteredBot)
    → IsLinked (before view) bots
    → InOrder view bots
unfolding before
IsLinked-InOrder view [] h = tt
IsLinked-InOrder view (a ∷ []) h = tt
IsLinked-InOrder view (a ∷ b ∷ bots) h = (
  ground (arith, h.0, priority_lem view a, priority_lem view b),
  IsLinked-InOrder view (b ∷ bots) h.1,
)

keep_if-same :
    (p q : RegisteredBot → Bool)
    → ((bot : RegisteredBot) → p bot ≡ q bot)
    → (bots : List RegisteredBot) → keep_if p bots ≡ keep_if q bots
keep_if-same p q same bots = ap (λ test. keep_if test bots) (λ i bot. same bot i)

-- Where each bot has at most one row for its module and one for the room: the bots that see an event are those of
-- the registry that no row switches off, each as often as it is registered (of those that pass any test, there
-- are as many in both lists); and each has a smaller priority number than the next one, or the same number
-- and no greater key, where the number in the row of the module goes before that of the bot itself.
pub enabled_bots_lem :
    (view : BotOptionView) (bots : List RegisteredBot) (test : RegisteredBot → Bool)
    → IsUnique view.module_rows
    → IsUnique view.room_option_rows
    → (length (keep_if test (enabled_bots view bots))
        ≡ length (keep_if (λ bot. is_allowed view bot && test bot) bots))
      × InOrder view (enabled_bots view bots)
unfolding enabled_bots
enabled_bots_lem view bots test u v =
    let chosen = keep_if (is_enabled view) bots in
    (
      count-sort_by (before view) test chosen
          ∙ count-keep_if test (is_enabled view) bots
          ∙ ap length
              (keep_if-same _ _ (λ bot i. is_enabled-allowed view u v bot i && test bot) bots),
      IsLinked-InOrder view _ (sort_by-IsLinked (before view) (before-asym view) chosen),
    )
