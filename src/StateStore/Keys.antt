-- ===== src/StateStore/Keys.antt =====
-- app/chatbot/state_store.py: `make_key` and `parse_state_key`. A key has four parts with `|` between
-- them, and `_` stands for no sender.
use Prim.Native.Char.{Char, code}
use Prim.Native.String.{[], ◌∷◌}
use kakao_x_termux.Prelude.{
  String, ◌≡◌, refl, Option, none, some, Bool, false, arith, eqb, if◌then◌else◌, ◌==◌, ◌||◌,
}

-- The text of an f-string is its parts, joined.
unfoldable pub join : String → String → String
join [] t = t
join (c ∷ s) t = c ∷ join s t

abbrev bar : Char → Bool
bar c = eqb (code c) b'|'

unfoldable pub has_bar : String → Bool
has_bar [] = false
has_bar (c ∷ s) = bar c || has_bar s

-- The text before the first `|` and the text behind it.
unfoldable pub split_bar : String → Option (String × String)
split_bar [] = none
split_bar (c ∷ s) =
    let rest = split_bar s in
    if bar c then some ([], s) else elim rest [ none ↦ none | some (a, b) ↦ some (c ∷ a, b) ]

pub record StateKey : Type 0 where
  pub bot_key : String
  pub room_key : String
  pub sender : Option String
  pub scope : String

abbrev unknown : String → StateKey
unknown key = record { bot_key = "unknown"; room_key = "unknown"; sender = none; scope = key }

abbrev sender_of : String → Option String
sender_of s = if s == "_" then none else some s

-- `key.split("|", 3)`: fewer than three bars make no state key.
unfoldable pub parse_state_key : String → StateKey
parse_state_key key = elim (split_bar key) [
  | none ↦ unknown key
  | some (bot_key, rest) ↦ elim (split_bar rest) [
    | none ↦ unknown key
    | some (room_key, rest') ↦ elim (split_bar rest') [
      | none ↦ unknown key
      | some (sender, scope) ↦ record {
        bot_key = bot_key;
        room_key = room_key;
        sender = sender_of sender;
        scope = scope;
      }
    ]
  ]
]

-- `sender or "_"`
abbrev pub clean_sender : Option String → String
clean_sender none = "_"
clean_sender (some s) = if s == "" then "_" else s

unfoldable pub make_key : String → String → Option String → String → String
unfolding join
make_key bot_key room_key sender scope =
    join bot_key (join "|" (join room_key (join "|" (join (clean_sender sender) (join "|" scope)))))

split_bar-join : (s t : String) → has_bar s ≡ false → split_bar (join s (join "|" t)) ≡ some (s, t)
unfolding split_bar join has_bar
split_bar-join [] t h = refl
split_bar-join (c ∷ s) t h = ground (arith, split_bar-join s t)

-- A key that is made of parts parses to the parts, when the bot, the room and the sender hold no `|`;
-- the scope may. No sender, an empty one and the sender `_` all parse to no sender.
pub parse_state_key-make_key :
    (bot_key room_key : String) (sender : Option String) (scope : String)
    → has_bar bot_key ≡ false
    → has_bar room_key ≡ false
    → has_bar (clean_sender sender) ≡ false
    → parse_state_key (make_key bot_key room_key sender scope) ≡ record {
      bot_key = bot_key;
      room_key = room_key;
      sender = sender_of (clean_sender sender);
      scope = scope;
    }
unfolding parse_state_key make_key
parse_state_key-make_key b r s scope hb hr hs = rw (
  split_bar-join b _ hb,
  parse_state_key,
  split_bar-join r _ hr,
  split_bar-join (clean_sender s) scope hs,
)
