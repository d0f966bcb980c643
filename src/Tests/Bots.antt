-- ===== src/Tests/Bots.antt =====
-- The selection of bots on concrete rows: one bot is disabled in the room, and the module of another puts it first.
use kakao_x_termux.Prelude.{
  String, ◌≡◌, refl, true, false, Bool, List, [], ◌∷◌, ◌&&◌, ◌==◌, length, keep_if, map,
}
use kakao_x_termux.Prelude.Sorting.{sort_by, text_ltb}
use kakao_x_termux.Dict.{lookup}
use kakao_x_termux.Processor.{RegisteredBot, unmatched}
use kakao_x_termux.Processor.Selection.{
  BotOptionView, is_allowed, InOrder, enabled_bots, enabled_bots_lem,
}

abbrev bot : String → RegisteredBot
bot key = record {
  key = key;
  priority = 100;
  is_terminal = true;
  is_fallback = false;
  run = λ handled. unmatched;
}

abbrev view : BotOptionView
view = record {
  module_rows = ("dice", record { enabled = true; priority = 5 }) ∷ [];
  room_option_rows =
      ("quiz", record { room_key = "r"; bot_key = "quiz"; enabled = false; options_json = "{}" })
      ∷ [];
}

abbrev registry : List RegisteredBot
registry = bot "echo" ∷ bot "quiz" ∷ bot "dice" ∷ bot "cards" ∷ []

abbrev named_echo : RegisteredBot → Bool
named_echo b = b.key == "echo"

enabled_bots_lem_example :
    (length (keep_if named_echo (enabled_bots view registry))
      ≡ length (keep_if (λ b. is_allowed view b && named_echo b) registry))
    × InOrder view (enabled_bots view registry)
unfolding lookup
enabled_bots_lem_example = enabled_bots_lem view registry named_echo (refl, tt) (refl, tt)

keys-enabled_bots : map (λ b. b.key) (enabled_bots view registry) ≡ "dice" ∷ "cards" ∷ "echo" ∷ []
unfolding enabled_bots sort_by lookup text_ltb
keys-enabled_bots = refl
