-- ===== src/Tests/Configurations.antt =====
-- The configuration cache on concrete tables.
use kakao_x_termux.Prelude.{◌≡◌, refl, false, none, some, List, [], ◌∷◌}
use kakao_x_termux.Dict.{lookup}
use kakao_x_termux.ConfigCache.{
  OptionRow, Tables, Configuration, init, stored_rule, list_room_bot_options_by_key, cached_rule,
  remember_rule, get_room_rule, get_room_option_rows_by_key, reconcile, post_room_rule,
}
use kakao_x_termux.ConfigCache.Coherence.{
  Call, reads_rule, reads_options, posts, upserts, reconciles, call_all, call_all-init,
}
use kakao_x_termux.ConfigCache.Reconcile.{stale_rule}
use kakao_x_termux.Tests.Answers.{greeting}

abbrev dice : OptionRow
dice = record { room_key = "r"; bot_key = "dice"; enabled = false; options_json = "{}" }

abbrev tables : Tables
tables = record { room_rules = []; room_bot_options = [] }

abbrev calls : List Call
calls =
    reads_rule "r"
    ∷ reads_options "r"
    ∷ posts greeting
    ∷ upserts dice
    ∷ reconciles (some "locked") 5
    ∷ reads_options "r"
    ∷ []

call_all-init_example :
    let s = call_all calls (record { tables = tables; cache = init }) in
    ((get_room_rule s.tables "r" s.cache).1 ≡ stored_rule s.tables "r")
    × ((get_room_option_rows_by_key s.tables "r" s.cache).1
        ≡ list_room_bot_options_by_key s.tables "r")
call_all-init_example = call_all-init tables calls "r"

abbrev fresh : Configuration
fresh = record { tables = tables; cache = init }

stale_rule_example :
    let k = greeting.room_key in
    let posted = post_room_rule greeting fresh in
    let late = remember_rule k (stored_rule tables k) posted.cache in
    ((get_room_rule posted.tables k late).1 ≡ stored_rule tables k)
    × (stored_rule posted.tables k ≡ some greeting)
    × ((get_room_rule posted.tables k (reconcile posted.tables none 9 late)).1 ≡ some greeting)
unfolding cached_rule lookup
stale_rule_example = stale_rule greeting fresh 9 refl
