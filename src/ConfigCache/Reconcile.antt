-- ===== src/ConfigCache/Reconcile.antt =====
-- A read of the configuration cache that overlaps with a write, and the reconciliation that repairs it.
use kakao_x_termux.Prelude.{ℕ, String, ◌≡◌, ◌∙◌, Option, none, some, arith}
use kakao_x_termux.Prelude.{eq_refl}
use kakao_x_termux.Dict.{lookup-insert}
use kakao_x_termux.Rules.{RoomRuleResponse}
use kakao_x_termux.ConfigCache.{
  Tables, ConfigCache, stored_rule, list_room_bot_options_by_key, cached_rule, remember_rule,
  get_room_rule, get_room_option_rows_by_key, reconcile, reconcile_store, Configuration,
  post_room_rule,
}
use kakao_x_termux.ConfigCache.Entries.{reload-Agrees}
use kakao_x_termux.ConfigCache.Coherence.{
  get_room_rule-Agrees, get_options-Agrees, stored_rule-upsert_room_rule,
}

-- Whatever the cache holds, a reconciliation makes it answer what the tables have.
pub get-reconcile :
    (t : Tables) (c : ConfigCache) (now : ℕ) (k : String)
    → let r = reconcile t none now c in
      ((get_room_rule t k r).1 ≡ stored_rule t k)
      × ((get_room_option_rows_by_key t k r).1 ≡ list_room_bot_options_by_key t k)
unfolding reconcile reconcile_store
get-reconcile t c now k =
    let r = reconcile t none now c in
    (
      get_room_rule-Agrees k t r (reload-Agrees (stored_rule t) c.room_rules),
      get_options-Agrees k t r (reload-Agrees (list_room_bot_options_by_key t) c.room_option_rows),
    )

get-remember_rule :
    (t : Tables) (k : String) (rule : Option RoomRuleResponse) (c : ConfigCache)
    → (get_room_rule t k (remember_rule k rule c)).1 ≡ rule
unfolding get_room_rule cached_rule remember_rule
get-remember_rule t k rule c = ground (arith, lookup-insert k k rule c.room_rules, eq_refl k)

-- A read of a rule that is not cached looks into the table, then a rule is posted for the room, then the read
-- stores what it saw: from then on the cache answers the old rule, although the table has the new one, until
-- a reconciliation, after which it answers the new one.
pub stale_rule :
    (rule : RoomRuleResponse) (s : Configuration) (now : ℕ)
    → cached_rule rule.room_key s.cache ≡ none
    → let k = rule.room_key in
      let old = stored_rule s.tables k in
      let posted = post_room_rule rule s in
      let late = remember_rule k old posted.cache in
      ((get_room_rule posted.tables k late).1 ≡ old)
      × (stored_rule posted.tables k ≡ some rule)
      × ((get_room_rule posted.tables k (reconcile posted.tables none now late)).1 ≡ some rule)
unfolding post_room_rule
stale_rule rule s now miss =
    let k = rule.room_key in
    let posted = post_room_rule rule s in
    let old = stored_rule s.tables k in
    let late = remember_rule k old posted.cache in
    let new : stored_rule posted.tables k ≡ some rule =
      ground (arith, stored_rule-upsert_room_rule rule s.tables k, eq_refl k) in
    (
      get-remember_rule posted.tables k old posted.cache,
      new,
      (get-reconcile posted.tables late now k).0 ∙ new,
    )
