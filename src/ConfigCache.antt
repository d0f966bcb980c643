-- ===== src/ConfigCache.antt =====
-- app/infra/memory_caches.py, class ConfigCache: the rules and the bot options of the rooms, cached in front of
-- the tables room_rules and room_bot_options, and the two calls that write both, in app/main.py and
-- app/services/config_service.py. JSON texts of rules are kept as data. The rows of the modules and the warmup
-- are not modelled.
pub mod Entries
pub mod Coherence
pub mod Reconcile
use kakao_x_termux.Prelude.{ℕ, ◌+◌, Bool, String, Option, none, some, List, [], ◌∷◌}
use kakao_x_termux.Dict.{Dict, lookup, insert, remove}
use kakao_x_termux.Rules.{RoomRuleResponse}

pub record OptionRow : Type 0 where
  pub room_key : String
  pub bot_key : String
  pub enabled : Bool
  pub options_json : String

-- The tables; the options of a room are a dictionary by bot.
pub record Tables : Type 0 where
  pub room_rules : Dict RoomRuleResponse
  pub room_bot_options : Dict (Dict OptionRow)

pub record ConfigCache : Type 0 where
  pub room_rules : Dict (Option RoomRuleResponse)
  pub room_option_rows : Dict (Dict OptionRow)
  pub reconcile_count : ℕ
  pub last_reconcile_at : Option ℕ
  pub last_reconcile_error : Option String

abbrev pub init : ConfigCache
init = record {
  room_rules = [];
  room_option_rows = [];
  reconcile_count = 0;
  last_reconcile_at = none;
  last_reconcile_error = none;
}

-- `repository.get_room_rule`
unfoldable pub stored_rule : Tables → String → Option RoomRuleResponse
stored_rule t room_key = lookup room_key t.room_rules

-- `repository.list_room_bot_options_by_key`
unfoldable pub list_room_bot_options_by_key : Tables → String → Dict OptionRow
list_room_bot_options_by_key t room_key = elim (lookup room_key t.room_bot_options) [
  | none ↦ []
  | some rows ↦ rows
]

-- `get_room_rule`: the test of the cache, the write after a miss, and the whole call.
unfoldable pub cached_rule : String → ConfigCache → Option (Option RoomRuleResponse)
cached_rule room_key c = lookup room_key c.room_rules

unfoldable pub remember_rule : String → Option RoomRuleResponse → ConfigCache → ConfigCache
remember_rule room_key rule c = record c { room_rules = insert room_key rule c.room_rules }

unfoldable pub get_room_rule : Tables → String → ConfigCache → ConfigCache × Option RoomRuleResponse
unfolding cached_rule remember_rule stored_rule
get_room_rule t room_key c = elim (cached_rule room_key c) [
  | some rule ↦ (c, rule)
  | none ↦ (remember_rule room_key (stored_rule t room_key) c, stored_rule t room_key)
]

unfoldable pub invalidate_room_rule : String → ConfigCache → ConfigCache
invalidate_room_rule room_key c = record c { room_rules = remove room_key c.room_rules }

unfoldable pub set_room_rule : RoomRuleResponse → ConfigCache → ConfigCache
unfolding remember_rule
set_room_rule rule c = remember_rule rule.room_key (some rule) c

unfoldable pub get_room_option_rows_by_key :
    Tables → String → ConfigCache → ConfigCache × Dict OptionRow
unfolding list_room_bot_options_by_key
get_room_option_rows_by_key t room_key c = elim (lookup room_key c.room_option_rows) [
  | some rows ↦ (c, rows)
  | none ↦
      (let rows = list_room_bot_options_by_key t room_key in
        (record c { room_option_rows = insert room_key rows c.room_option_rows }, rows))
]

-- A row of a room that is not cached is left to the next read.
unfoldable pub set_room_option_row : OptionRow → ConfigCache → ConfigCache
set_room_option_row row c = elim (lookup row.room_key c.room_option_rows) [
  | none ↦ c
  | some rows ↦ record c {
    room_option_rows = insert row.room_key (insert row.bot_key row rows) c.room_option_rows;
  }
]

unfoldable pub invalidate_room_option_rows : Option String → ConfigCache → ConfigCache
invalidate_room_option_rows none c = record c { room_option_rows = [] }
invalidate_room_option_rows (some room_key) c = record c {
  room_option_rows = remove room_key c.room_option_rows;
}

-- `reconcile`: what the tables say of the keys of a dictionary, and the loop that writes it into the cache.
unfoldable pub reload {ℓ} : {V : Type ℓ} → (String → V) → Dict V → Dict V
reload read [] = []
reload read ((k, v) ∷ d) = (k, read k) ∷ reload read d

unfoldable pub update_all {ℓ} : {V : Type ℓ} → Dict V → Dict V → Dict V
update_all [] d = d
update_all ((k, v) ∷ u) d = update_all u (insert k v d)

-- The last section of `reconcile`, with the cache whose keys the first section read.
unfoldable pub reconcile_store : Tables → ℕ → ConfigCache → ConfigCache → ConfigCache
unfolding reload update_all stored_rule list_room_bot_options_by_key
reconcile_store t now seen c = record {
  room_rules = update_all (reload (stored_rule t) seen.room_rules) c.room_rules;
  room_option_rows =
      update_all (reload (list_room_bot_options_by_key t) seen.room_option_rows) c.room_option_rows;
  reconcile_count = c.reconcile_count + 1;
  last_reconcile_at = some now;
  last_reconcile_error = none;
}

-- The whole of `reconcile`; the argument is the error of the tables, if they raise, which it raises again.
unfoldable pub reconcile : Tables → Option String → ℕ → ConfigCache → ConfigCache
unfolding reconcile_store
reconcile t none now c = reconcile_store t now c c
reconcile t (some error) now c = record c { last_reconcile_error = some error }

-- `upsert_room_rule`, the statement.
unfoldable pub upsert_room_rule : RoomRuleResponse → Tables → Tables
upsert_room_rule rule t = record t { room_rules = insert rule.room_key rule t.room_rules }

-- `repository.upsert_room_bot_options`, the statement.
unfoldable pub upsert_option_row : OptionRow → Tables → Tables
unfolding list_room_bot_options_by_key
upsert_option_row row t = record t {
  room_bot_options =
      insert row.room_key (insert row.bot_key row (list_room_bot_options_by_key t row.room_key))
        t.room_bot_options;
}

-- The tables with the cache in front of them.
pub record Configuration : Type 0 where
  pub tables : Tables
  pub cache : ConfigCache

-- `room_rules` of app/main.py.
unfoldable pub post_room_rule : RoomRuleResponse → Configuration → Configuration
unfolding upsert_room_rule set_room_rule
post_room_rule rule s = record {
  tables = upsert_room_rule rule s.tables;
  cache = set_room_rule rule s.cache;
}

-- `config_service.upsert_room_bot_options`
unfoldable pub upsert_room_bot_options : OptionRow → Configuration → Configuration
unfolding upsert_option_row set_room_option_row
upsert_room_bot_options row s = record {
  tables = upsert_option_row row s.tables;
  cache = set_room_option_row row s.cache;
}
