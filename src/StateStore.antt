-- ===== src/StateStore.antt =====
-- app/chatbot/state_store.py, class BotStateStore: what the bots read and write, over the cache and the
-- table.
pub mod Keys
pub mod Stored
pub mod Waiting
pub mod Reads
pub mod Deletes
use kakao_x_termux.Prelude.{
  ℕ, ◌+◌, String, Option, none, some, Bool, true, false, List, [], ◌∷◌, ◌&&◌, not, is_some,
  if◌then◌else◌, ◌==◌,
}
use kakao_x_termux.Schemas.{Fields, end, field, Json}
use kakao_x_termux.Snapshots.{
  Snapshot, get_bot_state_snapshot, set_bot_state, update_bot_state_with_result, prune_bot_states,
}
use kakao_x_termux.Writer.{state_prune, enqueue}
use kakao_x_termux.StateCache.State.{Settings, World, Meta, entry, snapshot_of, delete_persisted}
use kakao_x_termux.StateCache.Access
use kakao_x_termux.StateCache.Access.{recently_deleted, remember_clean}
use kakao_x_termux.StateStore.Keys.{StateKey, parse_state_key}

-- Python's `a or b` on texts, where the empty text counts as none.
abbrev pub text_or : Option String → String → String
text_or none d = d
text_or (some s) d = if s == "" then d else s

-- The optional arguments of a write.
pub record WriteArgs : Type 0 where
  pub ttl_millis : Option ℕ
  pub bot_key : Option String
  pub room_key : Option String
  pub sender : Option String

abbrev expiry : Option ℕ → ℕ → Option ℕ
expiry none now = none
expiry (some ttl) now = some (now + ttl)

abbrev sender_or : Option String → Option String → Option String
sender_or none d = d
sender_or (some s) d = some s

abbrev pub meta_of : String → WriteArgs → ℕ → Meta
meta_of key a now = record {
  bot_key = text_or a.bot_key parsed.bot_key;
  room_key = text_or a.room_key parsed.room_key;
  sender = sender_or a.sender parsed.sender;
  expires_at = expiry a.ttl_millis now;
}
  where
    parsed : StateKey
    parsed = parse_state_key key

abbrev pub meta_of_snapshot : Snapshot → Meta
meta_of_snapshot s = record {
  bot_key = s.bot_key;
  room_key = s.room_key;
  sender = s.sender;
  expires_at = s.expires_at;
}

-- The part of `get` behind a miss of the cache.
unfoldable pub get_persisted : Settings → String → Fields → ℕ → World → World × Fields
get_persisted settings key default now w =
    let (table, found) = get_bot_state_snapshot key now w.table in
    let w' : World = record w { table = table } in
    elim found [
      | none ↦ (w', default)
      | some s ↦ (remember_clean settings key s.value (meta_of_snapshot s) now w', s.value)
    ]

unfoldable pub get : Settings → String → Fields → ℕ → World → World × Fields
unfolding get_persisted
get settings key default now w =
    let (w', value) = Access.get settings key now w in
    elim value [
      | some v ↦ (w', v)
      | none ↦
          if recently_deleted key w'
          then (w', default)
          else get_persisted settings key default now w'
    ]

unfoldable pub set : Settings → String → Fields → WriteArgs → ℕ → World → World
set settings key value a now w =
    let m = meta_of key a now in
    let (w', saved) = Access.put settings key value m now w in
    if not saved && not settings.enabled
    then record w' {
      table =
          (set_bot_state settings.state_bytes settings.max_state_bytes key
            (snapshot_of (entry key value m now) now) w'.table).0;
    }
    else w'

-- `repository.update_bot_state_with_result`, on the world's table.
abbrev update_table :
    Settings → String → (Fields → Fields) → Meta → ℕ → World → World × Fields × Bool
update_table settings key updater m now w =
    let (table, value, saved) =
      update_bot_state_with_result settings.state_bytes settings.max_state_bytes key m.bot_key
        m.room_key m.sender updater m.expires_at now w.table in
    (record w { table = table }, value, saved)

unfoldable pub mutate :
    Settings → String → (Fields → Fields) → WriteArgs → ℕ → World → World × Fields
mutate settings key updater a now w =
    let m = meta_of key a now in
    let (w', updated, saved) = Access.mutate settings key updater m now w in
    if saved
    then (w', updated)
    else (let (w'', value, _) = update_table settings key updater m now w' in (w'', value))

unfoldable pub mutate_result :
    Settings → String → (Fields → Fields) → WriteArgs → ℕ → World → World × Fields × Bool
mutate_result settings key updater a now w =
    let m = meta_of key a now in
    let (w', value, saved) = Access.mutate settings key updater m now w in
    if not saved && not settings.enabled
    then update_table settings key updater m now w'
    else (w', value, saved)

-- `value.update(patch)`
abbrev set_field : String → Json → Fields → Fields
set_field k v end = field k v end
set_field k v (field j x fs) = if j == k then field k v fs else field j x (set_field k v fs)

unfoldable pub update_fields : Fields → Fields → Fields
update_fields value end = value
update_fields value (field k v patch) = update_fields (set_field k v value) patch

unfoldable pub update : Settings → String → Fields → WriteArgs → ℕ → World → World × Fields
update settings key patch = mutate settings key (λ value. update_fields value patch)

unfoldable pub delete : String → World → World
delete key w = delete_persisted key (Access.delete key w)

unfoldable pub prune_expired : ℕ → World → World × ℕ
prune_expired now w = elim w.writer [
  | none ↦ let (table, n) = prune_bot_states now w.table in (record w { table = table }, n)
  | some q ↦ (record w { writer = some (enqueue (state_prune (some now)) q).0 }, 0)
]
