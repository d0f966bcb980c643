-- ===== src/Snapshots.antt =====
-- app/repositories/chatbot_states.py: the table `chatbot_states`. The size of a state in its JSON
-- text, which the JSON library decides, is the parameter `state_bytes`; a limit of 0 means none.
-- The JSON text of a state decodes to the state.
pub mod Laws
use kakao_x_termux.Prelude.{
  ℕ, suc, ◌+◌, ◌-◌, String, Option, none, some, Bool, true, false, List, [], ◌∷◌, ◌&&◌, ◌||◌, not,
  leb, ltb, max, if◌then◌else◌, ◌==◌,
}
use kakao_x_termux.Dict.{Dict, lookup, insert, remove}
use kakao_x_termux.Schemas.{Fields, end}

pub record Snapshot : Type 0 where
  pub bot_key : String
  pub room_key : String
  pub sender : Option String
  pub value : Fields
  pub expires_at : Option ℕ
  pub updated_at : ℕ

abbrev pub Table : Type 0
Table = Dict Snapshot

-- `expires_at IS NOT NULL AND expires_at <= now`
abbrev pub expired : Option ℕ → ℕ → Bool
expired none now = false
expired (some at) now = leb at now

-- `get_bot_state_snapshot`: an expired row is deleted as it is read.
unfoldable pub get_bot_state_snapshot : String → ℕ → Table → Table × Option Snapshot
get_bot_state_snapshot key now table = elim (lookup key table) [
  | none ↦ (table, none)
  | some s ↦ if expired s.expires_at now then (remove key table, none) else (table, some s)
]

-- `_fits_size` and the test of `set_bot_state`.
abbrev pub fits_size : ℕ → ℕ → Bool
fits_size max_bytes bytes = not (ltb 0 max_bytes) || leb bytes max_bytes

-- `set_bot_state`
unfoldable pub set_bot_state : (Fields → ℕ) → ℕ → String → Snapshot → Table → Table × Bool
set_bot_state state_bytes max_bytes key s table =
    if fits_size max_bytes (state_bytes s.value) then (insert key s table, true) else (table, false)

abbrev pub live_value : Option Snapshot → ℕ → Fields
live_value none now = end
live_value (some s) now = if expired s.expires_at now then end else s.value

-- `update_bot_state_with_result`: one transaction. The snapshot carries the new metadata; its value is
-- that of the updater.
unfoldable pub update_bot_state_with_result :
    (Fields → ℕ)
    → ℕ
    → String
    → String
    → String
    → Option String
    → (Fields → Fields)
    → Option ℕ
    → ℕ
    → Table
    → Table × Fields × Bool
update_bot_state_with_result state_bytes max_bytes key bot_key room_key sender updater expires_at
      now table =
    let current = live_value (lookup key table) now in
    let updated = updater current in
    let s : Snapshot = record {
      bot_key = bot_key;
      room_key = room_key;
      sender = sender;
      value = updated;
      expires_at = expires_at;
      updated_at = now;
    } in
    if fits_size max_bytes (state_bytes updated)
    then (insert key s table, updated, true)
    else (table, current, false)

-- `delete_bot_state`
unfoldable pub delete_bot_state : String → Table → Table
delete_bot_state key table = remove key table

-- `prune_bot_states`, with the number of rows deleted.
unfoldable pub prune_bot_states : ℕ → Table → Table × ℕ
prune_bot_states now [] = ([], 0)
prune_bot_states now ((key, s) ∷ table) =
    let (rest, n) = prune_bot_states now table in
    if expired s.expires_at now then (rest, suc n) else ((key, s) ∷ rest, n)

-- `prune_bot_states_throttled`: the time of the last prune of each database.
unfoldable pub prune_bot_states_throttled : ℕ → String → ℕ → Dict ℕ → Table → Dict ℕ × Table × ℕ
prune_bot_states_throttled interval db_path now last table =
    let due : Dict ℕ × Table × ℕ =
      let (pruned, n) = prune_bot_states now table in (insert db_path now last, pruned, n) in
    elim (lookup db_path last) [
      | none ↦ due
      | some at ↦ if ltb now (at + interval) then (last, table, 0) else due
    ]
