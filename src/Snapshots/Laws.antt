-- ===== src/Snapshots/Laws.antt =====
-- Readers of the table of states.
use kakao_x_termux.Prelude.{
  ℕ, ◌≡◌, refl, String, Option, none, some, false, [], ◌∷◌, arith, eq_refl, eq_iff, if◌then◌else◌,
  Bool-cases, inl, inr,
}
use kakao_x_termux.Dict.{lookup, lookup-insert, IsUnique}
use kakao_x_termux.Schemas.{Fields}
use kakao_x_termux.Snapshots.{
  Snapshot, Table, expired, get_bot_state_snapshot, prune_bot_states, fits_size,
  update_bot_state_with_result, live_value,
}

abbrev live : Option Snapshot → ℕ → Option Snapshot
live none now = none
live (some s) now = if expired s.expires_at now then none else some s

snapshot_live :
    (key : String) (now : ℕ) (t : Table)
    → (get_bot_state_snapshot key now t).1 ≡ live (lookup key t) now
unfolding get_bot_state_snapshot
snapshot_live key now t = ground arith

prune_absent :
    (key : String) (now : ℕ) (t : Table)
    → lookup key t ≡ none
    → lookup key (prune_bot_states now t).0 ≡ none
unfolding prune_bot_states lookup
prune_absent key now [] h = refl
prune_absent key now ((j, s) ∷ t) h = ground (arith, prune_absent key now t, eq_iff j key)

prune_live :
    (key : String) (now : ℕ) (t : Table)
    → IsUnique t
    → live (lookup key (prune_bot_states now t).0) now ≡ live (lookup key t) now
unfolding prune_bot_states lookup
prune_live key now [] u = refl
prune_live key now ((j, s) ∷ t) u =
    ground (arith, prune_live key now t u.1, prune_absent j now t u.0, eq_iff j key)

-- In a table with each key once, no reader at the time of a pruning can tell that it ran.
pub prune_bot_states_lem :
    (now : ℕ) (t : Table)
    → IsUnique t
    → (key : String)
    → (get_bot_state_snapshot key now (prune_bot_states now t).0).1
      ≡ (get_bot_state_snapshot key now t).1
prune_bot_states_lem now t u key = ground (
  arith,
  snapshot_live key now t,
  snapshot_live key now (prune_bot_states now t).0,
  prune_live key now t u,
)

-- A change in one transaction, with an expiry that is not over: it is accepted exactly when the updater's
-- result on the live value (the empty state where there is none) fits. The call then returns that result,
-- else the live value, and what it returns is what the table holds.
pub update_bot_state_lem :
    (state_bytes : Fields → ℕ) (limit : ℕ) (key bot_key room_key : String) (sender : Option String)
    (updater : Fields → Fields) (expires_at : Option ℕ) (now : ℕ) (t : Table)
    → expired expires_at now ≡ false
    → let current = live_value (lookup key t) now in
      let r =
        update_bot_state_with_result state_bytes limit key bot_key room_key sender updater
          expires_at now t in
      (r.2 ≡ fits_size limit (state_bytes (updater current)))
      × (r.1 ≡ (if r.2 then updater current else current))
      × (live_value (lookup key r.0) now ≡ r.1)
unfolding update_bot_state_with_result
update_bot_state_lem state_bytes limit key bot_key room_key sender updater expires_at now t live =
    let current = live_value (lookup key t) now in
    let s : Snapshot = record {
      bot_key = bot_key;
      room_key = room_key;
      sender = sender;
      value = updater current;
      expires_at = expires_at;
      updated_at = now;
    } in
    let stored = lookup-insert key key s t in
    elim (Bool-cases (fits_size limit (state_bytes (updater current)))) [
      | inl fit ↦ rw fit (refl, refl, rw (stored, eq_refl key, live) refl)
      | inr big ↦ rw big (refl, refl, refl)
    ]
