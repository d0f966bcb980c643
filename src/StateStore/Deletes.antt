-- ===== src/StateStore/Deletes.antt =====
-- What `BotStateStore` reads after a delete, while the writer has not yet deleted the row.
use kakao_x_termux.Prelude.{ℕ, ◌≡◌, String, none, some, true, false, arith, eq_refl}
use kakao_x_termux.Prelude.Texts.{contains, contains-add}
use kakao_x_termux.Dict.{lookup, lookup-remove}
use kakao_x_termux.Schemas.{Fields}
use kakao_x_termux.Snapshots.{Snapshot, expired, fits_size, get_bot_state_snapshot}
use kakao_x_termux.StateCache.State.{Settings, World, delete_persisted}
use kakao_x_termux.StateCache.Access
use kakao_x_termux.StateCache.Access.{recently_deleted}
use kakao_x_termux.Writer.{AsyncSqliteWriter}
use kakao_x_termux.StateStore.{WriteArgs, get, mutate, delete}

module _ (k : String) (w : World) where
  deleted_entry : lookup k (delete k w).entries ≡ none
  unfolding delete Access.delete delete_persisted
  deleted_entry = ground (arith, lookup-remove k k w.entries, eq_refl k)

  deleted_mark : contains k (delete k w).deleted ≡ true
  unfolding delete Access.delete delete_persisted
  deleted_mark = ground (arith, contains-add k k w.deleted, eq_refl k)

  -- With a writer the row is still there after the call.
  deleted_table : (q : AsyncSqliteWriter) → w.writer ≡ some q → (delete k w).table ≡ w.table
  unfolding delete Access.delete delete_persisted
  deleted_table q h = ground arith

-- With the cache enabled, a read of a deleted key gives the default, also while its row still waits to be
-- deleted.
pub get-delete :
    (s : Settings) (k : String) (default : Fields) (now : ℕ) (w : World)
    → s.enabled ≡ true
    → (get s k default now (delete k w)).1 ≡ default
unfolding get Access.get recently_deleted
get-delete s k default now w on = ground (arith, deleted_entry k w, deleted_mark k w)

-- With the cache enabled and a writer that has not yet deleted the row, which is not expired: a change of a
-- deleted key whose result fits starts from the deleted value. Unlike a read, it does not ask whether the key
-- was deleted.
pub mutate-delete :
    (s : Settings) (k : String) (updater : Fields → Fields) (a : WriteArgs) (now : ℕ) (w : World)
    (q : AsyncSqliteWriter) (row : Snapshot)
    → s.enabled ≡ true
    → w.writer ≡ some q
    → lookup k w.table ≡ some row
    → expired row.expires_at now ≡ false
    → fits_size s.max_state_bytes (s.state_bytes (updater row.value)) ≡ true
    → (mutate s k updater a now (delete k w)).1 ≡ updater row.value
unfolding mutate Access.mutate Access.base_of Access.load_from_repository get_bot_state_snapshot
mutate-delete s k updater a now w q row on has_writer there live fit =
    ground (arith, deleted_entry k w, deleted_table k w q has_writer)
