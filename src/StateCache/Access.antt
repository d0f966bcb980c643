-- ===== src/StateCache/Access.antt =====
-- `MemoryStateCache`: `get`, `put`, `remember_clean`, `mutate`, `delete`.
use kakao_x_termux.Prelude.{ℕ, ◌+◌, String, Option, none, some, Bool, true, false, if◌then◌else◌}
use kakao_x_termux.Prelude.Texts.{contains, add, discard}
use kakao_x_termux.Dict.{lookup, insert, remove}
use kakao_x_termux.Schemas.{Fields, end}
use kakao_x_termux.Snapshots.{Snapshot, expired, fits_size, get_bot_state_snapshot}
use kakao_x_termux.StateCache.State.{
  Settings, MemoryStateEntry, MemoryStateCache, MemoryStateCacheStats, World, Meta, entry,
  delete_persisted,
}
use kakao_x_termux.StateCache.Evict.{evict_if_needed}
use kakao_x_termux.StateCache.Flush.{flush_if_due}

abbrev pub with_cache : World → MemoryStateCache → World
with_cache w c = record w { cache = c }

abbrev miss : MemoryStateCacheStats → MemoryStateCacheStats
miss s = record s { misses = s.misses + 1 }

abbrev hit : MemoryStateCacheStats → MemoryStateCacheStats
hit s = record s { hits = s.hits + 1 }

-- An entry whose time is over leaves the cache and, through the writer, the table.
unfoldable pub drop_expired : String → World → World
unfolding delete_persisted
drop_expired key w = delete_persisted key (
    with_cache w (record cache {
      entries = remove key cache.entries;
      dirty = discard key cache.dirty;
      deleted = add key cache.deleted;
      stats = record stats { evicted = stats.evicted + 1; misses = stats.misses + 1 };
    }))
  where
    open w use {cache}
    open cache use {stats}

unfoldable pub get : Settings → String → ℕ → World → World × Option Fields
unfolding drop_expired
get settings key now w =
    if settings.enabled
    then elim (lookup key w.entries) [
      | none ↦ (with_cache w (record cache { stats = miss cache.stats }), none)
      | some e ↦
          if expired e.expires_at now
          then (drop_expired key w, none)
          else (with_cache w (record cache { stats = hit cache.stats }), some e.value)
    ]
    else (w, none)
  where
    open w use {cache}

-- The part of `put` and of `mutate` that writes an entry.
unfoldable pub write_entry : Settings → MemoryStateEntry → World → World
write_entry settings e w = with_cache w (
    evict_if_needed settings.max_entries (record cache {
      entries = insert e.state_key e cache.entries;
      dirty = add e.state_key cache.dirty;
      deleted = discard e.state_key cache.deleted;
      stats = record stats { writes = stats.writes + 1 };
    }))
  where
    open w use {cache}
    open cache use {stats}

abbrev pub reject : World → World
reject w = with_cache w (record cache { stats = record stats { rejected = stats.rejected + 1 } })
  where
    open w use {cache}
    open cache use {stats}

unfoldable pub put : Settings → String → Fields → Meta → ℕ → World → World × Bool
unfolding write_entry
put settings key value m now w =
    if settings.enabled
    then if fits_size settings.max_state_bytes (settings.state_bytes value)
      then ((flush_if_due settings now (write_entry settings (entry key value m now) w)).0, true)
      else (reject w, false)
    else (w, false)

unfoldable pub remember_clean : Settings → String → Fields → Meta → ℕ → World → World
remember_clean settings key value m now w =
    if settings.enabled
    then with_cache w (
        evict_if_needed settings.max_entries (record cache {
          entries = insert key (entry key value m now) cache.entries;
          deleted = discard key cache.deleted;
        }))
    else w
  where
    open w use {cache}

-- `_load_from_repository`
abbrev pub entry_of : String → Snapshot → MemoryStateEntry
entry_of key s = record {
  state_key = key;
  bot_key = s.bot_key;
  room_key = s.room_key;
  sender = s.sender;
  value = s.value;
  expires_at = s.expires_at;
  updated_at = s.updated_at;
}

abbrev pub loaded : String → World → Option Snapshot → World × Fields
loaded key w none = (
  with_cache w
      (record cache { entries = remove key cache.entries; dirty = discard key cache.dirty }),
  end,
)
  where
    open w use {cache}
loaded key w (some s) =
    (with_cache w (record cache { entries = insert key (entry_of key s) cache.entries }), s.value)
  where
    open w use {cache}

unfoldable pub load_from_repository : String → ℕ → World → World × Fields
load_from_repository key now w =
    let (table, found) = get_bot_state_snapshot key now w.table in
    loaded key (record w { table = table }) found

-- The value that `mutate` starts from, on its three branches.
abbrev count_miss : World × Fields → World × Fields
count_miss (w, base) = (with_cache w (record cache { stats = miss cache.stats }), base)
  where
    open w use {cache}

unfoldable pub base_of : String → ℕ → World → World × Fields
unfolding drop_expired load_from_repository
base_of key now w = elim (lookup key w.entries) [
  | none ↦ count_miss (load_from_repository key now w)
  | some e ↦
      if expired e.expires_at now
      then (drop_expired key w, end)
      else (with_cache w (record cache { stats = hit cache.stats }), e.value)
]
  where
    open w use {cache}

unfoldable pub mutate :
    Settings → String → (Fields → Fields) → Meta → ℕ → World → World × Fields × Bool
unfolding base_of write_entry
mutate settings key updater m now w =
    if settings.enabled
    then (let (w', base) = base_of key now w in
        let updated = updater base in
        if fits_size settings.max_state_bytes (settings.state_bytes updated)
        then (
          (flush_if_due settings now (write_entry settings (entry key updated m now) w')).0,
          updated,
          true,
        )
        else (reject w', base, false))
    else (w, end, false)

unfoldable pub delete : String → World → World
delete key w = with_cache w (record cache {
  entries = remove key cache.entries;
  dirty = discard key cache.dirty;
  deleted = add key cache.deleted;
})
  where
    open w use {cache}

-- `recently_deleted`
unfoldable pub recently_deleted : String → World → Bool
recently_deleted key w = contains key w.deleted
