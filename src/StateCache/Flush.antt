-- ===== src/StateCache/Flush.antt =====
-- `MemoryStateCache.flush_dirty` and `flush_if_due`: unsaved entries go to the writer's queue, or to the
-- table where no writer is given.
use kakao_x_termux.Prelude.{
  ℕ, ◌+◌, String, Option, none, some, Bool, true, false, List, [], ◌∷◌, ◌&&◌, not, ltb,
  if◌then◌else◌,
}
use kakao_x_termux.Prelude.Texts.{discard}
use kakao_x_termux.Dict.{Dict, lookup}
use kakao_x_termux.Snapshots.{set_bot_state}
use kakao_x_termux.Writer.{state_snapshot, enqueue}
use kakao_x_termux.Schemas.{object}
use kakao_x_termux.StateCache.State.{Settings, MemoryStateEntry, World, snapshot_of}
use kakao_x_termux.StateCache.Evict.{evict_if_needed}

-- One entry, with what saving it says.
unfoldable pub save : Settings → ℕ → MemoryStateEntry → World → World × Bool
save settings now e w = elim w.writer [
  | none ↦
      let (table, saved) =
        set_bot_state settings.state_bytes settings.max_state_bytes e.state_key (snapshot_of e now)
          w.table in
      (record w { table = table }, saved)
  | some q ↦
      let (q', saved) =
        enqueue
          (state_snapshot e.state_key e.bot_key e.room_key e.sender (object e.value) e.expires_at)
          q in
      (record w { writer = some q' }, saved)
]

abbrev pub mark_clean : String → World → World
mark_clean key w = record w { cache = record cache { dirty = discard key cache.dirty } }
  where
    open w use {cache}

-- One round of the loop: a saved entry is no longer unsaved.
unfoldable pub save_one : Settings → ℕ → MemoryStateEntry → World → World × Bool
unfolding save
save_one settings now e w =
    let (w', saved) = save settings now e w in
    (if saved then mark_clean e.state_key w' else w', saved)

-- The loop over the unsaved entries, with the numbers of the saved and of the failed.
unfoldable pub save_all : Settings → ℕ → List MemoryStateEntry → World → World × ℕ × ℕ
unfolding save_one
save_all settings now [] w = (w, 0, 0)
save_all settings now (e ∷ es) w =
    let (w', saved) = save_one settings now e w in
    let (w'', flushed, failed) = save_all settings now es w' in
    (w'', if saved then flushed + 1 else flushed, if saved then failed else failed + 1)

-- `[self._entries[key] for key in keys if key in self._entries]`
abbrev pub cons_present : Option MemoryStateEntry → List MemoryStateEntry → List MemoryStateEntry
cons_present none es = es
cons_present (some e) es = e ∷ es

unfoldable pub entries_of : List String → Dict MemoryStateEntry → List MemoryStateEntry
entries_of [] entries = []
entries_of (key ∷ keys) entries = cons_present (lookup key entries) (entries_of keys entries)

abbrev has_writer {ℓ} : {A : Type ℓ} → Option A → Bool
has_writer none = false
has_writer (some q) = true

abbrev finish_flush : Settings → ℕ → ℕ → ℕ → World → World
finish_flush settings now flushed failed w = record w {
  cache = evict_if_needed settings.max_entries (record cache {
    last_flush_at = now;
    stats = record stats { flushes = stats.flushes + flushed; failed = stats.failed + failed };
  });
}
  where
    open w use {cache}
    open cache use {stats}

-- `idle` is what waiting for the writer comes to, where the caller waits. The call is one step: that other calls
-- of the cache come between the saves, which run outside the lock, is not modelled.
unfoldable pub flush_dirty : Settings → Bool → Bool → ℕ → World → World × ℕ
unfolding save_all entries_of
flush_dirty settings wait idle now w =
    let (w', flushed, failed) = save_all settings now (entries_of w.dirty w.entries) w in
    let late = wait && has_writer w.writer && ltb 0 flushed && not idle in
    (finish_flush settings now flushed (if late then failed + 1 else failed) w', flushed)

unfoldable pub flush_if_due : Settings → ℕ → World → World × ℕ
flush_if_due settings now w =
    if ltb now (w.last_flush_at + settings.flush_interval_ms)
    then (w, 0)
    else flush_dirty settings false true now w
