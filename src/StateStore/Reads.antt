-- ===== src/StateStore/Reads.antt =====
-- What `BotStateStore` reads after it has written.
use kakao_x_termux.Prelude.{
  ℕ, ◌≡◌, ap, ◌∙◌, String, none, true, false, arith, eq_refl, ◌+◌, inl, inr,
}
use kakao_x_termux.Prelude.Texts.{contains-add, contains-discard}
use kakao_x_termux.Dict.{lookup-insert}
use kakao_x_termux.Schemas.{Fields}
use kakao_x_termux.Snapshots.{expired, fits_size, get_bot_state_snapshot}
use kakao_x_termux.StateCache.State.{Settings, MemoryStateEntry, World, entry}
use kakao_x_termux.StateCache.Access
use kakao_x_termux.StateCache.Access.{recently_deleted}
use kakao_x_termux.StateCache.Coherence.{IsCoherent, write_entry-IsCoherent}
use kakao_x_termux.StateStore.{WriteArgs, meta_of, get, set, get_persisted}
use kakao_x_termux.StateStore.Stored.{InTable, Stored, evict-Stored, flush_if_due-Stored}

-- A write puts the entry into the cache and marks it unsaved.
write_entry-Stored :
    (s : Settings) (e : MemoryStateEntry) (w : World)
    → w.writer ≡ none
    → Stored e.state_key e (Access.write_entry s e w)
unfolding Access.write_entry
write_entry-Stored s e w h =
    let k = e.state_key in
    let entries = lookup-insert k k e w.entries ∙ (rw (eq_refl k)) in
    let dirty = contains-add k k w.dirty ∙ (rw (eq_refl k)) in
    let deleted = contains-discard k k w.deleted ∙ (rw (eq_refl k)) in
    evict-Stored k e s.max_entries _ (record {
      no_writer = h;
      not_deleted = deleted;
      found = inl entries;
      saved = inl (entries, dirty);
    })

set-Stored :
    (s : Settings) (k : String) (value : Fields) (a : WriteArgs) (now : ℕ) (w : World)
    → s.enabled ≡ true
    → fits_size s.max_state_bytes (s.state_bytes value) ≡ true
    → w.writer ≡ none
    → IsCoherent w
    → Stored k (entry k value (meta_of k a now) now) (set s k value a now w)
unfolding set Access.put
set-Stored s k value a now w on fit none_given c =
    let e = entry k value (meta_of k a now) now in
    simp (on, fit)
      (flush_if_due-Stored s now k e (Access.write_entry s e w) (write_entry-IsCoherent s now e w c)
        (write_entry-Stored s e w none_given))

-- What is stored is read, from the cache or from the table.
get_persisted-Stored :
    (s : Settings) (k : String) (e : MemoryStateEntry) (default : Fields) (now : ℕ) (w : World)
    → expired e.expires_at now ≡ false
    → InTable k e w
    → (get_persisted s k default now w).1 ≡ e.value
unfolding get_persisted get_bot_state_snapshot
get_persisted-Stored s k e default now w live (r, h, hv, hx) =
    ground (arith, h, hv, hx, ap (λ x. expired x now) hx)

abbrev missed : World → World
missed w = record w { cache = record cache { stats = record stats { misses = stats.misses + 1 } } }
  where
    open w use {cache}
    open cache use {stats}

get-Stored :
    (s : Settings) (k : String) (e : MemoryStateEntry) (default : Fields) (now : ℕ) (w : World)
    → s.enabled ≡ true
    → expired e.expires_at now ≡ false
    → Stored k e w
    → (get s k default now w).1 ≡ e.value
unfolding get Access.get recently_deleted
get-Stored s k e default now w on live v = elim v.found [
  | inl h ↦ ground arith
  | inr h ↦ elim v.saved [
    | inl (h', d) ↦ ground arith
    | inr t ↦
        ground (arith, h, v.not_deleted, get_persisted-Stored s k e default now (missed w) live t)
  ]
]

-- With the cache enabled and coherent, no writer, and a value that fits: a read returns what was last written
-- to its key, until that expires, also when the write flushed the cache or the entry was evicted at once.
pub get-set :
    (s : Settings) (k : String) (value default : Fields) (a : WriteArgs) (now later : ℕ) (w : World)
    → s.enabled ≡ true
    → fits_size s.max_state_bytes (s.state_bytes value) ≡ true
    → w.writer ≡ none
    → IsCoherent w
    → expired (meta_of k a now).expires_at later ≡ false
    → (get s k default later (set s k value a now w)).1 ≡ value
get-set s k value default a now later w on fit no_writer c live =
    get-Stored s k (entry k value (meta_of k a now) now) default later (set s k value a now w) on
      live (set-Stored s k value a now w on fit no_writer c)
