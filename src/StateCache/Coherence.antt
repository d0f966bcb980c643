-- ===== src/StateCache/Coherence.antt =====
-- The invariant of the cache: each entry stands under its own key, and each unsaved key has an entry.
use kakao_x_termux.Prelude.{
  ℕ, ◌≡◌, refl, sym, ap, ◌∙◌, String, Option, none, some, Bool, true, false, List, [], ◌∷◌, arith,
  ◌==◌, eq_iff, is_some, ◌||◌, Bool-cases, inl, inr, if_both,
}
use kakao_x_termux.Prelude.Texts.{contains, add, discard, contains-add, contains-discard}
use kakao_x_termux.Dict.{Dict, lookup, insert, remove, lookup-insert, lookup-remove}
use kakao_x_termux.Schemas.{Fields}
use kakao_x_termux.Snapshots.{Snapshot, fits_size}
use kakao_x_termux.StateCache.State.{
  Settings, MemoryStateEntry, MemoryStateCache, World, Meta, entry,
}
use kakao_x_termux.StateCache.Evict.{evict_if_needed, evict_only, evict_others, evict_dirty}
use kakao_x_termux.StateCache.Flush.{
  save, save_one, save_all, entries_of, flush_dirty, flush_if_due,
}
use kakao_x_termux.StateCache.Access

abbrev pub KeyOk : String → Option MemoryStateEntry → Type 0
KeyOk k none = Unit {0}
KeyOk k (some e) = e.state_key ≡ k

pub record IsKept (entries : Dict MemoryStateEntry) (dirty : List String) : Type 0 where
  pub keyed : (k : String) → KeyOk k (lookup k entries)
  pub unsaved : (k : String) → contains k dirty ≡ true → is_some (lookup k entries) ≡ true

abbrev pub IsCoherent : World → Type 0
IsCoherent w = IsKept w.entries w.dirty

insert-IsKept :
    (key : String) (e : MemoryStateEntry) (entries : Dict MemoryStateEntry)
    (dirty dirty' : List String)
    → e.state_key ≡ key
    → ((k : String) → contains k dirty' ≡ true → ((key == k) || contains k dirty) ≡ true)
    → IsKept entries dirty
    → IsKept (insert key e entries) dirty'
insert-IsKept key e entries dirty dirty' own sub v = record {
  keyed = λ k. rw (lookup-insert key k e entries) (elim (Bool-cases (key == k)) [
    | inl s ↦ rw s (own ∙ (eq_iff key k).0 s)
    | inr s ↦ rw s (v.keyed k)
  ]);
  unsaved = λ k h. ground (arith, lookup-insert key k e entries, sub k h, v.unsaved k);
}

remove-IsKept :
    (key : String) (entries : Dict MemoryStateEntry) (dirty : List String)
    → IsKept entries dirty
    → IsKept (remove key entries) (discard key dirty)
remove-IsKept key entries dirty v = record {
  keyed = λ k.
      rw (lookup-remove key k entries)
        (elim (Bool-cases (key == k)) [ inl s ↦ rw s tt | inr s ↦ rw s (v.keyed k) ]);
  unsaved =
      λ k h. ground (arith, lookup-remove key k entries, contains-discard key k dirty, v.unsaved k);
}

discard-IsKept :
    (key : String) (entries : Dict MemoryStateEntry) (dirty : List String)
    → IsKept entries dirty
    → IsKept entries (discard key dirty)
discard-IsKept key entries dirty v = record {
  keyed = v.keyed;
  unsaved = λ k h. ground (arith, contains-discard key k dirty, v.unsaved k);
}

pub evict-IsKept :
    (n : ℕ) (c : MemoryStateCache)
    → IsKept c.entries c.dirty
    → IsKept (evict_if_needed n c).entries (evict_if_needed n c).dirty
evict-IsKept n c v = record {
  keyed = λ k. elim (evict_only k n c) [ inl e ↦ rw e (v.keyed k) | inr e ↦ rw e tt ];
  unsaved = λ k h.
      let was : contains k c.dirty ≡ true = ap (contains k) (sym (evict_others n c).0) ∙ h in
      ap is_some (evict_dirty n c k was) ∙ v.unsaved k was;
}

abbrev PutCoherent : World × Bool → Type 0
PutCoherent r = IsCoherent r.0

abbrev MutateCoherent : World × Fields × Bool → Type 0
MutateCoherent r = IsCoherent r.0

module _ (s : Settings) (now : ℕ) where
  save_one-IsCoherent :
      (e : MemoryStateEntry) (w : World) → IsCoherent w → IsCoherent (save_one s now e w).0
  unfolding save_one save
  save_one-IsCoherent e w v = ground (arith, discard-IsKept e.state_key w.entries w.dirty v)

  save_all-IsCoherent :
      (es : List MemoryStateEntry) (w : World) → IsCoherent w → IsCoherent (save_all s now es w).0
  unfolding save_all
  save_all-IsCoherent [] w v = v
  save_all-IsCoherent (e ∷ es) w v = save_all-IsCoherent es _ (save_one-IsCoherent e w v)

  pub flush_dirty-IsCoherent :
      (wait idle : Bool) (w : World) → IsCoherent w → IsCoherent (flush_dirty s wait idle now w).0
  unfolding flush_dirty
  flush_dirty-IsCoherent wait idle w v =
      evict-IsKept s.max_entries _ (save_all-IsCoherent (entries_of w.dirty w.entries) w v)

  pub flush_if_due-IsCoherent : (w : World) → IsCoherent w → IsCoherent (flush_if_due s now w).0
  unfolding flush_if_due
  flush_if_due-IsCoherent w v = ground (arith, flush_dirty-IsCoherent false true w v)

  drop_expired-IsCoherent :
      (key : String) (w : World) → IsCoherent w → IsCoherent (Access.drop_expired key w)
  unfolding Access.drop_expired
  drop_expired-IsCoherent key w v = ground (arith, remove-IsKept key w.entries w.dirty v)

  get-IsCoherent : (key : String) (w : World) → IsCoherent w → IsCoherent (Access.get s key now w).0
  unfolding Access.get
  get-IsCoherent key w v = ground (arith, remove-IsKept key w.entries w.dirty v)

  pub write_entry-IsCoherent :
      (e : MemoryStateEntry) (w : World) → IsCoherent w → IsCoherent (Access.write_entry s e w)
  unfolding Access.write_entry
  write_entry-IsCoherent e w v = evict-IsKept s.max_entries _ (
      insert-IsKept e.state_key e w.entries w.dirty (add e.state_key w.dirty) refl
        (λ k h. sym (contains-add e.state_key k w.dirty) ∙ h) v)

  put-IsCoherent :
      (key : String) (value : Fields) (m : Meta) (w : World)
      → IsCoherent w
      → IsCoherent (Access.put s key value m now w).0
  unfolding Access.put
  put-IsCoherent key value m w v =
      if_both PutCoherent s.enabled _ _
        (if_both PutCoherent (fits_size s.max_state_bytes (s.state_bytes value)) _ _
          (flush_if_due-IsCoherent _ (write_entry-IsCoherent (entry key value m now) w v)) v)
        v

  remember_clean-IsCoherent :
      (key : String) (value : Fields) (m : Meta) (w : World)
      → IsCoherent w
      → IsCoherent (Access.remember_clean s key value m now w)
  unfolding Access.remember_clean
  remember_clean-IsCoherent key value m w v =
      if_both IsCoherent s.enabled _ _
        (evict-IsKept s.max_entries _ (
          insert-IsKept key (entry key value m now) w.entries w.dirty w.dirty refl
            (λ k h. ground arith) v))
        v

  loaded-IsCoherent :
      (key : String) (found : Option Snapshot) (w : World)
      → IsCoherent w
      → IsCoherent (Access.loaded key w found).0
  loaded-IsCoherent key none w v = remove-IsKept key w.entries w.dirty v
  loaded-IsCoherent key (some x) w v =
      insert-IsKept key (Access.entry_of key x) w.entries w.dirty w.dirty refl (λ k h. ground arith)
        v

  load-IsCoherent :
      (key : String) (w : World)
      → IsCoherent w
      → IsCoherent (Access.load_from_repository key now w).0
  unfolding Access.load_from_repository
  load-IsCoherent key w v = loaded-IsCoherent key _ _ v

  pub base_of-IsCoherent :
      (key : String) (w : World) → IsCoherent w → IsCoherent (Access.base_of key now w).0
  unfolding Access.base_of
  base_of-IsCoherent key w v =
      ground (arith, load-IsCoherent key w v, drop_expired-IsCoherent key w v)

  mutate-IsCoherent :
      (key : String) (updater : Fields → Fields) (m : Meta) (w : World)
      → IsCoherent w
      → IsCoherent (Access.mutate s key updater m now w).0
  unfolding Access.mutate
  mutate-IsCoherent key updater m w v =
      let base = Access.base_of key now w in
      let b = base_of-IsCoherent key w v in
      if_both MutateCoherent s.enabled _ _
        (if_both MutateCoherent (fits_size s.max_state_bytes (s.state_bytes (updater base.1))) _ _
          (flush_if_due-IsCoherent _
            (write_entry-IsCoherent (entry key (updater base.1) m now) base.0 b))
          b)
        v

  delete-IsCoherent : (key : String) (w : World) → IsCoherent w → IsCoherent (Access.delete key w)
  unfolding Access.delete
  delete-IsCoherent key w v = remove-IsKept key w.entries w.dirty v

-- A call of the cache, with the time at which it runs.
pub data CacheCall : Type 0 where
  gets : String → CacheCall
  puts : String → Fields → Meta → CacheCall
  remembers : String → Fields → Meta → CacheCall
  mutates : String → (Fields → Fields) → Meta → CacheCall
  deletes : String → CacheCall
  flushes : Bool → Bool → CacheCall

unfoldable pub call : Settings → ℕ × CacheCall → World → World
call s (now, gets key) w = (Access.get s key now w).0
call s (now, puts key value m) w = (Access.put s key value m now w).0
call s (now, remembers key value m) w = Access.remember_clean s key value m now w
call s (now, mutates key updater m) w = (Access.mutate s key updater m now w).0
call s (now, deletes key) w = Access.delete key w
call s (now, flushes wait idle) w = (flush_dirty s wait idle now w).0

unfoldable pub call_all : Settings → List (ℕ × CacheCall) → World → World
call_all s [] w = w
call_all s (c ∷ cs) w = call_all s cs (call s c w)

pub call-IsCoherent :
    (s : Settings) (c : ℕ × CacheCall) (w : World) → IsCoherent w → IsCoherent (call s c w)
unfolding call
call-IsCoherent s (now, gets key) w v = get-IsCoherent s now key w v
call-IsCoherent s (now, puts key value m) w v = put-IsCoherent s now key value m w v
call-IsCoherent s (now, remembers key value m) w v = remember_clean-IsCoherent s now key value m w v
call-IsCoherent s (now, mutates key updater m) w v = mutate-IsCoherent s now key updater m w v
call-IsCoherent s (now, deletes key) w v = delete-IsCoherent s now key w v
call-IsCoherent s (now, flushes wait idle) w v = flush_dirty-IsCoherent s now wait idle w v
