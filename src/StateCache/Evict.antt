-- ===== src/StateCache/Evict.antt =====
-- app/chatbot/state_store.py: `MemoryStateCache._evict_if_needed_locked`.
use kakao_x_termux.Prelude.{
  ℕ, zero, suc, ◌+◌, ◌≤◌, ◌≡◌, ◌∙◌, ◌⊎◌, inl, inr, refl, String, Option, none, some, Bool, true,
  false, List, [], ◌∷◌, arith, max, length, ltb, eq_iff, eq_refl, if◌then◌else◌, Option-cases,
  Bool-cases,
}
use kakao_x_termux.Prelude.Texts.{contains, discard, contains-discard}
use kakao_x_termux.Dict.{Dict, lookup, remove, lookup-remove, length-remove-le}
use kakao_x_termux.StateCache.State.{MemoryStateEntry, MemoryStateCache}

-- `clean_candidates[0]`
unfoldable pub first_clean : List String → Dict MemoryStateEntry → Option String
first_clean dirty [] = none
first_clean dirty ((key, e) ∷ entries) =
    if contains key dirty then first_clean dirty entries else some key

-- What a run of the loop leaves: the entries, the dirty keys, and how often it went round.
pub record Evicted : Type 0 where
  pub entries : Dict MemoryStateEntry
  pub dirty : List String
  pub count : ℕ

-- The `while` loop, with fuel: each round removes an entry.
unfoldable pub evict_loop : ℕ → ℕ → List String → Dict MemoryStateEntry → Evicted
evict_loop zero limit dirty entries = record { entries = entries; dirty = dirty; count = 0 }
evict_loop (suc fuel) limit dirty entries =
    if ltb limit (length entries)
    then elim (first_clean dirty entries) [
      | none ↦ record { entries = entries; dirty = dirty; count = 0 }
      | some key ↦
          (let rest = evict_loop fuel limit (discard key dirty) (remove key entries) in
            record rest { count = suc rest.count })
    ]
    else record { entries = entries; dirty = dirty; count = 0 }

-- The fuel is the number of entries.
unfoldable pub evict_if_needed : ℕ → MemoryStateCache → MemoryStateCache
evict_if_needed max_entries c =
    let out = evict_loop (length c.entries) (max max_entries 1) c.dirty c.entries in
    record c {
      entries = out.entries;
      dirty = out.dirty;
      stats = record stats { evicted = stats.evicted + out.count };
    }
  where
    open c use {stats}

unfoldable pub all_dirty : List String → Dict MemoryStateEntry → Bool
all_dirty dirty [] = true
all_dirty dirty ((key, e) ∷ entries) = if contains key dirty then all_dirty dirty entries else false

first_clean-none :
    (dirty : List String) (d : Dict MemoryStateEntry)
    → first_clean dirty d ≡ none
    → all_dirty dirty d ≡ true
unfolding first_clean all_dirty
first_clean-none dirty [] h = refl
first_clean-none dirty ((key, e) ∷ d) h = ground (arith, first_clean-none dirty d)

-- The candidate is a key of the dictionary that is not dirty, and removing it makes that shorter.
first_clean-some :
    (dirty : List String) (d : Dict MemoryStateEntry) (key : String)
    → first_clean dirty d ≡ some key
    → (contains key dirty ≡ false) × (suc (length (remove key d)) ≤ length d)
unfolding first_clean remove
first_clean-some dirty [] key h = cc
first_clean-some dirty ((j, e) ∷ d) key h =
    ground (arith, first_clean-some dirty d key, length-remove-le key d, eq_refl key, eq_iff j key)

discard_absent : (k : String) (xs : List String) → contains k xs ≡ false → discard k xs ≡ xs
unfolding discard contains
discard_absent k [] h = refl
discard_absent k (x ∷ xs) h = ground (arith, h, discard_absent k xs)

-- A key that leaves is not dirty, so that the loop changes no mark.
evict_loop_marks :
    (fuel limit : ℕ) (dirty : List String) (d : Dict MemoryStateEntry)
    → (evict_loop fuel limit dirty d).dirty ≡ dirty
unfolding evict_loop
evict_loop_marks zero limit dirty d = refl
evict_loop_marks (suc fuel) limit dirty d = elim (Bool-cases (ltb limit (length d))) [
  | inr fits ↦ rw fits refl
  | inl over ↦ elim (Option-cases (first_clean dirty d)) [
    | inl e ↦ rw (over, e) refl
    | inr (key, e) ↦
        rw (over, e)
          (evict_loop_marks fuel limit (discard key dirty) (remove key d)
            ∙ discard_absent key dirty (first_clean-some dirty d key e).0)
  ]
]

-- The loop ends below the limit, or with no clean entry left.
evict_loop_ends :
    (fuel limit : ℕ) (dirty : List String) (d : Dict MemoryStateEntry)
    → length d ≤ fuel
    → let out = evict_loop fuel limit dirty d in
      (length out.entries ≤ limit) ⊎ (all_dirty out.dirty out.entries ≡ true)
unfolding evict_loop
evict_loop_ends zero limit dirty d h = inl (omega arith)
evict_loop_ends (suc fuel) limit dirty d h = elim (Bool-cases (ltb limit (length d))) [
  | inr fits ↦ rw fits (inl (ground arith))
  | inl over ↦ elim (Option-cases (first_clean dirty d)) [
    | inl e ↦ rw (over, e) (inr (first_clean-none dirty d e))
    | inr (key, e) ↦
        let s = first_clean-some dirty d key e in
        rw (over, e) (evict_loop_ends fuel limit (discard key dirty) (remove key d) (omega arith))
  ]
]

-- A dirty key keeps its entry, and any other keeps it or loses it.
evict_loop_dirty :
    (k : String) (fuel limit : ℕ) (dirty : List String) (d : Dict MemoryStateEntry)
    → contains k dirty ≡ true
    → lookup k (evict_loop fuel limit dirty d).entries ≡ lookup k d
unfolding evict_loop
evict_loop_dirty k zero limit dirty d h = refl
evict_loop_dirty k (suc fuel) limit dirty d h = elim (Option-cases (first_clean dirty d)) [
  | inl e ↦ ground arith
  | inr (key, e) ↦ ground (
    arith,
    first_clean-some dirty d key e,
    evict_loop_dirty k fuel limit (discard key dirty) (remove key d),
    contains-discard key k dirty,
    lookup-remove key k d,
    eq_iff key k,
    h,
  )
]

evict_loop_only :
    (k : String) (fuel limit : ℕ) (dirty : List String) (d : Dict MemoryStateEntry)
    → (lookup k (evict_loop fuel limit dirty d).entries ≡ lookup k d)
      ⊎ (lookup k (evict_loop fuel limit dirty d).entries ≡ none)
unfolding evict_loop
evict_loop_only k zero limit dirty d = inl refl
evict_loop_only k (suc fuel) limit dirty d = elim (Option-cases (first_clean dirty d)) [
  | inl e ↦ inl (ground arith)
  | inr (key, e) ↦ ground (
    arith,
    evict_loop_only k fuel limit (discard key dirty) (remove key d),
    lookup-remove key k d,
  )
]

-- No unsaved entry leaves.
pub evict_dirty :
    (max_entries : ℕ) (c : MemoryStateCache) (k : String)
    → contains k c.dirty ≡ true
    → lookup k (evict_if_needed max_entries c).entries ≡ lookup k c.entries
unfolding evict_if_needed
evict_dirty max_entries c k h =
    evict_loop_dirty k (length c.entries) (max max_entries 1) c.dirty c.entries h

-- After an eviction the cache is within its limit, where a limit below one counts as one, unless every entry
-- that is left is unsaved; and each key has the entry that it had, unless it is not unsaved.
pub evict_if_needed_lem :
    (max_entries : ℕ) (c : MemoryStateCache) (k : String)
    → let c' = evict_if_needed max_entries c in
      ((length c'.entries ≤ max max_entries 1) ⊎ (all_dirty c'.dirty c'.entries ≡ true))
      × ((lookup k c'.entries ≡ lookup k c.entries) ⊎ (contains k c.dirty ≡ false))
unfolding evict_if_needed
evict_if_needed_lem max_entries c k = (
  evict_loop_ends (length c.entries) (max max_entries 1) c.dirty c.entries (omega arith),
  elim (Bool-cases (contains k c.dirty)) [
    | inl h ↦ inl (evict_dirty max_entries c k h)
    | inr h ↦ inr h
  ],
)

pub evict_only :
    (k : String) (max_entries : ℕ) (c : MemoryStateCache)
    → (lookup k (evict_if_needed max_entries c).entries ≡ lookup k c.entries)
      ⊎ (lookup k (evict_if_needed max_entries c).entries ≡ none)
unfolding evict_if_needed
evict_only k max_entries c =
    evict_loop_only k (length c.entries) (max max_entries 1) c.dirty c.entries

pub evict_others :
    (max_entries : ℕ) (c : MemoryStateCache)
    → let c' = evict_if_needed max_entries c in
      (c'.dirty ≡ c.dirty) × (c'.deleted ≡ c.deleted) × (c'.last_flush_at ≡ c.last_flush_at)
unfolding evict_if_needed
evict_others max_entries c =
    (evict_loop_marks (length c.entries) (max max_entries 1) c.dirty c.entries, refl, refl)
