-- ===== src/StateStore/Stored.antt =====
-- An entry that `BotStateStore` can read, and what an eviction or a flush makes of it.
use kakao_x_termux.Prelude.{
  ℕ, ◌≡◌, ◌⊎◌, refl, sym, ap, ◌∙◌, String, Option, none, some, Bool, true, false, List, [], ◌∷◌,
  arith, ◌==◌, eq_iff, if_both, ltb, ◌+◌, if◌then◌else◌, Bool-cases, inl, inr,
}
use kakao_x_termux.Prelude.Texts.{contains, discard, contains-discard}
use kakao_x_termux.Dict.{Dict, lookup, insert, lookup-insert}
use kakao_x_termux.Snapshots.{Snapshot, fits_size, set_bot_state}
use kakao_x_termux.StateCache.State.{Settings, MemoryStateEntry, World, snapshot_of}
use kakao_x_termux.StateCache.Evict.{evict_if_needed, evict_only, evict_others, evict_dirty}
use kakao_x_termux.StateCache.Flush.{
  save, save_one, save_all, entries_of, cons_present, flush_dirty, flush_if_due,
}
use kakao_x_termux.StateCache.Coherence.{KeyOk, IsKept, IsCoherent}

-- The table holds the value and the expiry of an entry.
abbrev pub InTable : String → MemoryStateEntry → World → Type 0
InTable k e w =
    (s : Snapshot) × (lookup k w.table ≡ some s)
    × (s.value ≡ e.value)
    × (s.expires_at ≡ e.expires_at)

-- The entry can be read: it is in the cache, or else only in the table; and while it is only in the
-- cache it is marked unsaved.
pub record Stored (k : String) (e : MemoryStateEntry) (w : World) : Type 0 where
  pub no_writer : w.writer ≡ none
  pub not_deleted : contains k w.deleted ≡ false
  pub found : (lookup k w.entries ≡ some e) ⊎ (lookup k w.entries ≡ none)
  pub saved : ((lookup k w.entries ≡ some e) × (contains k w.dirty ≡ true)) ⊎ InTable k e w

pub evict-Stored :
    (k : String) (e : MemoryStateEntry) (n : ℕ) (w : World)
    → Stored k e w
    → Stored k e (record w { cache = evict_if_needed n w.cache })
evict-Stored k e n w v = record {
  no_writer = v.no_writer;
  not_deleted = rw (evict_others n w.cache).1 v.not_deleted;
  found = elim (evict_only k n w.cache) [ inl same ↦ rw same v.found | inr gone ↦ inr gone ];
  saved = elim v.saved [
    | inl (h, d) ↦ inl (evict_dirty n w.cache k d ∙ h, rw (evict_others n w.cache).0 d)
    | inr t ↦ inr t
  ];
}

abbrev pub StoredFirst : String → MemoryStateEntry → World × ℕ → Type 0
StoredFirst k e r = Stored k e r.0

-- What one round of the flush does to a world with no writer.
module _ (s : Settings) (now : ℕ) (x : MemoryStateEntry) (w : World) where
  abbrev fits : Bool
  fits = fits_size s.max_state_bytes (s.state_bytes x.value)

  save_one-entries : (save_one s now x w).0.entries ≡ w.entries
  unfolding save_one save
  save_one-entries = ground arith

  save_one-deleted : (save_one s now x w).0.deleted ≡ w.deleted
  unfolding save_one save
  save_one-deleted = ground arith

  save_one-table :
      w.writer ≡ none
      → ((save_one s now x w).0.writer ≡ none)
        × ((save_one s now x w).0.table
            ≡ (if fits then insert x.state_key (snapshot_of x now) w.table else w.table))
        × ((save_one s now x w).0.dirty ≡ (if fits then discard x.state_key w.dirty else w.dirty))
  unfolding save_one save set_bot_state
  save_one-table h = ground arith

-- Saving an entry of the cache keeps another key as it is, and moves its own to the table.
module _ (s : Settings) (now : ℕ) (k : String) (e x : MemoryStateEntry) (w : World)
    (own : lookup x.state_key w.entries ≡ some x) (v : Stored k e w) where
  saved_other :
      (x.state_key == k) ≡ false
      → ((lookup k w.entries ≡ some e) × (contains k w.dirty ≡ true)) ⊎ InTable k e w
      → let w' = (save_one s now x w).0 in
        ((lookup k w'.entries ≡ some e) × (contains k w'.dirty ≡ true)) ⊎ InTable k e w'
  saved_other ne (inl (h, d)) =
      let t = save_one-table s now x w v.no_writer in
      inl (
        rw (save_one-entries s now x w) h,
        rw t.2 (ground (arith, contains-discard x.state_key k w.dirty)),
      )
  saved_other ne (inr (r, h, hv, hx)) =
      let t = save_one-table s now x w v.no_writer in
      inr (
        r,
        rw t.1 (ground (arith, lookup-insert x.state_key k (snapshot_of x now) w.table)),
        hv,
        hx,
      )

  same_entry :
      (x.state_key == k) ≡ true
      → (lookup k w.entries ≡ some e) ⊎ (lookup k w.entries ≡ none)
      → x ≡ e
  same_entry same (inl h) =
      cc (sym own ∙ ap (λ j. lookup j w.entries) ((eq_iff x.state_key k).0 same) ∙ h)
  same_entry same (inr h) =
      cc (sym own ∙ ap (λ j. lookup j w.entries) ((eq_iff x.state_key k).0 same) ∙ h)

  saved_same :
      (x.state_key == k) ≡ true
      → let w' = (save_one s now x w).0 in
        ((lookup k w'.entries ≡ some e) × (contains k w'.dirty ≡ true)) ⊎ InTable k e w'
  saved_same same =
      let t = save_one-table s now x w v.no_writer in
      let xe = same_entry same v.found in
      elim (Bool-cases (fits s now x w)) [
        | inl fit ↦ inr (
          snapshot_of x now,
          rw (t.1, fit) (ground (arith, lookup-insert x.state_key k (snapshot_of x now) w.table)),
          ap (λ (y : MemoryStateEntry). y.value) xe,
          ap (λ (y : MemoryStateEntry). y.expires_at) xe,
        )
        | inr big ↦ elim v.saved [
          | inl (h, d) ↦ inl (rw (save_one-entries s now x w) h, rw (t.2, big) d)
          | inr (r, h, hv, hx) ↦ inr (r, rw (t.1, big) h, hv, hx)
        ]
      ]

  save_one-Stored : Stored k e (save_one s now x w).0
  save_one-Stored = record {
    no_writer = (save_one-table s now x w v.no_writer).0;
    not_deleted = rw (save_one-deleted s now x w) v.not_deleted;
    found = rw (save_one-entries s now x w) v.found;
    saved = elim (Bool-cases (x.state_key == k)) [
      | inl same ↦ saved_same same
      | inr ne ↦ saved_other ne v.saved
    ];
  }

abbrev Own : List MemoryStateEntry → Dict MemoryStateEntry → Type 0
Own [] entries = Unit {0}
Own (x ∷ xs) entries = (lookup x.state_key entries ≡ some x) × Own xs entries

cons_present-Own :
    (key : String) (o : Option MemoryStateEntry) (xs : List MemoryStateEntry)
    (entries : Dict MemoryStateEntry)
    → lookup key entries ≡ o
    → KeyOk key o
    → Own xs entries
    → Own (cons_present o xs) entries
cons_present-Own key none xs entries e own v = v
cons_present-Own key (some x) xs entries e own v = (ap (λ j. lookup j entries) own ∙ e, v)

entries_of-Own :
    (keys dirty : List String) (entries : Dict MemoryStateEntry)
    → IsKept entries dirty
    → Own (entries_of keys entries) entries
unfolding entries_of
entries_of-Own [] dirty entries v = tt
entries_of-Own (key ∷ keys) dirty entries v =
    cons_present-Own key (lookup key entries) _ entries refl (v.keyed key)
      (entries_of-Own keys dirty entries v)

save_all-Stored :
    (s : Settings) (now : ℕ) (k : String) (e : MemoryStateEntry) (xs : List MemoryStateEntry)
    (w : World)
    → Own xs w.entries
    → Stored k e w
    → Stored k e (save_all s now xs w).0
unfolding save_all
save_all-Stored s now k e [] w own v = v
save_all-Stored s now k e (x ∷ xs) w own v =
    save_all-Stored s now k e xs _ (rw (save_one-entries s now x w) own.1)
      (save_one-Stored s now k e x w own.0 v)

pub flush_dirty-Stored :
    (s : Settings) (wait idle : Bool) (now : ℕ) (k : String) (e : MemoryStateEntry) (w : World)
    → IsCoherent w
    → Stored k e w
    → Stored k e (flush_dirty s wait idle now w).0
unfolding flush_dirty
flush_dirty-Stored s wait idle now k e w c v =
    let u =
      save_all-Stored s now k e (entries_of w.dirty w.entries) w
        (entries_of-Own w.dirty w.dirty w.entries c) v in
    evict-Stored k e s.max_entries _ (record {
      no_writer = u.no_writer;
      not_deleted = u.not_deleted;
      found = u.found;
      saved = u.saved;
    })

pub flush_if_due-Stored :
    (s : Settings) (now : ℕ) (k : String) (e : MemoryStateEntry) (w : World)
    → IsCoherent w
    → Stored k e w
    → Stored k e (flush_if_due s now w).0
unfolding flush_if_due
flush_if_due-Stored s now k e w c v =
    if_both (StoredFirst k e) (ltb now (w.last_flush_at + s.flush_interval_ms)) _ _ v
      (flush_dirty-Stored s false true now k e w c v)
