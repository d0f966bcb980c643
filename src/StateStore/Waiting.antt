-- ===== src/StateStore/Waiting.antt =====
-- No call of the cache loses a change of another key: it waits in the cache, or is in the table.
use kakao_x_termux.Prelude.{
  ℕ, ◌≡◌, ◌⊎◌, refl, ap, ◌∙◌, String, Option, none, some, Bool, true, false, List, [], ◌∷◌, arith,
  ◌==◌, any, if_both, Option-cases, inl, inr,
}
use kakao_x_termux.Prelude.Texts.{contains, add, discard, contains-add, contains-discard}
use kakao_x_termux.Dict.{lookup, insert, lookup-insert, lookup-remove}
use kakao_x_termux.Schemas.{Fields}
use kakao_x_termux.Snapshots.{
  Snapshot, fits_size, expired, get_bot_state_snapshot, delete_bot_state,
}
use kakao_x_termux.StateCache.State.{
  Settings, MemoryStateEntry, World, Meta, entry, delete_persisted, MemoryStateCacheStats,
}
use kakao_x_termux.StateCache.Access
use kakao_x_termux.StateCache.Coherence.{
  IsCoherent, CacheCall, gets, puts, remembers, mutates, deletes, flushes, call, call_all,
  write_entry-IsCoherent, base_of-IsCoherent, call-IsCoherent,
}
use kakao_x_termux.StateStore.Stored.{
  InTable, Stored, evict-Stored, flush_dirty-Stored, flush_if_due-Stored,
}

-- Two worlds that have the same of a key.
record Same (k : String) (w w' : World) : Type 0 where
  writer : w.writer ≡ none → w'.writer ≡ none
  deleted : contains k w'.deleted ≡ contains k w.deleted
  entries : lookup k w'.entries ≡ lookup k w.entries
  dirty : contains k w'.dirty ≡ contains k w.dirty
  table : lookup k w'.table ≡ lookup k w.table

Stored-Same :
    (k : String) (e : MemoryStateEntry) (w w' : World) → Same k w w' → Stored k e w → Stored k e w'
Stored-Same k e w w' h v = record {
  no_writer = h.writer v.no_writer;
  not_deleted = h.deleted ∙ v.not_deleted;
  found = rw h.entries v.found;
  saved = elim v.saved [
    | inl (a, d) ↦ inl (h.entries ∙ a, h.dirty ∙ d)
    | inr (s, a, b, c) ↦ inr (s, h.table ∙ a, b, c)
  ];
}

-- The figures do not matter.
stats-Stored :
    (k : String) (e : MemoryStateEntry) (w : World) (st : MemoryStateCacheStats)
    → Stored k e w
    → Stored k e (record w { cache = record w.cache { stats = st } })
stats-Stored k e w st v = record {
  no_writer = v.no_writer;
  not_deleted = v.not_deleted;
  found = v.found;
  saved = v.saved;
}

module _ (k j : String) (other : (j == k) ≡ false) (now : ℕ) (w : World) where
  drop_expired-Same : w.writer ≡ none → Same k w (Access.drop_expired j w)
  unfolding Access.drop_expired delete_persisted delete_bot_state
  drop_expired-Same none_given = record {
    writer = λ h. ground (arith, h);
    deleted = ground (arith, none_given, contains-add j k w.deleted);
    entries = ground (arith, none_given, lookup-remove j k w.entries);
    dirty = ground (arith, none_given, contains-discard j k w.dirty);
    table = ground (arith, none_given, lookup-remove j k w.table);
  }

  delete-Same : Same k w (Access.delete j w)
  unfolding Access.delete
  delete-Same = record {
    writer = λ h. h;
    deleted = ground (arith, contains-add j k w.deleted);
    entries = ground (arith, lookup-remove j k w.entries);
    dirty = ground (arith, contains-discard j k w.dirty);
    table = refl;
  }

  loaded-Same : (found : Option Snapshot) → Same k w (Access.loaded j w found).0
  loaded-Same none = record {
    writer = λ h. h;
    deleted = refl;
    entries = ground (arith, lookup-remove j k w.entries);
    dirty = ground (arith, contains-discard j k w.dirty);
    table = refl;
  }
  loaded-Same (some x) = record {
    writer = λ h. h;
    deleted = refl;
    entries = lookup-insert j k (Access.entry_of j x) w.entries ∙ (rw other refl);
    dirty = refl;
    table = refl;
  }

  read-Same : Same k w (record w { table = (get_bot_state_snapshot j now w.table).0 })
  unfolding get_bot_state_snapshot
  read-Same = record {
    writer = λ h. h;
    deleted = refl;
    entries = refl;
    dirty = refl;
    table = ground (arith, lookup-remove j k w.table);
  }

  put_entry-Same :
      (e : MemoryStateEntry) (dirty' : List String)
      → contains k dirty' ≡ contains k w.dirty
      → Same k w (record w {
        cache = record w.cache {
          entries = insert j e w.entries;
          dirty = dirty';
          deleted = discard j w.deleted;
        };
      })
  put_entry-Same e dirty' h = record {
    writer = λ n. n;
    deleted = ground (arith, contains-discard j k w.deleted);
    entries = lookup-insert j k e w.entries ∙ (rw other refl);
    dirty = h;
    table = refl;
  }

module _ (s : Settings) (k : String) (e : MemoryStateEntry) (j : String) (other : (j == k) ≡ false)
    (now : ℕ) where
  abbrev First : World × Fields → Type 0
  First r = Stored k e r.0

  abbrev FirstRead : World × Option Fields → Type 0
  FirstRead r = Stored k e r.0

  abbrev FirstFlag : World × Bool → Type 0
  FirstFlag r = Stored k e r.0

  abbrev FirstMutated : World × Fields × Bool → Type 0
  FirstMutated r = Stored k e r.0

  write-Same :
      (x : MemoryStateEntry) (w : World)
      → x.state_key ≡ j
      → Same k w (record w {
        cache = record w.cache {
          entries = insert x.state_key x w.entries;
          dirty = add x.state_key w.dirty;
          deleted = discard x.state_key w.deleted;
        };
      })
  write-Same x w own =
      let apart : (x.state_key == k) ≡ false = ap (λ i. i == k) own ∙ other in
      put_entry-Same k x.state_key apart now w x (add x.state_key w.dirty)
        (ground (arith, contains-add x.state_key k w.dirty, apart))

  drop_expired-Stored : (w : World) → Stored k e w → Stored k e (Access.drop_expired j w)
  drop_expired-Stored w v = Stored-Same k e w _ (drop_expired-Same k j other now w v.no_writer) v

  load-Stored : (w : World) → Stored k e w → Stored k e (Access.load_from_repository j now w).0
  unfolding Access.load_from_repository
  load-Stored w v =
      Stored-Same k e _ _ (loaded-Same k j other now _ (get_bot_state_snapshot j now w.table).1)
        (Stored-Same k e w _ (read-Same k j other now w) v)

  base_of-Stored : (w : World) → Stored k e w → Stored k e (Access.base_of j now w).0
  unfolding Access.base_of
  base_of-Stored w v = elim (Option-cases (lookup j w.entries)) [
    | inl a ↦ rw (a, Access.base_of) (stats-Stored k e _ _ (load-Stored w v))
    | inr (x, a) ↦
        rw (a, Access.base_of)
          (if_both First (expired x.expires_at now) _ _ (drop_expired-Stored w v)
            (stats-Stored k e w _ v))
  ]

  get-Stored : (w : World) → Stored k e w → Stored k e (Access.get s j now w).0
  unfolding Access.get
  get-Stored w v =
      if_both FirstRead s.enabled _ _
        (elim (Option-cases (lookup j w.entries)) [
          | inl a ↦ rw a (stats-Stored k e w _ v)
          | inr (x, a) ↦ rw a (
              if_both FirstRead (expired x.expires_at now) _ _ (drop_expired-Stored w v)
                (stats-Stored k e w _ v))
        ])
        v

  write_entry-Stored :
      (x : MemoryStateEntry) (w : World)
      → x.state_key ≡ j
      → Stored k e w
      → Stored k e (Access.write_entry s x w)
  unfolding Access.write_entry
  write_entry-Stored x w own v =
      evict-Stored k e s.max_entries _
        (stats-Stored k e _ _ (Stored-Same k e w _ (write-Same x w own) v))

  remember-Stored :
      (value : Fields) (m : Meta) (w : World)
      → Stored k e w
      → Stored k e (Access.remember_clean s j value m now w)
  unfolding Access.remember_clean
  remember-Stored value m w v =
      if_both (Stored k e) s.enabled _ _
        (evict-Stored k e s.max_entries _ (
          Stored-Same k e w _ (put_entry-Same k j other now w (entry j value m now) w.dirty refl)
            v))
        v

  put-Stored :
      (value : Fields) (m : Meta) (w : World)
      → IsCoherent w
      → Stored k e w
      → Stored k e (Access.put s j value m now w).0
  unfolding Access.put
  put-Stored value m w c v =
      let x = entry j value m now in
      if_both FirstFlag s.enabled _ _
        (if_both FirstFlag (fits_size s.max_state_bytes (s.state_bytes value)) _ _
          (flush_if_due-Stored s now k e _ (write_entry-IsCoherent s now x w c)
            (write_entry-Stored x w refl v))
          (stats-Stored k e w _ v))
        v

  mutate-Stored :
      (updater : Fields → Fields) (m : Meta) (w : World)
      → IsCoherent w
      → Stored k e w
      → Stored k e (Access.mutate s j updater m now w).0
  unfolding Access.mutate
  mutate-Stored updater m w c v =
      let base = Access.base_of j now w in
      let x = entry j (updater base.1) m now in
      let b = base_of-Stored w v in
      if_both FirstMutated s.enabled _ _
        (if_both FirstMutated (fits_size s.max_state_bytes (s.state_bytes (updater base.1))) _ _
          (flush_if_due-Stored s now k e _
            (write_entry-IsCoherent s now x base.0 (base_of-IsCoherent s now j w c))
            (write_entry-Stored x base.0 refl b))
          (stats-Stored k e base.0 _ b))
        v

-- The call is about the key, to read, to write or to delete it.
abbrev pub is_about : String → CacheCall → Bool
is_about k (gets j) = j == k
is_about k (puts j value m) = j == k
is_about k (remembers j value m) = j == k
is_about k (mutates j updater m) = j == k
is_about k (deletes j) = j == k
is_about k (flushes wait idle) = false

call-Stored :
    (s : Settings) (k : String) (e : MemoryStateEntry) (c : ℕ × CacheCall) (w : World)
    → is_about k c.1 ≡ false
    → IsCoherent w
    → Stored k e w
    → Stored k e (call s c w)
unfolding call
call-Stored s k e (now, gets j) w other h v = get-Stored s k e j other now w v
call-Stored s k e (now, puts j value m) w other h v = put-Stored s k e j other now value m w h v
call-Stored s k e (now, remembers j value m) w other h v =
    remember-Stored s k e j other now value m w v
call-Stored s k e (now, mutates j updater m) w other h v =
    mutate-Stored s k e j other now updater m w h v
call-Stored s k e (now, deletes j) w other h v = Stored-Same k e w _ (delete-Same k j other now w) v
call-Stored s k e (now, flushes wait idle) w other h v =
    flush_dirty-Stored s wait idle now k e w h v

run-Stored :
    (s : Settings) (k : String) (e : MemoryStateEntry) (cs : List (ℕ × CacheCall)) (w : World)
    → any (λ c. is_about k c.1) cs ≡ false
    → IsCoherent w
    → Stored k e w
    → IsCoherent (call_all s cs w) × Stored k e (call_all s cs w)
unfolding call_all
run-Stored s k e [] w others c v = (c, v)
run-Stored s k e (x ∷ xs) w others c v =
    let h : (is_about k x.1 ≡ false) × (any (λ y. is_about k y.1) xs ≡ false) =
      ground (arith, others) in
    run-Stored s k e xs (call s x w) h.1 (call-IsCoherent s x w c) (call-Stored s k e x w h.0 c v)

-- With no writer, from a cache whose entries stand under their own keys and whose unsaved keys have entries: after
-- any calls, both still hold; and a change of a key that waits in the cache, marked unsaved, still waits there
-- with the same entry, or is in the table with its value and expiry, unless a call was about this key.
pub call_all-Stored :
    (s : Settings) (k : String) (e : MemoryStateEntry) (cs : List (ℕ × CacheCall)) (w : World)
    → w.writer ≡ none
    → contains k w.deleted ≡ false
    → lookup k w.entries ≡ some e
    → contains k w.dirty ≡ true
    → any (λ c. is_about k c.1) cs ≡ false
    → IsCoherent w
    → let w' = call_all s cs w in
      IsCoherent w'
      × (((lookup k w'.entries ≡ some e) × (contains k w'.dirty ≡ true)) ⊎ InTable k e w')
call_all-Stored s k e cs w no_writer kept here waits others c =
    let v : Stored k e w = record {
      no_writer = no_writer;
      not_deleted = kept;
      found = inl here;
      saved = inl (here, waits);
    } in
    let h = run-Stored s k e cs w others c v in (h.0, h.1.saved)
