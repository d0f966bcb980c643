-- ===== src/ConfigCache/Entries.antt =====
-- Dictionaries whose entries are what the tables say, and the loops of `ConfigCache.reconcile` on them.
use kakao_x_termux.Prelude.{
  String, ◌≡◌, refl, none, some, [], ◌∷◌, arith, ◌==◌, eq_iff, if◌then◌else◌,
}
use kakao_x_termux.Dict.{Dict, lookup, insert, remove, lookup-insert, lookup-remove, lookup-empty}
use kakao_x_termux.ConfigCache.{reload, update_all}

-- Each entry of a dictionary is what the tables say.
abbrev pub Agrees {ℓ} : {V : Type ℓ} → (String → V) → Dict V → Type ℓ
Agrees {V} read d = (k : String) (v : V) → lookup k d ≡ some v → v ≡ read k

module _ {ℓ} {V : Type ℓ} where
  -- A write to the tables and the same write to the dictionary.
  pub Agrees-insert :
      (read later : String → V) (k : String) (v : V)
      → ((j : String) → later j ≡ (if k == j then v else read j))
      → (d : Dict V) → Agrees read d
      → Agrees later (insert k v d)
  Agrees-insert read later k v same d h j w e =
      ground (arith, same j, lookup-insert k j v d, h j w, e)

  pub Agrees-remove :
      (read : String → V) (k : String) (d : Dict V) → Agrees read d → Agrees read (remove k d)
  Agrees-remove read k d h j w e = ground (arith, lookup-remove k j d, h j w, e)

  -- What a miss reads.
  pub Agrees-remember :
      (read : String → V) (k : String) (d : Dict V)
      → Agrees read d
      → Agrees read (insert k (read k) d)
  Agrees-remember read k d h =
      Agrees-insert read read k (read k) (λ j. grind (arith, eq_iff k j)) d h

  pub Agrees-empty : (read : String → V) → Agrees read []
  Agrees-empty read k v e = ground (arith, lookup-empty {V = V} k, e)

  pub Agrees-update :
      (read : String → V) (u d : Dict V)
      → Agrees read d
      → Agrees read (update_all (reload read u) d)
  unfolding reload update_all
  Agrees-update read [] d h = h
  Agrees-update read ((k, v) ∷ u) d h =
      Agrees-update read u (insert k (read k) d) (Agrees-remember read k d h)

  -- A write to the tables of a key that the dictionary does not have.
  pub Agrees-absent :
      (read later : String → V) (k : String) (v : V)
      → ((j : String) → later j ≡ (if k == j then v else read j))
      → (d : Dict V) → lookup k d ≡ none
      → Agrees read d
      → Agrees later d
  Agrees-absent read later k v same d absent h j w e =
      ground (arith, same j, eq_iff k j, absent, h j w, e)

  lookup-first :
      (j k : String) (w : V) (u : Dict V)
      → lookup k ((j, w) ∷ u) ≡ (if j == k then some w else lookup k u)
  unfolding lookup
  lookup-first j k w u = refl

  -- A reload of some keys is enough where all others agree.
  update_all-Agrees :
      (read : String → V) (u d : Dict V)
      → ((k : String) (v : V) → lookup k u ≡ none → lookup k d ≡ some v → v ≡ read k)
      → Agrees read (update_all (reload read u) d)
  unfolding reload update_all
  update_all-Agrees read [] d h = λ k v e. h k v (lookup-empty k) e
  update_all-Agrees read ((j, w) ∷ u) d h =
      update_all-Agrees read u (insert j (read j) d) (λ k v absent e.
        ground
          (arith, eq_iff j k, lookup-insert j k (read j) d, lookup-first j k w u, h k v, absent, e))

  pub reload-Agrees : (read : String → V) (d : Dict V) → Agrees read (update_all (reload read d) d)
  reload-Agrees read d = update_all-Agrees read d d (λ k v absent e. ground (arith, absent, e))
