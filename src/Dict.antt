-- ===== src/Dict.antt =====
-- Python's `dict` with text keys, in insertion order: a write to a present key keeps its place, and
-- a new key goes to the end. SQLite tables with a text key are read through it too.
use kakao_x_termux.Prelude.{
  ◌+◌, ◌≤◌, length, String, ◌≡◌, refl, Option, none, some, List, [], ◌∷◌, arith, ◌==◌, eq_iff,
  if◌then◌else◌,
}

abbrev pub Dict {ℓ} : Type ℓ → Type ℓ
Dict V = List (String × V)

module _ {ℓ} {V : Type ℓ} where
  -- `d.get(k)`
  unfoldable pub lookup : String → Dict V → Option V
  lookup k [] = none
  lookup k ((j, v) ∷ d) = if j == k then some v else lookup k d

  -- `d[k] = v`
  unfoldable pub insert : String → V → Dict V → Dict V
  insert k v [] = (k, v) ∷ []
  insert k v ((j, w) ∷ d) = if j == k then (k, v) ∷ d else (j, w) ∷ insert k v d

  -- `d.pop(k, None)`
  unfoldable pub remove : String → Dict V → Dict V
  remove k [] = []
  remove k ((j, v) ∷ d) = let rest = remove k d in if j == k then rest else (j, v) ∷ rest

  pub lookup-insert :
      (k j : String) (v : V) (d : Dict V)
      → lookup j (insert k v d) ≡ (if k == j then some v else lookup j d)
  unfolding lookup insert
  lookup-insert k j v [] = refl
  lookup-insert k j v ((i, w) ∷ d) =
      ground (arith, eq_iff k j, eq_iff i k, eq_iff i j, lookup-insert k j v d)

  pub lookup-remove :
      (k j : String) (d : Dict V) → lookup j (remove k d) ≡ (if k == j then none else lookup j d)
  unfolding lookup remove
  lookup-remove k j [] = ground arith
  lookup-remove k j ((i, w) ∷ d) =
      ground (arith, eq_iff k j, eq_iff i k, eq_iff i j, lookup-remove k j d)

  pub lookup-empty : (k : String) → lookup k [] ≡ none
  unfolding lookup
  lookup-empty k = refl

pub ruleset dict_laws = (lookup-empty, lookup-insert, lookup-remove)

-- A dictionary has each key once: no entry is hidden behind another.
abbrev pub IsUnique {ℓ} : {V : Type ℓ} → Dict V → Type ℓ
IsUnique [] = Unit
IsUnique ((k, v) ∷ d) = (lookup k d ≡ none) × IsUnique d

module _ {ℓ} {V : Type ℓ} where
  pub IsUnique-insert : (k : String) (v : V) (d : Dict V) → IsUnique d → IsUnique (insert k v d)
  unfolding insert lookup
  IsUnique-insert k v [] u = (refl, tt)
  IsUnique-insert k v ((i, w) ∷ d) u =
      ground (arith, eq_iff i k, eq_iff k i, lookup-insert k i v d, IsUnique-insert k v d u.1)

  pub IsUnique-remove : (k : String) (d : Dict V) → IsUnique d → IsUnique (remove k d)
  unfolding remove
  IsUnique-remove k [] u = tt
  IsUnique-remove k ((i, w) ∷ d) u = ground (arith, lookup-remove k i d, IsUnique-remove k d u.1)

  pub remove_absent : (k : String) (d : Dict V) → lookup k d ≡ none → remove k d ≡ d
  unfolding lookup remove
  remove_absent k [] h = refl
  remove_absent k ((i, w) ∷ d) h = ground (arith, remove_absent k d)

  pub length-remove-le : (k : String) (d : Dict V) → length (remove k d) ≤ length d
  unfolding remove
  length-remove-le k [] = omega arith
  length-remove-le k ((i, w) ∷ d) = ground (arith, length-remove-le k d)

  pub length-insert-le : (k : String) (v : V) (d : Dict V) → length (insert k v d) ≤ length d + 1
  unfolding insert
  length-insert-le k v [] = omega arith
  length-insert-le k v ((i, w) ∷ d) = ground (arith, length-insert-le k v d)
