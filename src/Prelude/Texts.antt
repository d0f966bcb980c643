-- ===== src/Prelude/Texts.antt =====
-- Sets of texts: Python's `set[str]` as the list of its members, where only membership is read.
use Prim.Native.Nat.{◌+◌}
use Prim.Native.String.{String}
use mathlib.Core.Path.{◌≡◌, refl}
use mathlib.Core.Bool.{Bool, false, ◌||◌, not, ◌&&◌}
use mathlib.Core.List.{List, [], ◌∷◌, ◌++◌}
use native.Mathlib.Omega.{arith}
use text.Mathlib.Text.{◌==◌}
use text.Mathlib.TextEquality.{eq_iff}
use kakao_x_termux.Prelude.Tests.{if◌then◌else◌}
use kakao_x_termux.Prelude.Lists.{length, length-append}

unfoldable pub contains : String → List String → Bool
contains k [] = false
contains k (x ∷ xs) = (x == k) || contains k xs

-- `s.add(k)`
unfoldable pub add : String → List String → List String
unfolding contains
add k xs = if contains k xs then xs else xs ++ k ∷ []

-- `s.discard(k)`
unfoldable pub discard : String → List String → List String
discard k [] = []
discard k (x ∷ xs) = let rest = discard k xs in if x == k then rest else x ∷ rest

pub contains-append :
    (k : String) (xs ys : List String) → contains k (xs ++ ys) ≡ (contains k xs || contains k ys)
unfolding contains
contains-append k [] ys = refl
contains-append k (x ∷ xs) ys = ground (arith, contains-append k xs ys)

pub contains-add :
    (k j : String) (xs : List String) → contains j (add k xs) ≡ ((k == j) || contains j xs)
unfolding add
contains-add k j xs = ground (arith, contains-append j xs (k ∷ []), eq_iff k j)

pub contains-append_one :
    (k j : String) (xs : List String) → contains j (xs ++ k ∷ []) ≡ ((k == j) || contains j xs)
unfolding contains
contains-append_one k j [] = ground arith
contains-append_one k j (x ∷ xs) = ground (arith, contains-append_one k j xs)

pub contains-discard :
    (k j : String) (xs : List String) → contains j (discard k xs) ≡ (not (k == j) && contains j xs)
unfolding contains discard
contains-discard k j [] = ground arith
contains-discard k j (x ∷ xs) =
    ground (arith, contains-discard k j xs, eq_iff x k, eq_iff x j, eq_iff k j)

-- No text stands twice.
abbrev pub Distinct : List String → Type 0
Distinct [] = Unit {0}
Distinct (x ∷ xs) = (contains x xs ≡ false) × Distinct xs

pub Distinct-append :
    (k : String) (xs : List String) → contains k xs ≡ false → Distinct xs → Distinct (xs ++ k ∷ [])
unfolding contains
Distinct-append k [] h d = (refl, tt)
Distinct-append k (x ∷ xs) h d = (
  ground (arith, contains-append x xs (k ∷ []), eq_iff k x, eq_iff x k),
  Distinct-append k xs (ground arith) d.1,
)

pub Distinct-add : (k : String) (xs : List String) → Distinct xs → Distinct (add k xs)
unfolding add
Distinct-add k xs d = ground (arith, Distinct-append k xs)

pub Distinct-discard : (k : String) (xs : List String) → Distinct xs → Distinct (discard k xs)
unfolding discard
Distinct-discard k [] d = tt
Distinct-discard k (x ∷ xs) d = ground (arith, contains-discard k x xs, Distinct-discard k xs d.1)

pub length-discard :
    (k : String) (xs : List String)
    → Distinct xs
    → length (discard k xs) + (if contains k xs then 1 else 0) ≡ length xs
unfolding contains discard
length-discard k [] d = refl
length-discard k (x ∷ xs) d = ground (arith, length-discard k xs d.1, eq_iff x k)

pub length-add :
    (k : String) (xs : List String)
    → length (add k xs) ≡ length xs + (if contains k xs then 0 else 1)
unfolding add
length-add k xs = ground (arith, length-append xs (k ∷ []))
