-- ===== src/Prelude/Sorting.antt =====
-- `ORDER BY` and `sorted`: an insertion sort that keeps the order of equal elements.
use Prim.Native.Char.{code}
use Prim.Native.Nat.{suc}
use Prim.Native.String.{String}
use mathlib.Core.Path.{◌≡◌, refl, ◌∙◌}
use mathlib.Core.Bool.{Bool, true, false, ◌&&◌, ◌||◌}
use mathlib.Core.List.{List, [], ◌∷◌}
use native.Mathlib.Omega.{arith}
use kakao_x_termux.Prelude.Tests.{ltb, eqb, if◌then◌else◌}
use kakao_x_termux.Prelude.Lists.{length, any, keep_if}

-- The order of SQLite and of Python on texts: by code points, a text before its extensions.
unfoldable pub text_ltb : String → String → Bool
text_ltb Prim.Native.String.[] Prim.Native.String.[] = false
text_ltb Prim.Native.String.[] (Prim.Native.String.◌∷◌ c t) = true
text_ltb (Prim.Native.String.◌∷◌ c s) Prim.Native.String.[] = false
text_ltb (Prim.Native.String.◌∷◌ c s) (Prim.Native.String.◌∷◌ d t) =
    ltb (code c) (code d) || (eqb (code c) (code d) && text_ltb s t)

module _ {ℓ} {A : Type ℓ} (before : A → A → Bool) where
  -- The new element goes in front of the first one that is not before it.
  unfoldable pub insert_by : A → List A → List A
  insert_by x [] = x ∷ []
  insert_by x (y ∷ ys) = let rest = insert_by x ys in if before y x then y ∷ rest else x ∷ y ∷ ys

  unfoldable pub sort_by : List A → List A
  unfolding insert_by
  sort_by [] = []
  sort_by (x ∷ xs) = insert_by x (sort_by xs)

  length-insert_by : (x : A) (ys : List A) → length (insert_by x ys) ≡ suc (length ys)
  unfolding insert_by
  length-insert_by x [] = refl
  length-insert_by x (y ∷ ys) = ground (arith, length-insert_by x ys)

  pub length-sort_by : (xs : List A) → length (sort_by xs) ≡ length xs
  unfolding sort_by
  length-sort_by [] = refl
  length-sort_by (x ∷ xs) = length-insert_by x (sort_by xs) ∙ omega (arith, length-sort_by xs)

  -- A test that some element passes, before and after.
  any-insert_by :
      (test : A → Bool) (x : A) (ys : List A) → any test (insert_by x ys) ≡ (test x || any test ys)
  unfolding insert_by
  any-insert_by test x [] = refl
  any-insert_by test x (y ∷ ys) = ground (arith, any-insert_by test x ys)

  pub any-sort_by : (test : A → Bool) (xs : List A) → any test (sort_by xs) ≡ any test xs
  unfolding sort_by
  any-sort_by test [] = refl
  any-sort_by test (x ∷ xs) =
      any-insert_by test x (sort_by xs) ∙ ground (arith, any-sort_by test xs)

module _ {ℓ} {A : Type ℓ} (before : A → A → Bool) (test : A → Bool) where
  count-insert_by :
      (x : A) (ys : List A)
      → length (keep_if test (insert_by before x ys)) ≡ length (keep_if test (x ∷ ys))
  unfolding insert_by
  count-insert_by x [] = refl
  count-insert_by x (y ∷ ys) = ground (arith, count-insert_by x ys)

  -- The elements that pass a test, before and after.
  pub count-sort_by :
      (xs : List A) → length (keep_if test (sort_by before xs)) ≡ length (keep_if test xs)
  unfolding sort_by
  count-sort_by [] = refl
  count-sort_by (x ∷ xs) = count-insert_by x (sort_by before xs) ∙ ground (arith, count-sort_by xs)

-- No element stands directly behind one that it is before.
abbrev pub IsLinked {ℓ} : {A : Type ℓ} → (A → A → Bool) → List A → Type 0
IsLinked before [] = Unit
IsLinked before (x ∷ []) = Unit
IsLinked before (x ∷ y ∷ ys) = (before y x ≡ false) × IsLinked before (y ∷ ys)

module _ {ℓ} {A : Type ℓ} (before : A → A → Bool)
    (asym : (x y : A) → before x y ≡ true → before y x ≡ false) where
  IsLinked-insert_by :
      (x : A) (ys : List A) → IsLinked before ys → IsLinked before (insert_by before x ys)
  unfolding insert_by
  IsLinked-insert_by x [] h = tt
  IsLinked-insert_by x (y ∷ []) h = ground (arith, asym y x)
  IsLinked-insert_by x (y ∷ z ∷ zs) h =
      ground (arith, asym y x, IsLinked-insert_by x (z ∷ zs) h.1, h)

  pub sort_by-IsLinked : (xs : List A) → IsLinked before (sort_by before xs)
  unfolding sort_by
  sort_by-IsLinked [] = tt
  sort_by-IsLinked (x ∷ xs) = IsLinked-insert_by x (sort_by before xs) (sort_by-IsLinked xs)

pub text_ltb-asym : (s t : String) → text_ltb s t ≡ true → text_ltb t s ≡ false
unfolding text_ltb
text_ltb-asym Prim.Native.String.[] Prim.Native.String.[] h = refl
text_ltb-asym Prim.Native.String.[] (Prim.Native.String.◌∷◌ d t) h = refl
text_ltb-asym (Prim.Native.String.◌∷◌ c s) Prim.Native.String.[] h = ground (arith, h)
text_ltb-asym (Prim.Native.String.◌∷◌ c s) (Prim.Native.String.◌∷◌ d t) h =
    ground (arith, h, text_ltb-asym s t)
