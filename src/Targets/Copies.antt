-- ===== src/Targets/Copies.antt =====
-- How often a key stands in a list, and that no step of a query or of a resolution repeats a room.
use kakao_x_termux.Prelude.{
  ℕ, zero, suc, ◌+◌, ◌≤◌, ◌≡◌, refl, ◌∙◌, String, Option, none, some, Bool, true, List, [], ◌∷◌,
  ◌++◌, leb, ◌==◌, if◌then◌else◌, take, keep_if, arith, eq_iff, Bool-cases, Option-cases, inl, inr,
}
use kakao_x_termux.Prelude.Sorting.{insert_by, sort_by}
use kakao_x_termux.Messages.{MessageRow}
use kakao_x_termux.ReplyJobs.{Db}
use kakao_x_termux.Targets.{
  TargetRow, Numbered, number_from, newest_id, is_newest, rows_of, target_row,
  base_latest_target_query,
}

module _ {A : Type 0} (key : A → String) (k : String) where
  unfoldable pub copies : List A → ℕ
  copies [] = 0
  copies (x ∷ xs) = (if key x == k then 1 else 0) + copies xs

  pub copies-append : (xs ys : List A) → copies (xs ++ ys) ≡ copies xs + copies ys
  unfolding copies
  copies-append [] ys = omega arith
  copies-append (x ∷ xs) ys = omega (arith, copies-append xs ys)

  pub copies-take-le : (n : ℕ) (xs : List A) → copies (take n xs) ≤ copies xs
  unfolding copies
  copies-take-le zero xs = omega arith
  copies-take-le (suc n) [] = omega arith
  copies-take-le (suc n) (x ∷ xs) = omega (arith, copies-take-le n xs)

  pub copies-keep_if-le : (p : A → Bool) (xs : List A) → copies (keep_if p xs) ≤ copies xs
  unfolding copies
  copies-keep_if-le p [] = omega arith
  copies-keep_if-le p (x ∷ xs) = ground (arith, copies-keep_if-le p xs)

  module _ (before : A → A → Bool) where
    copies-insert_by :
        (x : A) (ys : List A)
        → copies (insert_by before x ys) ≡ (if key x == k then 1 else 0) + copies ys
    unfolding copies insert_by
    copies-insert_by x [] = refl
    copies-insert_by x (y ∷ ys) = ground (arith, copies-insert_by x ys)

    pub copies-sort_by : (xs : List A) → copies (sort_by before xs) ≡ copies xs
    unfolding copies sort_by
    copies-sort_by [] = refl
    copies-sort_by (x ∷ xs) =
        copies-insert_by x (sort_by before xs) ∙ omega (arith, copies-sort_by xs)

-- Whether the newest message of a room is among those numbered from n on.
abbrev from_on : ℕ → Option (ℕ × ℕ) → ℕ
from_on n none = 0
from_on n (some (id, at)) = if leb n id then 1 else 0

from_on-suc : (n : ℕ) (o : Option (ℕ × ℕ)) → from_on (suc n) o ≤ from_on n o
from_on-suc n none = omega arith
from_on-suc n (some (id, at)) = ground arith

is_newest_lem :
    (n : ℕ) (m : MessageRow) (ms : Numbered)
    → is_newest ms (n, m) ≡ true
    → (from_on n (newest_id m.event.room_key ms) ≡ 1)
      × (from_on (suc n) (newest_id m.event.room_key ms) ≡ 0)
is_newest_lem n m ms h = elim (Option-cases (newest_id m.event.room_key ms)) [
  | inl e ↦ ground (arith, rw (e, is_newest) at h)
  | inr ((id, at), e) ↦ (let g = rw (e, is_newest) at h in rw e (ground (arith, g)))
]

module _ (k : String) (ms : Numbered) (db : Db) where
  rows_of-copies :
      (n : ℕ) (xs : List MessageRow)
      → copies (λ r. r.room_key) k (rows_of ms (number_from n xs) db) ≤ from_on n (newest_id k ms)
  unfolding copies rows_of number_from target_row
  rows_of-copies n [] = omega arith
  rows_of-copies n (m ∷ xs) =
      let rest = rows_of-copies (suc n) xs in
      let less = from_on-suc n (newest_id k ms) in
      elim (Bool-cases (is_newest ms (n, m))) [
        | inr old ↦ rw old (omega (arith, rest, less))
        | inl new ↦ rw new (elim (Bool-cases (m.event.room_key == k)) [
          | inl same ↦
              (let e : m.event.room_key ≡ k = ground (arith, eq_iff m.event.room_key k) in
                let h = rw e at (is_newest_lem n m ms new) in
                rw same (omega (arith, rest, h.0, h.1)))
          | inr other ↦ rw other (omega (arith, rest, less))
        ])
      ]

from_on-le : (n : ℕ) (o : Option (ℕ × ℕ)) → from_on n o ≤ 1
from_on-le n none = omega arith
from_on-le n (some (id, at)) = ground arith

pub query-copies :
    (k : String) (before : TargetRow → TargetRow → Bool) (test : TargetRow → Bool)
    (messages : List MessageRow) (db : Db)
    → copies
        (λ r. r.room_key)
        k
        (sort_by before (keep_if test (base_latest_target_query messages db)))
      ≤ 1
unfolding base_latest_target_query
query-copies k before test messages db =
    let ms = number_from 1 messages in
    let rows = rows_of ms ms db in
    rw (copies-sort_by (λ r. r.room_key) k before (keep_if test rows)) (
      omega (
        arith,
        rows_of-copies k ms db 1 messages,
        copies-keep_if-le (λ r. r.room_key) k test rows,
        from_on-le 1 (newest_id k ms),
      ))
