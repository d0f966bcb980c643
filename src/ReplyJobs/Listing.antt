-- ===== src/ReplyJobs/Listing.antt =====
-- The recovery listing and the queue's metrics.
use kakao_x_termux.Prelude.{
  ℕ, zero, suc, ◌≤◌, String, ◌≡◌, Bool, true, List, [], ◌∷◌, arith, leb, take, keep_if, max, min,
  length, length-take, refl, Bool-cases, inl, inr,
}
use kakao_x_termux.ReplyJobs.{ReplyJob, Db}
use kakao_x_termux.ReplyJobs.Recoverable.{
  recoverable, insert_row, sort_rows, list_recoverable_reply_jobs,
}

abbrev Row : Type 0
Row = String × ReplyJob

abbrev pub AllRows : (Row → Type 0) → List Row → Type 0
AllRows P [] = Unit {0}
AllRows P (r ∷ rows) = P r × AllRows P rows

abbrev pub OldestFirst : List Row → Type 0
OldestFirst [] = Unit {0}
OldestFirst (r ∷ rows) = AllRows (λ q. r.1.created_at ≤ q.1.created_at) rows × OldestFirst rows

module _ (P : Row → Type 0) where
  AllRows-insert_row :
      (r : Row) (rows : List Row) → P r → AllRows P rows → AllRows P (insert_row r rows)
  unfolding insert_row
  AllRows-insert_row r [] p h = (p, tt)
  AllRows-insert_row r (q ∷ rows) p h = elim (Bool-cases (leb r.1.created_at q.1.created_at)) [
    | inl e ↦ rw e (p, h)
    | inr e ↦ rw e (h.0, AllRows-insert_row r rows p h.1)
  ]

  AllRows-sort_rows : (rows : List Row) → AllRows P rows → AllRows P (sort_rows rows)
  unfolding sort_rows
  AllRows-sort_rows [] h = tt
  AllRows-sort_rows (r ∷ rows) h =
      AllRows-insert_row r (sort_rows rows) h.0 (AllRows-sort_rows rows h.1)

  AllRows-take : (n : ℕ) (rows : List Row) → AllRows P rows → AllRows P (take n rows)
  AllRows-take zero rows h = tt
  AllRows-take (suc n) [] h = tt
  AllRows-take (suc n) (r ∷ rows) h = (h.0, AllRows-take n rows h.1)

AllRows-mono :
    (P Q : Row → Type 0)
    → ((r : Row) → P r → Q r)
    → (rows : List Row) → AllRows P rows
    → AllRows Q rows
AllRows-mono P Q f [] h = tt
AllRows-mono P Q f (r ∷ rows) h = (f r h.0, AllRows-mono P Q f rows h.1)

AllRows-keep_if : (p : Row → Bool) (rows : List Row) → AllRows (λ r. p r ≡ true) (keep_if p rows)
AllRows-keep_if p [] = tt
AllRows-keep_if p (r ∷ rows) = elim (Bool-cases (p r)) [
  | inl e ↦ rw e (e, AllRows-keep_if p rows)
  | inr e ↦ rw e (AllRows-keep_if p rows)
]

OldestFirst-insert_row :
    (r : Row) (rows : List Row) → OldestFirst rows → OldestFirst (insert_row r rows)
unfolding insert_row
OldestFirst-insert_row r [] h = (tt, tt)
OldestFirst-insert_row r (q ∷ rows) h = elim (Bool-cases (leb r.1.created_at q.1.created_at)) [
  | inl e ↦ rw e ((ground arith, AllRows-mono _ _ (λ s le. ground arith) rows h.0), h)
  | inr e ↦ rw e (AllRows-insert_row _ r rows (ground arith) h.0, OldestFirst-insert_row r rows h.1)
]

OldestFirst-sort_rows : (rows : List Row) → OldestFirst (sort_rows rows)
unfolding sort_rows
OldestFirst-sort_rows [] = tt
OldestFirst-sort_rows (r ∷ rows) =
    OldestFirst-insert_row r (sort_rows rows) (OldestFirst-sort_rows rows)

OldestFirst-take : (n : ℕ) (rows : List Row) → OldestFirst rows → OldestFirst (take n rows)
OldestFirst-take zero rows h = tt
OldestFirst-take (suc n) [] h = tt
OldestFirst-take (suc n) (r ∷ rows) h = (AllRows-take _ n rows h.0, OldestFirst-take n rows h.1)

length-insert_row : (r : Row) (rows : List Row) → length (insert_row r rows) ≡ suc (length rows)
unfolding insert_row
length-insert_row r [] = refl
length-insert_row r (q ∷ rows) = ground (arith, length-insert_row r rows)

length-sort_rows : (rows : List Row) → length (sort_rows rows) ≡ length rows
unfolding sort_rows
length-sort_rows [] = refl
length-sort_rows (r ∷ rows) =
    omega (arith, length-insert_row r (sort_rows rows), length-sort_rows rows)

-- The recovery listing holds only recoverable jobs, the oldest first. It holds as many as there are, but at
-- most as many as asked for, where the number asked for is brought between 1 and 1000.
pub list_recoverable_reply_jobs_lem :
    (limit cutoff : ℕ) (db : Db)
    → let rows = list_recoverable_reply_jobs limit cutoff db in
      AllRows (λ r. recoverable cutoff r.1 ≡ true) rows
      × OldestFirst rows
      × (length rows
          ≡ min (max (min limit 1000) 1) (length (keep_if (λ r. recoverable cutoff r.1) db)))
unfolding list_recoverable_reply_jobs
list_recoverable_reply_jobs_lem limit cutoff db =
    let n = max (min limit 1000) 1 in
    let rows = keep_if (λ (r : Row). recoverable cutoff r.1) db in
    (
      AllRows-take _ n (sort_rows rows) (AllRows-sort_rows _ rows (AllRows-keep_if _ db)),
      OldestFirst-take n (sort_rows rows) (OldestFirst-sort_rows rows),
      omega (arith, length-take n (sort_rows rows), length-sort_rows rows),
    )
