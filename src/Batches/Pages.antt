-- ===== src/Batches/Pages.antt =====
-- The pages of the items of a batch, one after the other.
use kakao_x_termux.Prelude.{
  ℕ, zero, suc, ◌≤◌, ◌<◌, ◌≡◌, refl, ap, sym, ◌∙◌, String, Option, none, some, Bool, true, false,
  List, [], ◌∷◌, ◌++◌, ◌&&◌, ◌⊎◌, length-append, eqb, ltb, length, length-take, take, take-all,
  keep_if, max, min, ◌==◌, arith, Bool-cases, inl, inr,
}
use kakao_x_termux.Batches.{
  SendBatchItem, BatchTables, ItemCursor, no_cursor, unreadable, after, behind,
  list_send_batch_items,
}
use mathlib.Core.List.{append-nil}
use kakao_x_termux.Batches.Service.{next_item_cursor, last_item}

-- Every item has a greater id than the ones before it.
abbrev pub AllAbove : ℕ → List SendBatchItem → Type 0
AllAbove m [] = Unit {0}
AllAbove m (x ∷ xs) = (m < x.id) × AllAbove m xs

abbrev pub Increasing : List SendBatchItem → Type 0
Increasing [] = Unit {0}
Increasing (x ∷ xs) = AllAbove x.id xs × Increasing xs

AllAbove-keep_if :
    (m : ℕ) (p : SendBatchItem → Bool) (xs : List SendBatchItem)
    → AllAbove m xs
    → AllAbove m (keep_if p xs)
AllAbove-keep_if m p [] h = tt
AllAbove-keep_if m p (x ∷ xs) h = ground (arith, AllAbove-keep_if m p xs h.1)

Increasing-keep_if :
    (p : SendBatchItem → Bool) (xs : List SendBatchItem) → Increasing xs → Increasing (keep_if p xs)
Increasing-keep_if p [] h = tt
Increasing-keep_if p (x ∷ xs) h =
    ground (arith, Increasing-keep_if p xs h.1, AllAbove-keep_if x.id p xs h.0)

last_above :
    (m n : ℕ) (xs : List SendBatchItem) (r : SendBatchItem)
    → AllAbove m xs
    → last_item (take n xs) ≡ some r
    → m < r.id
unfolding last_item
last_above m zero xs r a h = ground (arith, h)
last_above m (suc n) [] r a h = ground (arith, h)
last_above m (suc zero) (x ∷ xs) r a h = ground (arith, h, a.0)
last_above m (suc (suc n)) (x ∷ []) r a h = ground (arith, h, a.0)
last_above m (suc (suc n)) (x ∷ y ∷ xs) r a h = last_above m (suc n) (y ∷ xs) r a.1 h

keep_all : (m : ℕ) (xs : List SendBatchItem) → AllAbove m xs → keep_if (λ x. ltb m x.id) xs ≡ xs
keep_all m [] a = refl
keep_all m (x ∷ xs) a = ground (arith, keep_all m xs a.1)

abbrev id_of : Option SendBatchItem → ℕ
id_of none = 0
id_of (some r) = r.id

-- A page, and what stands behind its last item.
page_rest :
    (n : ℕ) (xs : List SendBatchItem) (r : SendBatchItem)
    → Increasing xs
    → last_item (take n xs) ≡ some r
    → take n xs ++ keep_if (λ x. ltb r.id x.id) xs ≡ xs
unfolding last_item
page_rest zero xs r a h = ground (arith, h)
page_rest (suc n) [] r a h = ground (arith, h)
page_rest (suc zero) (x ∷ xs) r a h =
    ground (arith, h, ap id_of h, keep_all x.id xs a.0, keep_all r.id xs)
page_rest (suc (suc n)) (x ∷ []) r a h = ground (arith, h, ap id_of h)
page_rest (suc (suc n)) (x ∷ y ∷ xs) r a h =
    ground (arith, page_rest (suc n) (y ∷ xs) r a.1 h, last_above x.id (suc n) (y ∷ xs) r a.0 h)

-- All the items of a batch behind a cursor.
unfoldable pub all_behind : String → ItemCursor → BatchTables → List SendBatchItem
all_behind batch_id from t =
    keep_if (λ r. (r.batch_id == batch_id) && (true && behind from r)) t.items

keep_twice :
    (batch_id : String) (from : ItemCursor) (r : SendBatchItem) (xs : List SendBatchItem)
    → behind from r ≡ true
    → keep_if
        (λ x. ltb r.id x.id)
        (keep_if (λ x. (x.batch_id == batch_id) && (true && behind from x)) xs)
      ≡ keep_if (λ x. (x.batch_id == batch_id) && (true && ltb r.id x.id)) xs
keep_twice batch_id from r [] h = refl
keep_twice batch_id from r (x ∷ xs) h = ground (arith, keep_twice batch_id from r xs h)

last_behind :
    (batch_id : String) (from : ItemCursor) (n : ℕ) (xs : List SendBatchItem) (r : SendBatchItem)
    → last_item (take n (keep_if (λ x. (x.batch_id == batch_id) && (true && behind from x)) xs))
      ≡ some r
    → behind from r ≡ true
last_behind batch_id no_cursor n xs r h = refl
last_behind batch_id unreadable n xs r h = refl
last_behind batch_id (after id) n xs r h = ground (
  arith,
  last_above id n (keep_if (λ x. (x.batch_id == batch_id) && (true && ltb id x.id)) xs) r (above xs)
      h,
)
  where
    above :
        (ys : List SendBatchItem)
        → AllAbove id (keep_if (λ x. (x.batch_id == batch_id) && (true && ltb id x.id)) ys)
    above [] = tt
    above (y ∷ ys) = ground (arith, above ys)

last_some :
    (xs : List SendBatchItem) → 0 < length xs → (r : SendBatchItem) × (last_item xs ≡ some r)
unfolding last_item
last_some [] h = ground (arith, h)
last_some (x ∷ []) h = (x, refl)
last_some (x ∷ y ∷ xs) h = last_some (y ∷ xs) (omega arith)

-- A caller that asks for page after page until there is no cursor.
abbrev continue : ItemCursor → (ItemCursor → List SendBatchItem) → List SendBatchItem
continue no_cursor pages = []
continue unreadable pages = pages unreadable
continue (after id) pages = pages (after id)

unfoldable pub walk : ℕ → String → ℕ → BatchTables → ItemCursor → List SendBatchItem
unfolding list_send_batch_items last_item
walk zero batch_id limit t from = []
walk (suc fuel) batch_id limit t from =
    let page = list_send_batch_items batch_id limit from none t in
    page ++ continue (next_item_cursor limit page) (walk fuel batch_id limit t)

-- What a page and its cursor give: the page is all that is left, or the rest stands behind its cursor.
page_step :
    (batch_id : String) (limit : ℕ) (t : BatchTables) (from : ItemCursor)
    → Increasing t.items
    → 1 ≤ limit
    → limit ≤ 1000
    → let page = list_send_batch_items batch_id limit from none t in
      ((next_item_cursor limit page ≡ no_cursor) × (page ≡ all_behind batch_id from t))
      ⊎ ((r : SendBatchItem) × (next_item_cursor limit page ≡ after r.id)
          × (page ++ all_behind batch_id (after r.id) t ≡ all_behind batch_id from t)
          × (1 ≤ length page))
unfolding list_send_batch_items all_behind
page_step batch_id limit t from inc low high =
    let rows = all_behind batch_id from t in
    let n : max (min limit 1000) 1 ≡ limit = omega arith in
    let len = length-take limit rows in
    rw n (elim (Bool-cases (eqb (length (take limit rows)) limit)) [
      | inl full ↦
          (let some_rows : 0 < length (take limit rows) = ground (arith, full, low) in
            let (r, last) = last_some (take limit rows) some_rows in
            inr (
              r,
              rw (full, last) refl,
              ap (◌++◌ (take limit rows)) (
                    sym (
                      keep_twice batch_id from r t.items
                        (last_behind batch_id from limit t.items r last)))
                  ∙ page_rest limit rows r (Increasing-keep_if _ t.items inc) last,
              some_rows,
            ))
      | inr short ↦ inl (rw short refl, take-all limit rows (ground (arith, short, len)))
    ])

-- In a table whose items stand in the order of their ids, a caller that reads the items of a batch page by page,
-- with a limit from one to a thousand and each time with the cursor of the page before, gets all its items, each
-- once and in order, and comes to an end: with more rounds allowed than there are items, none is left.
pub walk_lem :
    (fuel : ℕ) (batch_id : String) (limit : ℕ) (t : BatchTables) (from : ItemCursor)
    → Increasing t.items
    → 1 ≤ limit
    → limit ≤ 1000
    → length (all_behind batch_id from t) < fuel
    → walk fuel batch_id limit t from ≡ all_behind batch_id from t
unfolding walk
walk_lem zero batch_id limit t from inc low high enough = ground (arith, enough)
walk_lem (suc fuel) batch_id limit t from inc low high enough =
    elim (page_step batch_id limit t from inc low high) [
      | inl (e, whole) ↦ rw (e) (append-nil _ ∙ whole)
      | inr (r, e, rest, some_rows) ↦
          (let more = all_behind batch_id (after r.id) t in
            let page = list_send_batch_items batch_id limit from none t in
            let shorter : length more < fuel =
              omega (arith, ap length rest, length-append page more, enough, some_rows) in
            rw e (
              ap (◌++◌ page) (walk_lem fuel batch_id limit t (after r.id) inc low high shorter)
              ∙ rest))
    ]

eqb_less : (a b : ℕ) → a < b → eqb a b ≡ false
eqb_less a b h = ground arith

-- With a limit above a thousand there is never a cursor, and a page has at most a thousand items: the
-- others are out of reach.
pub no_page_behind :
    (batch_id : String) (limit : ℕ) (t : BatchTables) (from : ItemCursor)
    → 1000 < limit
    → let page = list_send_batch_items batch_id limit from none t in
      (next_item_cursor limit page ≡ no_cursor)
      × (length page ≡ min 1000 (length (all_behind batch_id from t)))
unfolding list_send_batch_items all_behind
no_page_behind batch_id limit t from high =
    let rows = all_behind batch_id from t in
    let n : max (min limit 1000) 1 ≡ 1000 = omega arith in
    let len = length-take 1000 rows in
    rw n (rw (eqb_less (length (take 1000 rows)) limit (omega (arith, len, high))) refl, len)
