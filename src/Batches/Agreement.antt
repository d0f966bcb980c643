-- ===== src/Batches/Agreement.antt =====
-- The counts of a refreshed batch, against SQLite's count of its items by status.
use kakao_x_termux.Prelude.{
  ℕ, ◌+◌, ◌≤◌, ◌≡◌, refl, ap, sym, ◌∙◌, String, Option, none, some, Bool, true, false, List, [],
  ◌∷◌, ◌&&◌, ◌||◌, length, take-all, keep_if, map, ◌==◌, if◌then◌else◌, arith, eq_iff, eq_refl,
  Bool-cases, inl, inr,
}
use kakao_x_termux.ReplyJobs.{ReplyJob, Db}
use kakao_x_termux.Batches.{
  SendBatch, SendBatchStatus, SendBatchItem, SendBatchItemStatus, queued, sent, failed,
  token_expired, handle_expired, skipped, Counts, BatchTables, is_row, has_row, update_rows,
  update_send_batch_item_status, update_send_batch_counts, get_send_batch, list_send_batch_items,
  with_item_status, item_status_eq, count_items, get_send_batch_items_summary, ItemsSummary,
}
use kakao_x_termux.Batches.Service.{
  refresh_batch_counts, refresh_items, refresh_item, count_rows, count_status, status_now, job_of,
  listed, item_status_from_reply,
}
use kakao_x_termux.Batches.Totals.{refresh-row}

-- `UNIQUE(batch_id, room_key)`
abbrev pub UniqueItems : List SendBatchItem → Type 0
UniqueItems [] = Unit {0}
UniqueItems (r ∷ rows) = (has_row r.batch_id r.room_key rows ≡ false) × UniqueItems rows

update_rows-absent :
    (b k : String) (change : SendBatchItem → SendBatchItem) (xs : List SendBatchItem)
    → has_row b k xs ≡ false
    → update_rows b k change xs ≡ xs
unfolding has_row update_rows
update_rows-absent b k change [] h = refl
update_rows-absent b k change (x ∷ xs) h = ground (arith, update_rows-absent b k change xs)

-- What a refresh makes of an item.
abbrev changed : ℕ → Option ReplyJob → SendBatchItem → SendBatchItem
changed now none r = r
changed now (some job) r =
    if item_status_eq (item_status_from_reply job.status) r.status
    then r
    else with_item_status (item_status_from_reply job.status) job.last_error r.job_id now r

same_status : (a b : SendBatchItemStatus) → item_status_eq a b ≡ true → a ≡ b
same_status a b h = ground arith

changed-status :
    (now : ℕ) (o : Option ReplyJob) (r : SendBatchItem) → (changed now o r).status ≡ status_now o r
changed-status now none r = refl
changed-status now (some job) r =
    elim (Bool-cases (item_status_eq (item_status_from_reply job.status) r.status)) [
      | inl same ↦ rw same (sym (same_status _ _ same))
      | inr other ↦ rw other refl
    ]

-- The counters of a batch, from SQLite's counts.
abbrev pub of_summary : ItemsSummary → Counts
of_summary s = record {
  queued = s.queued;
  sent = s.sent;
  failed = s.failed;
  expired = s.token_expired + s.handle_expired;
  skipped = s.skipped;
}

abbrev pub of_batch : String → SendBatchItem → Bool
of_batch batch_id r = (r.batch_id == batch_id) && (true && true)

module _ (batch_id : String) (db : Db) (now : ℕ) where
  -- The table with every item of the batch changed.
  abbrev refreshed : SendBatchItem → SendBatchItem
  refreshed r = if of_batch batch_id r then changed now (job_of db r.job_id) r else r

  -- The updates of the loop, on the items alone.
  abbrev update_one : Option ReplyJob → SendBatchItem → List SendBatchItem → List SendBatchItem
  update_one none r xs = xs
  update_one (some job) r xs =
      if item_status_eq (item_status_from_reply job.status) r.status
      then xs
      else update_rows batch_id r.room_key
          (with_item_status (item_status_from_reply job.status) job.last_error r.job_id now) xs

  update_all : List SendBatchItem → List SendBatchItem → List SendBatchItem
  update_all [] xs = xs
  update_all (r ∷ rows) xs = update_all rows (update_one (job_of db r.job_id) r xs)

  refresh_item-items :
      (o : Option ReplyJob) (r : SendBatchItem) (t : BatchTables)
      → (refresh_item batch_id now o r t).items ≡ update_one o r t.items
  unfolding update_send_batch_item_status
  refresh_item-items none r t = refl
  refresh_item-items (some job) r t = ground arith

  refresh_items-items :
      (rows : List SendBatchItem) (t : BatchTables)
      → (refresh_items batch_id db now rows t).items ≡ update_all rows t.items
  unfolding refresh_items update_all
  refresh_items-items [] t = refl
  refresh_items-items (r ∷ rows) t =
      refresh_items-items rows (refresh_item batch_id now (job_of db r.job_id) r t)
      ∙ ap (update_all rows) (refresh_item-items (job_of db r.job_id) r t)

  -- No row of the loop is that of an item.
  mentions : List SendBatchItem → SendBatchItem → Bool
  mentions [] x = false
  mentions (r ∷ rows) x = is_row batch_id r.room_key x || mentions rows x

  update_one-head :
      (o : Option ReplyJob) (r x : SendBatchItem) (xs : List SendBatchItem)
      → is_row batch_id r.room_key x ≡ false
      → update_one o r (x ∷ xs) ≡ x ∷ update_one o r xs
  unfolding update_rows
  update_one-head none r x xs h = refl
  update_one-head (some job) r x xs h = ground (arith, h)

  update_all-head :
      (rows : List SendBatchItem) (x : SendBatchItem) (xs : List SendBatchItem)
      → mentions rows x ≡ false
      → update_all rows (x ∷ xs) ≡ x ∷ update_all rows xs
  unfolding update_all mentions
  update_all-head [] x xs h = refl
  update_all-head (r ∷ rows) x xs h =
      ap (update_all rows) (update_one-head (job_of db r.job_id) r x xs (ground (arith, h)))
      ∙ update_all-head rows x (update_one (job_of db r.job_id) r xs) (ground (arith, h))

  mentions-absent :
      (x : SendBatchItem) (xs : List SendBatchItem)
      → has_row x.batch_id x.room_key xs ≡ false
      → mentions (keep_if (of_batch batch_id) xs) x ≡ false
  unfolding mentions has_row
  mentions-absent x [] h = refl
  mentions-absent x (y ∷ xs) h = elim (Bool-cases (of_batch batch_id y)) [
    | inl mine ↦ rw mine (
        ground (
          arith,
          mentions-absent x xs,
          eq_iff x.batch_id batch_id,
          eq_iff y.batch_id batch_id,
          eq_iff y.batch_id x.batch_id,
          eq_iff y.room_key x.room_key,
          eq_iff x.room_key y.room_key,
        ))
    | inr other ↦ rw other (mentions-absent x xs (ground (arith, h)))
  ]

  -- The update of an item of the batch, where it stands first.
  update_one-first :
      (o : Option ReplyJob) (x : SendBatchItem) (xs : List SendBatchItem)
      → (x.batch_id == batch_id) ≡ true
      → has_row batch_id x.room_key xs ≡ false
      → update_one o x (x ∷ xs) ≡ changed now o x ∷ xs
  unfolding update_rows
  update_one-first none x xs m h = refl
  update_one-first (some job) x xs m h =
      elim (Bool-cases (item_status_eq (item_status_from_reply job.status) x.status)) [
        | inl same ↦ rw same refl
        | inr other ↦
            rw
              (
                other,
                m,
                eq_refl x.room_key,
                update_rows-absent batch_id x.room_key
                    (with_item_status (item_status_from_reply job.status) job.last_error x.job_id
                      now)
                    xs h,
              )
              refl
      ]

  changed-key :
      (o : Option ReplyJob) (x : SendBatchItem)
      → ((changed now o x).batch_id ≡ x.batch_id) × ((changed now o x).room_key ≡ x.room_key)
  changed-key none x = (refl, refl)
  changed-key (some job) x = ground arith

  update_all-items :
      (xs : List SendBatchItem)
      → UniqueItems xs
      → update_all (keep_if (of_batch batch_id) xs) xs ≡ map refreshed xs
  unfolding update_all
  update_all-items [] u = refl
  update_all-items (x ∷ xs) u = elim (Bool-cases (of_batch batch_id x)) [
    | inl mine ↦
        (let e : x.batch_id ≡ batch_id = ground (arith, eq_iff x.batch_id batch_id) in
          let m : (x.batch_id == batch_id) ≡ true = ground arith in
          let first = update_one-first (job_of db x.job_id) x xs m (rw e at u.0) in
          let k = changed-key (job_of db x.job_id) x in
          rw mine (
            ap (update_all (keep_if (of_batch batch_id) xs)) first
            ∙ update_all-head (keep_if (of_batch batch_id) xs) (changed now (job_of db x.job_id) x)
                xs (mentions-absent (changed now (job_of db x.job_id) x) xs (rw (k.0, k.1) (u.0)))
            ∙ ap (◌∷◌ (changed now (job_of db x.job_id) x)) (update_all-items xs u.1)))
    | inr other ↦ rw other (
        update_all-head (keep_if (of_batch batch_id) xs) x xs (mentions-absent x xs u.0)
        ∙ ap (◌∷◌ x) (update_all-items xs u.1))
  ]

  abbrev counted : List SendBatchItem → Counts
  counted xs = record {
    queued = count_items batch_id queued xs;
    sent = count_items batch_id sent xs;
    failed = count_items batch_id failed xs;
    expired = count_items batch_id token_expired xs + count_items batch_id handle_expired xs;
    skipped = count_items batch_id skipped xs;
  }

  Counts-ext :
      (c d : Counts)
      → c.queued ≡ d.queued
      → c.sent ≡ d.sent
      → c.failed ≡ d.failed
      → c.expired ≡ d.expired
      → c.skipped ≡ d.skipped
      → c ≡ d
  Counts-ext c d q s f e k =
      λ i. record { queued = q i; sent = s i; failed = f i; expired = e i; skipped = k i }

  counted-mine :
      (x : SendBatchItem) (xs : List SendBatchItem)
      → (x.batch_id == batch_id) ≡ true
      → counted (x ∷ xs) ≡ count_status x.status (counted xs)
  unfolding count_items
  counted-mine x xs m =
      Counts-ext (counted (x ∷ xs)) (count_status x.status (counted xs)) (ground arith)
        (ground arith) (ground arith) (ground arith) (ground arith)

  counted-other :
      (x : SendBatchItem) (xs : List SendBatchItem)
      → (x.batch_id == batch_id) ≡ false
      → counted (x ∷ xs) ≡ counted xs
  unfolding count_items
  counted-other x xs m =
      Counts-ext (counted (x ∷ xs)) (counted xs) (ground arith) (ground arith) (ground arith)
        (ground arith) (ground arith)

  count_rows-counted :
      (xs : List SendBatchItem)
      → count_rows db (keep_if (of_batch batch_id) xs) ≡ counted (map refreshed xs)
  unfolding count_rows count_items
  count_rows-counted [] = refl
  count_rows-counted (x ∷ xs) = elim (Bool-cases (of_batch batch_id x)) [
    | inl mine ↦
        (let y = changed now (job_of db x.job_id) x in
          let k = changed-key (job_of db x.job_id) x in
          let m : (y.batch_id == batch_id) ≡ true = rw (k.0) (ground (arith, mine)) in
          rw mine (
            ap (count_status (status_now (job_of db x.job_id) x)) (count_rows-counted xs)
            ∙ ap (λ s. count_status s (counted (map refreshed xs)))
                (sym (changed-status now (job_of db x.job_id) x))
            ∙ sym (counted-mine y (map refreshed xs) m)))
    | inr other ↦
        rw other
          (count_rows-counted xs ∙ sym (counted-other x (map refreshed xs) (ground (arith, other))))
  ]

  update-items :
      (status : SendBatchStatus) (n : ℕ) (c : Counts) (at : Option ℕ) (t : BatchTables)
      → (update_send_batch_counts batch_id status n c at now t).items ≡ t.items
  unfolding update_send_batch_counts
  update-items status n c at t = ground arith

-- For a batch with no more than a thousand items, each room once, the counts that a refresh stores are
-- the numbers of the items that then have each status, as `get_send_batch_items_summary` counts them.
pub refresh_batch_counts-summary :
    (batch_id : String) (db : Db) (now : ℕ) (t : BatchTables) (b : SendBatch)
    → get_send_batch batch_id t ≡ some b
    → UniqueItems t.items
    → length (keep_if (of_batch batch_id) t.items) ≤ 1000
    → (b' : SendBatch) × (get_send_batch batch_id (refresh_batch_counts batch_id db now t)
        ≡ some b')
      × (b'.counts
          ≡ of_summary
              (get_send_batch_items_summary batch_id (refresh_batch_counts batch_id db now t)))
unfolding get_send_batch_items_summary list_send_batch_items refresh_batch_counts
refresh_batch_counts-summary batch_id db now t b h u few =
    let rows = keep_if (of_batch batch_id) t.items in
    let all_rows : listed batch_id t ≡ rows = take-all 1000 rows few in
    let items : (refresh_batch_counts batch_id db now t).items
        ≡ map (refreshed batch_id db now) t.items =
      update-items batch_id db now _ _ _ _ _
      ∙ refresh_items-items batch_id db now (listed batch_id t) t
      ∙ ap (λ r. update_all batch_id db now r t.items) all_rows
      ∙ update_all-items batch_id db now t.items u in
    (
      _,
      refresh-row batch_id db now t b h,
      ap (count_rows db) all_rows
          ∙ count_rows-counted batch_id db now t.items
          ∙ ap (counted batch_id db now) (sym items),
    )
