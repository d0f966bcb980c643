-- ===== src/Batches/Totals.antt =====
-- The counts of a batch after a refresh, against its items.
use kakao_x_termux.Prelude.{
  ℕ, suc, ◌+◌, ◌≡◌, refl, ap, ◌∙◌, String, Option, none, some, true, List, [], ◌∷◌, ◌&&◌, length,
  length-take, keep_if, min, ◌==◌, arith, eq_refl,
}
use kakao_x_termux.Dict.{lookup, lookup-insert}
use kakao_x_termux.ReplyJobs.{ReplyJob, Db}
use kakao_x_termux.Batches.{
  SendBatch, SendBatchStatus, SendBatchItem, SendBatchItemStatus, queued, sent, failed,
  token_expired, handle_expired, skipped, Counts, BatchTables, update_send_batch_item_status,
  update_send_batch_counts, get_send_batch, list_send_batch_items, with_counts,
}
use kakao_x_termux.Batches.Service.{
  refresh_batch_counts, refresh_items, refresh_item, count_rows, count_status, status_now, job_of,
  listed, next_status, completed_now,
}

abbrev pub sum_counts : Counts → ℕ
sum_counts c = c.queued + c.sent + c.failed + c.expired + c.skipped

sum-count_status :
    (s : SendBatchItemStatus) (c : Counts) → sum_counts (count_status s c) ≡ suc (sum_counts c)
sum-count_status queued c = omega arith
sum-count_status sent c = omega arith
sum-count_status failed c = omega arith
sum-count_status token_expired c = omega arith
sum-count_status handle_expired c = omega arith
sum-count_status skipped c = omega arith

pub sum-count_rows :
    (db : Db) (rows : List SendBatchItem) → sum_counts (count_rows db rows) ≡ length rows
unfolding count_rows
sum-count_rows db [] = omega arith
sum-count_rows db (r ∷ rows) =
    sum-count_status (status_now (job_of db r.job_id) r) (count_rows db rows)
    ∙ omega (arith, sum-count_rows db rows)

pub update-row :
    (batch_id : String) (status : SendBatchStatus) (n : ℕ) (c : Counts) (at : Option ℕ) (now : ℕ)
    (t : BatchTables) (b : SendBatch)
    → get_send_batch batch_id t ≡ some b
    → get_send_batch batch_id (update_send_batch_counts batch_id status n c at now t)
      ≡ some (with_counts status n c at now b)
unfolding get_send_batch update_send_batch_counts
update-row batch_id status n c at now t b h =
    rw (h, update_send_batch_counts)
      (lookup-insert batch_id batch_id (with_counts status n c at now b) t.batches
        ∙ (rw (eq_refl batch_id)))

module _ (batch_id : String) (db : Db) (now : ℕ) where
  refresh_item-batches :
      (o : Option ReplyJob) (r : SendBatchItem) (t : BatchTables)
      → (refresh_item batch_id now o r t).batches ≡ t.batches
  refresh_item-batches none r t = refl
  refresh_item-batches (some job) r t = unfold update_send_batch_item_status in ground arith

  pub refresh_items-batches :
      (rows : List SendBatchItem) (t : BatchTables)
      → (refresh_items batch_id db now rows t).batches ≡ t.batches
  unfolding refresh_items
  refresh_items-batches [] t = refl
  refresh_items-batches (r ∷ rows) t =
      refresh_items-batches rows (refresh_item batch_id now (job_of db r.job_id) r t)
      ∙ refresh_item-batches (job_of db r.job_id) r t

  -- The row of a batch after a refresh.
  pub refresh-row :
      (t : BatchTables) (b : SendBatch)
      → get_send_batch batch_id t ≡ some b
      → let c = count_rows db (listed batch_id t) in
        get_send_batch batch_id (refresh_batch_counts batch_id db now t)
        ≡ some (
            with_counts
              (next_status (some b) c (length (listed batch_id t)))
              b.target_count
              c
              (completed_now (some b) c now)
              now
              b)
  unfolding refresh_batch_counts
  refresh-row t b h = rw h (
      update-row batch_id _ b.target_count _ _ now _ b (
        (unfold get_send_batch in
          (ap (lookup batch_id) (refresh_items-batches (listed batch_id t) t)))
        ∙ h))

-- The counts that a refresh stores add up to the items that it reads, which are those of the batch, but
-- no more than a thousand.
pub refresh_batch_counts_lem :
    (batch_id : String) (db : Db) (now : ℕ) (t : BatchTables) (b : SendBatch)
    → get_send_batch batch_id t ≡ some b
    → (b' : SendBatch) × (get_send_batch batch_id (refresh_batch_counts batch_id db now t)
        ≡ some b')
      × (sum_counts b'.counts ≡ min 1000 (length (keep_if (λ r. r.batch_id == batch_id) t.items)))
      × (b'.target_count ≡ b.target_count)
unfolding list_send_batch_items
refresh_batch_counts_lem batch_id db now t b h = (
  _,
  refresh-row batch_id db now t b h,
  sum-count_rows db (listed batch_id t)
      ∙ length-take 1000 _
      ∙ ap (λ xs. min 1000 (length xs)) (same_rows t.items),
  refl,
)
  where
    same_rows :
        (xs : List SendBatchItem)
        → keep_if (λ r. (r.batch_id == batch_id) && (true && true)) xs
          ≡ keep_if (λ r. r.batch_id == batch_id) xs
    same_rows [] = refl
    same_rows (x ∷ xs) = ground (arith, same_rows xs)
