-- ===== src/Batches/Status.antt =====
-- What refreshes and cancellations make of the status of a batch.
use kakao_x_termux.Prelude.{
  ℕ, ◌<◌, ◌≡◌, refl, ap, sym, ◌∙◌, String, Option, none, some, Bool, true, false, List, [], ◌∷◌,
  ◌⊎◌, length, all, ◌==◌, if◌then◌else◌, arith, eq_iff, Bool-cases, Option-cases, inl, inr,
}
use kakao_x_termux.Dict.{lookup, lookup-insert}
use kakao_x_termux.ReplyJobs.{ReplyJob, pending, dispatching, retrying, Db}
use kakao_x_termux.Batches.{
  SendBatch, SendBatchStatus, completed, canceled, is_final, SendBatchItem, Counts, BatchTables,
  update_send_batch_counts, get_send_batch, with_counts,
}
use kakao_x_termux.Batches.Service.{
  BatchState, ok, refresh_batch_counts, refresh_items, count_rows, job_of, listed,
  item_status_from_reply, get_batch_summary, cancel_batch,
}
use kakao_x_termux.Batches.Totals.{refresh-row, refresh_items-batches, update-row, sum-count_rows}

update-other :
    (k j : String) (status : SendBatchStatus) (n : ℕ) (c : Counts) (at : Option ℕ) (now : ℕ)
    (t : BatchTables)
    → (k == j) ≡ false
    → get_send_batch j (update_send_batch_counts k status n c at now t) ≡ get_send_batch j t
unfolding get_send_batch update_send_batch_counts
update-other k j status n c at now t other = elim (Option-cases (lookup k t.batches)) [
  | inl a ↦ rw (a, update_send_batch_counts) refl
  | inr (b, a) ↦
      rw (a, update_send_batch_counts)
        (lookup-insert k j (with_counts status n c at now b) t.batches ∙ (rw other refl))
]

refresh-other :
    (k j : String) (db : Db) (now : ℕ) (t : BatchTables)
    → (k == j) ≡ false
    → get_send_batch j (refresh_batch_counts k db now t) ≡ get_send_batch j t
unfolding refresh_batch_counts
refresh-other k j db now t other =
    update-other k j _ _ _ _ now (refresh_items k db now (listed k t) t) other
    ∙ (unfold get_send_batch in ap (lookup j) (refresh_items-batches k db now (listed k t) t))

-- The batch is there with this status.
abbrev pub Stands : String → SendBatchStatus → BatchTables → Type 0
Stands j status t = (b : SendBatch) × (get_send_batch j t ≡ some b) × (b.status ≡ status)

module _ (j : String) (status : SendBatchStatus) (done : is_final status ≡ true) where
  pub refresh-Stands :
      (k : String) (db : Db) (now : ℕ) (t : BatchTables)
      → Stands j status t
      → Stands j status (refresh_batch_counts k db now t)
  refresh-Stands k db now t (b, h, e) = elim (Bool-cases (k == j)) [
    | inl same ↦
        (let q : k ≡ j = ground (arith, eq_iff k j) in
          let r = refresh-row k db now t b (ap (λ i. get_send_batch i t) q ∙ h) in
          (
            _,
            ap (λ i. get_send_batch i (refresh_batch_counts k db now t)) (sym q) ∙ r,
            rw (ap is_final e ∙ done) e,
          ))
    | inr other ↦ (b, refresh-other k j db now t other ∙ h, e)
  ]

  update-Stands :
      (k : String) (t : BatchTables) (b : SendBatch) (at : Option ℕ) (now : ℕ)
      → get_send_batch k t ≡ some b
      → is_final b.status ≡ false
      → Stands j status t
      → Stands j status (update_send_batch_counts k canceled b.target_count b.counts at now t)
  update-Stands k t b at now found unfinished (c, h, e) = elim (Bool-cases (k == j)) [
    | inl same ↦
        (let q : k ≡ j = ground (arith, eq_iff k j) in
          let both : some b ≡ some c = sym found ∙ ap (λ i. get_send_batch i t) q ∙ h in
          ground (arith, both, ap is_final e, done, unfinished))
    | inr other ↦ (c, update-other k j canceled b.target_count b.counts at now t other ∙ h, e)
  ]

  pub cancel-Stands :
      (k : String) (now : ℕ) (s : BatchState)
      → Stands j status s.tables
      → Stands j status (cancel_batch k now s).0.tables
  unfolding cancel_batch get_batch_summary
  cancel-Stands k now s h = elim (Option-cases (get_send_batch k s.tables)) [
    | inl a ↦ rw (a, cancel_batch) h
    | inr (b, a) ↦ elim (Bool-cases (is_final b.status)) [
      | inl finished ↦ rw (a, cancel_batch, finished) (refresh-Stands k s.send.db now s.tables h)
      | inr unfinished ↦
          rw (a, cancel_batch, unfinished)
            (refresh-Stands k s.send.db now
              (update_send_batch_counts k canceled b.target_count b.counts (some now) now s.tables)
              (update-Stands k s.tables b (some now) now a unfinished h))
    ]
  ]

-- A call of `cancel_batch` for a stored batch answers with the batch and stores what it answers: a batch
-- that was not finished is canceled, with the time of the call as its completion, and a finished one keeps
-- its status.
pub cancel_batch_lem :
    (k : String) (now : ℕ) (s : BatchState) (b : SendBatch)
    → get_send_batch k s.tables ≡ some b
    → (b' : SendBatch) × ((cancel_batch k now s).1 ≡ ok b')
      × (get_send_batch k (cancel_batch k now s).0.tables ≡ some b')
      × (b'.status ≡ (if is_final b.status then b.status else canceled))
      × ((is_final b.status ≡ true) ⊎ (b'.completed_at ≡ some now))
unfolding cancel_batch get_batch_summary
cancel_batch_lem k now s b h = elim (Bool-cases (is_final b.status)) [
  | inl finished ↦
      (let r = refresh-row k s.send.db now s.tables b h in
        rw (h, cancel_batch, finished)
          (_, rw (r, get_batch_summary) refl, r, rw finished refl, inl refl))
  | inr unfinished ↦
      (let t =
          update_send_batch_counts k canceled b.target_count b.counts (some now) now s.tables in
        let r =
          refresh-row k s.send.db now t _
            (update-row k canceled b.target_count b.counts (some now) now s.tables b h) in
        rw (h, cancel_batch, unfinished) (_, rw (r, get_batch_summary) refl, r, refl, inr refl))
]

-- A job that a worker of the dispatch queue has in hand, or has not yet taken.
abbrev pub in_flight : Option ReplyJob → Bool
in_flight none = false
in_flight (some job) = elim job.status [
  | pending ↦ true
  | dispatching ↦ true
  | retrying ↦ true
  | _ ↦ false
]

count-in_flight :
    (db : Db) (rows : List SendBatchItem)
    → all (λ r. in_flight (job_of db r.job_id)) rows ≡ true
    → ((count_rows db rows).queued ≡ 0) × ((count_rows db rows).skipped ≡ length rows)
unfolding count_rows item_status_from_reply
count-in_flight db [] h = (refl, refl)
count-in_flight db (r ∷ rows) h = elim (Option-cases (job_of db r.job_id)) [
  | inl a ↦ ground (arith, a, ap in_flight a)
  | inr (job, a) ↦
      (let g = rw a at h in
        let rest = count-in_flight db rows (ground (arith, g)) in rw a (ground (arith, g, rest)))
]

-- A refresh at a moment when every listed item of an open batch has its job in the hands of a worker
-- counts all of them as skipped and completes the batch, although no job has ended.
pub refresh-in_flight :
    (k : String) (db : Db) (now : ℕ) (t : BatchTables) (b : SendBatch)
    → get_send_batch k t ≡ some b
    → is_final b.status ≡ false
    → 0 < length (listed k t)
    → all (λ r. in_flight (job_of db r.job_id)) (listed k t) ≡ true
    → (b' : SendBatch) × (get_send_batch k (refresh_batch_counts k db now t) ≡ some b')
      × (b'.status ≡ completed)
      × (b'.counts.skipped ≡ length (listed k t))
      × (b'.counts.sent ≡ 0)
refresh-in_flight k db now t b h unfinished some_rows flying =
    let c = count-in_flight db (listed k t) flying in
    let total = sum-count_rows db (listed k t) in
    (
      _,
      refresh-row k db now t b h,
      rw unfinished (ground (arith, c.0, c.1, some_rows)),
      c.1,
      omega (arith, c.0, c.1, total),
    )
