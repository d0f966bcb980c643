-- ===== src/ReplyJobs/Update.antt =====
-- What one guarded UPDATE does to each row, whatever its guard and its SET list.
use kakao_x_termux.Prelude.{
  String, ◌≡◌, Option, none, some, Bool, true, false, arith, ◌==◌, eq_iff, if◌then◌else◌,
  Option-cases, Bool-cases, inl, inr, ap, sym, ◌∙◌, eq_refl,
}
use kakao_x_termux.Dict.{lookup, lookup-insert}
use kakao_x_termux.ReplyJobs.{ReplyJob, Db, update_where}

abbrev pub changed : (ReplyJob → Bool) → (ReplyJob → ReplyJob) → Option ReplyJob → Option ReplyJob
changed test change none = none
changed test change (some job) = if test job then some (change job) else some job

abbrev pub hits : (ReplyJob → Bool) → Option ReplyJob → Bool
hits test none = false
hits test (some job) = test job

module _ (k j : String) (test : ReplyJob → Bool) (change : ReplyJob → ReplyJob) (db : Db) where
  pub lookup-update_where :
      lookup j (update_where k test change db).0
      ≡ (if k == j then changed test change (lookup j db) else lookup j db)
  unfolding update_where
  lookup-update_where = elim (Option-cases (lookup k db)) [
    | inl e ↦ rw (e, update_where) (ground (arith, eq_iff k j))
    | inr (job, e) ↦ elim (Bool-cases (test job)) [
      | inl t ↦ rw (e, update_where, t, lookup-insert) (ground (arith, eq_iff k j))
      | inr f ↦ rw (e, update_where, f) (ground (arith, eq_iff k j))
    ]
  ]

module _ (k : String) (test : ReplyJob → Bool) (change : ReplyJob → ReplyJob) (db : Db) where
  pub update_where-hits : (update_where k test change db).1 ≡ hits test (lookup k db)
  unfolding update_where
  update_where-hits = ground arith

  -- A guard that no row meets leaves the table as it is.
  pub update_where_miss :
      hits test (lookup k db) ≡ false → update_where k test change db ≡ (db, false)
  unfolding update_where
  update_where_miss h = ground arith

  -- A successful UPDATE found a row that meets the guard, and left its changed copy in its place.
  pub update_where_row :
      (update_where k test change db).1 ≡ true
      → (job : ReplyJob) × (lookup k db ≡ some job)
        × (test job ≡ true)
        × (lookup k (update_where k test change db).0 ≡ some (change job))
  update_where_row h = elim (Option-cases (lookup k db)) [
    | inl e ↦ cc (update_where-hits, ap (hits test) e)
    | inr (job, e) ↦
        let t : test job ≡ true = sym (ap (hits test) e) ∙ sym update_where-hits ∙ h in
        (job, e, t, lookup-update_where k k test change db ∙ (rw (eq_refl k, e, t)))
  ]

-- An UPDATE whose guard holds for the row.
pub update_row :
    (k : String) (test : ReplyJob → Bool) (change : ReplyJob → ReplyJob) (db : Db) (job : ReplyJob)
    → lookup k db ≡ some job
    → test job ≡ true
    → ((update_where k test change db).1 ≡ true)
      × (lookup k (update_where k test change db).0 ≡ some (change job))
update_row k test change db job h t = (
  update_where-hits k test change db ∙ ap (hits test) h ∙ t,
  lookup-update_where k k test change db ∙ (rw (eq_refl k, h, t)),
)
