-- ===== src/Targets/Rooms.antt =====
-- What becomes of each room that a send asks for by its key.
use kakao_x_termux.Prelude.{
  ℕ, zero, suc, ◌+◌, ◌-◌, ◌≤◌, ◌≡◌, refl, ap, sym, ◌∙◌, String, none, some, Bool, true, false, List,
  [], ◌∷◌, ◌++◌, ◌&&◌, ltb, length, map, keep_if, ◌==◌, if◌then◌else◌, take, take-all, arith,
  eq_iff, Bool-cases, inl, inr,
}
use mathlib.Core.List.{append-nil, append_assoc}
use mathlib.Core.Path.{subst}
use kakao_x_termux.Dict.{Dict, lookup, lookup-insert, lookup-empty}
use kakao_x_termux.Targets.{
  TargetStatus, available, expiring, expired, unknown, all, TargetRow, target_status,
}
use kakao_x_termux.Targets.Query.{get_latest_send_targets_for_room_keys, unique_keys}
use kakao_x_termux.Targets.Resolve.{
  ResolvedTarget, Sources, row_to_target, exclude, sum_values, Progress, count_or_zero, step_status,
  step_room, each_room, cut, start, resolve_rooms_target, row_of,
}
use kakao_x_termux.Targets.Accounting.{cut_lem, each_room-handled}

-- What is to become of a room: a target, or the reason for which it is none.
pub data Verdict : Type 0 where
  taken : Verdict
  left_out : String → Verdict

-- A send wants a token that is known to last.
abbrev by_status : Bool → TargetStatus → Verdict
by_status for_send available = taken
by_status for_send expiring = taken
by_status for_send expired = if for_send then left_out "expired" else taken
by_status for_send unknown = if for_send then left_out "unknown" else taken
by_status for_send all = if for_send then left_out "all" else taken

-- The verdict on a room by its rows among the newest ones.
abbrev pub verdict : Sources → Bool → List TargetRow → Verdict
verdict e for_send [] = left_out "missingRoom"
verdict e for_send (r ∷ rows) =
    by_status for_send
      (target_status r.reply_token r.reply_token_expires_at e.now e.safety_window_ms)

abbrev pub is_taken : Verdict → Bool
is_taken taken = true
is_taken (left_out reason) = false

abbrev pub is_left_out : String → Verdict → Bool
is_left_out reason taken = false
is_left_out reason (left_out why) = why == reason

abbrev pub rows_of : List TargetRow → String → List TargetRow
rows_of rows k = keep_if (λ r. r.room_key == k) rows

-- The number that a dictionary has under a key, or 0.
abbrev pub counted : String → Dict ℕ → ℕ
counted reason d = count_or_zero (lookup reason d)

counted-exclude :
    (key reason : String) (n : ℕ) (d : Dict ℕ)
    → counted reason (exclude key n d) ≡ counted reason d + (if key == reason then n else 0)
counted-exclude key reason n d =
    rw (lookup-insert key reason (counted key d + n) d) (elim (Bool-cases (key == reason)) [
      | inl same ↦ rw same (rw ((eq_iff key reason).0 same) refl)
      | inr other ↦ rw other (omega arith)
    ])

abbrev pub keys_of : List ResolvedTarget → List String
keys_of ts = map (λ t. t.room_key) ts

keys-append : (ts us : List ResolvedTarget) → keys_of (ts ++ us) ≡ keys_of ts ++ keys_of us
keys-append [] us = refl
keys-append (t ∷ ts) us = ap (◌∷◌ t.room_key) (keys-append ts us)

length-keys : (ts : List ResolvedTarget) → length (keys_of ts) ≡ length ts
length-keys [] = refl
length-keys (t ∷ ts) = omega (arith, length-keys ts)

keys-take : (n : ℕ) (ts : List ResolvedTarget) → keys_of (take n ts) ≡ take n (keys_of ts)
keys-take zero ts = refl
keys-take (suc n) [] = refl
keys-take (suc n) (t ∷ ts) = ap (◌∷◌ t.room_key) (keys-take n ts)

first_key :
    (k : String) (rows : List TargetRow) (r : TargetRow) (more : List TargetRow)
    → rows_of rows k ≡ r ∷ more
    → (row_of k rows ≡ some r) × (r.room_key ≡ k)
unfolding row_of
first_key k [] r more h = ground (arith, h)
first_key k (x ∷ rows) r more h = ground (arith, h, eq_iff x.room_key k, first_key k rows r more)

no_key : (k : String) (rows : List TargetRow) → rows_of rows k ≡ [] → row_of k rows ≡ none
unfolding row_of
no_key k [] h = refl
no_key k (x ∷ rows) h = ground (arith, h, no_key k rows)

and_false : (b : Bool) → (b && false) ≡ false
and_false b = ground arith

keep-cons :
    (test : String → Bool) (k : String) (ks : List String)
    → (if test k then k ∷ [] else []) ++ keep_if test ks ≡ keep_if test (k ∷ ks)
keep-cons test k ks = elim (Bool-cases (test k)) [ inl e ↦ rw e refl | inr e ↦ rw e refl ]

length-keep-cons :
    (test : String → Bool) (k : String) (ks : List String)
    → length (keep_if test (k ∷ ks)) ≡ (if test k then 1 else 0) + length (keep_if test ks)
length-keep-cons test k ks = elim (Bool-cases (test k)) [
  | inl e ↦ rw e (omega arith)
  | inr e ↦ rw e (omega arith)
]

-- What a room adds to the keys of the targets, and to the count of a reason.
abbrev key_if : Verdict → String → List String
key_if v k = if is_taken v then k ∷ [] else []

module _ (e : Sources) (for_send : Bool) (rows : List TargetRow) where
  abbrev pub judged : String → Verdict
  judged k = verdict e for_send (rows_of rows k)

  abbrev Judged : String → Verdict → Progress → Progress → Type 0
  Judged k v p q =
      (keys_of q.targets ≡ keys_of p.targets ++ key_if v k)
      × ((reason : String)
          → counted reason q.excluded
            ≡ counted reason p.excluded + (if is_left_out reason v then 1 else 0))

  exclude-Judged :
      (k why : String) (p : Progress)
      → Judged k (left_out why) p (record p { excluded = exclude why 1 p.excluded })
  exclude-Judged k why p =
      (sym (append-nil (keys_of p.targets)), λ reason. counted-exclude why reason 1 p.excluded)

  append-Judged :
      (t : ResolvedTarget) (p : Progress)
      → Judged t.room_key taken p (record p { targets = p.targets ++ t ∷ [] })
  append-Judged t p = (keys-append p.targets (t ∷ []), λ reason. omega arith)

  step_status-Judged :
      (status : TargetStatus) (t : ResolvedTarget) (p : Progress)
      → Judged t.room_key (by_status for_send status) p (step_status e for_send status t p)
  step_status-Judged available t p = rw (and_false for_send) (append-Judged t p)
  step_status-Judged expiring t p = rw (and_false for_send) (append-Judged t p)
  step_status-Judged expired t p = elim (Bool-cases for_send) [
    | inl sends ↦ simp sends (exclude-Judged t.room_key "expired" p)
    | inr looks ↦ simp looks (append-Judged t p)
  ]
  step_status-Judged unknown t p = elim (Bool-cases for_send) [
    | inl sends ↦ simp sends (exclude-Judged t.room_key "unknown" p)
    | inr looks ↦ simp looks (append-Judged t p)
  ]
  step_status-Judged all t p = elim (Bool-cases for_send) [
    | inl sends ↦ simp sends (exclude-Judged t.room_key "all" p)
    | inr looks ↦ simp looks (append-Judged t p)
  ]

  step_room-found :
      (k : String) (p : Progress) (r : TargetRow) (more : List TargetRow)
      → rows_of rows k ≡ r ∷ more
      → Judged k (verdict e for_send (r ∷ more)) p (step_room e for_send rows k p)
  step_room-found k p r more h =
      let (found, same) = first_key k rows r more h in
      let status = target_status r.reply_token r.reply_token_expires_at e.now e.safety_window_ms in
      rw (found, step_room)
        (subst
          (λ j.
            Judged j (by_status for_send status) p
              (step_status e for_send status (row_to_target e.cache r) p))
          same (unfold row_to_target in step_status-Judged status (row_to_target e.cache r) p))

  step_room-Judged :
      (k : String) (p : Progress) (found : List TargetRow)
      → rows_of rows k ≡ found
      → Judged k (verdict e for_send found) p (step_room e for_send rows k p)
  step_room-Judged k p [] h = rw (no_key k rows h, step_room) (exclude-Judged k "missingRoom" p)
  step_room-Judged k p (r ∷ more) h = step_room-found k p r more h

  each_room-Judged :
      (ks : List String) (p : Progress)
      → (keys_of (each_room e for_send rows ks p).targets
          ≡ keys_of p.targets ++ keep_if (λ k. is_taken (judged k)) ks)
        × ((reason : String)
            → counted reason (each_room e for_send rows ks p).excluded
              ≡ counted reason p.excluded
                + length (keep_if (λ k. is_left_out reason (judged k)) ks))
  unfolding each_room
  each_room-Judged [] p = (sym (append-nil (keys_of p.targets)), λ reason. omega arith)
  each_room-Judged (k ∷ ks) p =
      let one = step_room-Judged k p (rows_of rows k) refl in
      let rest = each_room-Judged ks (step_room e for_send rows k p) in
      (
        rest.0
            ∙ ap (λ l. l ++ keep_if (λ j. is_taken (judged j)) ks) one.0
            ∙ append_assoc (keys_of p.targets) (key_if (judged k) k)
                (keep_if (λ j. is_taken (judged j)) ks)
            ∙ ap (◌++◌ (keys_of p.targets)) (keep-cons (λ j. is_taken (judged j)) k ks),
        λ reason. omega (
          arith,
          rest.1 reason,
          one.1 reason,
          length-keep-cons (λ j. is_left_out reason (judged j)) k ks,
        ),
      )

-- The rooms that a send names, without repetition, in their order, and the verdicts on them by the newest
-- messages.
abbrev pub asked : List String → List String
asked room_keys = unique_keys [] room_keys

abbrev pub rooms_taken : Sources → List String → Bool → List String
rooms_taken e room_keys for_send =
    let rows = get_latest_send_targets_for_room_keys room_keys e.messages e.db in
    keep_if (λ k. is_taken (judged e for_send rows k)) (asked room_keys)

abbrev pub rooms_left_out : Sources → List String → Bool → String → List String
rooms_left_out e room_keys for_send reason =
    let rows = get_latest_send_targets_for_room_keys room_keys e.messages e.db in
    keep_if (λ k. is_left_out reason (judged e for_send rows k)) (asked room_keys)

cut-keys :
    (m total : ℕ) (p : Progress) → keys_of (cut m total p).targets ≡ take m (keys_of p.targets)
cut-keys m total p = elim (Bool-cases (ltb m (length p.targets))) [
  | inl over ↦ rw over (keys-take m p.targets)
  | inr fits ↦
      rw fits
        (ap keys_of (sym (take-all m p.targets (ground (arith, fits)))) ∙ keys-take m p.targets)
]

cut-counted :
    (m total : ℕ) (p : Progress) (reason : String)
    → counted reason (cut m total p).excluded_reasons
      ≡ counted reason p.excluded + (if "maxTargets" == reason then length p.targets - m else 0)
cut-counted m total p reason = elim (Bool-cases (ltb m (length p.targets))) [
  | inl over ↦ rw over (counted-exclude "maxTargets" reason (length p.targets - m) p.excluded)
  | inr fits ↦ rw fits (ground (arith, fits))
]

-- A send that names rooms reaches, in the order of the request and up to the limit, exactly the rooms that have a
-- message in the table and, if it sends, a token in their newest row that is known to last; each reason counts
-- exactly the rooms that are left out for it, and those behind the limit are counted as maxTargets. So every
-- distinct room is a target or is counted.
pub resolve_rooms_target_lem :
    (e : Sources) (room_keys : List String) (m : ℕ) (for_send : Bool) (reason : String)
    → let r = resolve_rooms_target e room_keys m for_send in
      let taken_keys = rooms_taken e room_keys for_send in
      (keys_of r.targets ≡ take m taken_keys)
      × (counted reason r.excluded_reasons
          ≡ length (rooms_left_out e room_keys for_send reason)
            + (if "maxTargets" == reason then length taken_keys - m else 0))
      × (length r.targets + sum_values r.excluded_reasons ≡ length (asked room_keys))
      × (length r.targets ≤ m)
unfolding resolve_rooms_target sum_values
resolve_rooms_target_lem e room_keys m for_send reason =
    let rows = get_latest_send_targets_for_room_keys room_keys e.messages e.db in
    let p = each_room e for_send rows (asked room_keys) start in
    let h = cut_lem m (length rows) p in
    let (keys, counts) = each_room-Judged e for_send rows (asked room_keys) start in
    let len = sym (length-keys p.targets) ∙ ap length keys in
    let none_yet : counted reason [] ≡ 0 = ap count_or_zero (lookup-empty {V = ℕ} reason) in
    (
      cut-keys m (length rows) p ∙ ap (take m) keys,
      omega (
        arith,
        cut-counted m (length rows) p reason,
        counts reason,
        none_yet,
        ap {B = ℕ} (λ n. if "maxTargets" == reason then n - m else 0) len,
      ),
      omega (arith, h.0, each_room-handled e for_send rows (asked room_keys) start),
      h.1,
    )
