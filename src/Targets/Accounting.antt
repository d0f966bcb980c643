-- ===== src/Targets/Accounting.antt =====
-- The rooms that a resolution handles are targets or are counted, and no room is a target twice.
use kakao_x_termux.Prelude.{
  ℕ, suc, ◌+◌, ◌-◌, ◌≤◌, ◌≡◌, refl, ap, String, Option, some, Bool, true, List, [], ◌∷◌, ◌++◌, ◌&&◌,
  ltb, length, length-append, length-take, ◌==◌, if◌then◌else◌, take, arith, eq_iff, Bool-cases,
  Option-cases, inl, inr, if_both, max, min,
}
use kakao_x_termux.Prelude.Texts.{contains}
use kakao_x_termux.Dict.{Dict, lookup, insert}
use kakao_x_termux.Targets.{TargetStatus, TargetRow, target_status}
use kakao_x_termux.Targets.Query.{
  SendTargetFilter, query_latest_targets, get_latest_send_targets_for_room_keys, unique_keys,
  sorted_rows, row_before, where_clause,
}
use kakao_x_termux.Targets.Groups.{SendTargetSpec, SendTargetType, rooms, filter, group, all}
use kakao_x_termux.Targets.Copies.{copies, copies-append, copies-take-le, query-copies}
use kakao_x_termux.Targets.Resolve.{
  ResolvedTarget, TargetResolution, Sources, row_to_target, exclude, sum_values, Progress,
  step_status, step_room, each_room, step_row, each_row, cut, start, resolve_rooms_target,
  resolve_filter_target, without_repeats, add_reasons, merge_resolutions, resolve_type,
  resolve_target_spec, limit_or, row_of, has_filter_terms, ungrouped, status_value,
}

pub sum-exclude :
    (key : String) (n : ℕ) (d : Dict ℕ) → sum_values (exclude key n d) ≡ sum_values d + n
unfolding sum_values lookup insert
sum-exclude key n [] = omega arith
sum-exclude key n ((k, m) ∷ d) = ground (arith, sum-exclude key n d)

-- The targets and the rooms left out, together.
abbrev pub handled : Progress → ℕ
handled p = length p.targets + sum_values p.excluded

pub cut_lem :
    (m total : ℕ) (p : Progress)
    → (length (cut m total p).targets + sum_values (cut m total p).excluded_reasons ≡ handled p)
      × (length (cut m total p).targets ≤ m)
cut_lem m total p = elim (Bool-cases (ltb m (length p.targets))) [
  | inl over ↦ rw over (
      rw (length-take m p.targets, sum-exclude "maxTargets" (length p.targets - m) p.excluded)
        (ground arith))
  | inr fits ↦ rw fits (refl, ground arith)
]

module _ (e : Sources) (for_send : Bool) where
  step_status-handled :
      (status : TargetStatus) (t : ResolvedTarget) (p : Progress)
      → handled (step_status e for_send status t p) ≡ suc (handled p)
  step_status-handled status t p =
      ground
        (arith, length-append p.targets (t ∷ []), sum-exclude (status_value status) 1 p.excluded)

  step_room-handled :
      (rows : List TargetRow) (k : String) (p : Progress)
      → handled (step_room e for_send rows k p) ≡ suc (handled p)
  step_room-handled rows k p = elim (Option-cases (row_of k rows)) [
    | inl a ↦ rw (a, step_room) (ground (arith, sum-exclude "missingRoom" 1 p.excluded))
    | inr (r, a) ↦ rw (a, step_room) (step_status-handled _ _ p)
  ]

  pub each_room-handled :
      (rows : List TargetRow) (ks : List String) (p : Progress)
      → handled (each_room e for_send rows ks p) ≡ handled p + length ks
  unfolding each_room
  each_room-handled rows [] p = omega arith
  each_room-handled rows (k ∷ ks) p =
      omega (
        arith,
        each_room-handled rows ks (step_room e for_send rows k p),
        step_room-handled rows k p,
      )

  each_row-handled :
      (rows : List TargetRow) (p : Progress)
      → handled (each_row e for_send rows p) ≡ handled p + length rows
  unfolding each_row
  each_row-handled [] p = omega arith
  each_row-handled (r ∷ rows) p =
      omega (arith, each_row-handled rows (step_row e for_send r p), step_status-handled _ _ p)

row_of_key :
    (k : String) (rows : List TargetRow) (r : TargetRow) → row_of k rows ≡ some r → r.room_key ≡ k
unfolding row_of
row_of_key k [] r h = ground arith
row_of_key k (x ∷ rows) r h = elim (Bool-cases (x.room_key == k)) [
  | inl same ↦ (let g = rw same at h in ground (arith, g, eq_iff x.room_key k))
  | inr other ↦ (let g = rw other at h in row_of_key k rows r g)
]

unique_keys-copies :
    (k : String) (seen ks : List String)
    → copies (λ x. x) k (unique_keys seen ks) ≤ (if contains k seen then 0 else 1)
unfolding unique_keys copies contains
unique_keys-copies k seen [] = omega arith
unique_keys-copies k seen (x ∷ ks) = ground (arith, unique_keys-copies k (x ∷ seen) ks, eq_iff x k)

without_repeats-copies :
    (k : String) (seen : List String) (ts : List ResolvedTarget)
    → copies (λ t. t.room_key) k (without_repeats seen ts) ≤ (if contains k seen then 0 else 1)
unfolding without_repeats copies contains
without_repeats-copies k seen [] = ground arith
without_repeats-copies k seen (t ∷ ts) =
    ground (arith, without_repeats-copies k (t.room_key ∷ seen) ts, eq_iff t.room_key k)

abbrev pub targets_of : String → List ResolvedTarget → ℕ
targets_of k = copies (λ t. t.room_key) k

module _ (e : Sources) (for_send : Bool) (k : String) where
  step_status-copies :
      (status : TargetStatus) (t : ResolvedTarget) (p : Progress)
      → targets_of k (step_status e for_send status t p).targets
        ≤ targets_of k p.targets + (if t.room_key == k then 1 else 0)
  unfolding copies
  step_status-copies status t p =
      ground (arith, copies-append (λ t. t.room_key) k p.targets (t ∷ []))

  step_room-copies :
      (rows : List TargetRow) (key : String) (p : Progress)
      → targets_of k (step_room e for_send rows key p).targets
        ≤ targets_of k p.targets + (if key == k then 1 else 0)
  unfolding row_to_target
  step_room-copies rows key p = elim (Option-cases (row_of key rows)) [
    | inl a ↦ rw (a, step_room) (omega arith)
    | inr (r, a) ↦
        (let same = row_of_key key rows r a in
          rw (a, step_room)
            (omega (
              arith,
              step_status-copies
                  (target_status r.reply_token r.reply_token_expires_at e.now e.safety_window_ms)
                  (row_to_target e.cache r) p,
              ap {B = ℕ} (λ x. if x == k then 1 else 0) same,
            )))
  ]

  each_room-copies :
      (rows : List TargetRow) (ks : List String) (p : Progress)
      → targets_of k (each_room e for_send rows ks p).targets
        ≤ targets_of k p.targets + copies (λ x. x) k ks
  unfolding each_room copies
  each_room-copies rows [] p = omega arith
  each_room-copies rows (x ∷ ks) p =
      omega
        (arith, each_room-copies rows ks (step_room e for_send rows x p), step_room-copies rows x p)

  each_row-copies :
      (rows : List TargetRow) (p : Progress)
      → targets_of k (each_row e for_send rows p).targets
        ≤ targets_of k p.targets + copies (λ r. r.room_key) k rows
  unfolding each_row copies row_to_target
  each_row-copies [] p = omega arith
  each_row-copies (r ∷ rows) p = omega (
    arith,
    each_row-copies rows (step_row e for_send r p),
    step_status-copies _ (row_to_target e.cache r) p,
  )

  -- At most once, and no more than m.
  abbrev Fair : ℕ → TargetResolution → Type 0
  Fair m r = (targets_of k r.targets ≤ 1) × (length r.targets ≤ m)

  cut-Fair : (m total : ℕ) (p : Progress) → targets_of k p.targets ≤ 1 → Fair m (cut m total p)
  cut-Fair m total p h =
      (ground (arith, copies-take-le (λ t. t.room_key) k m p.targets), (cut_lem m total p).1)

  rooms-Fair :
      (room_keys : List String) (m : ℕ) → Fair m (resolve_rooms_target e room_keys m for_send)
  unfolding resolve_rooms_target copies contains
  rooms-Fair room_keys m =
      let rows = get_latest_send_targets_for_room_keys room_keys e.messages e.db in
      let ks = unique_keys [] room_keys in
      cut-Fair m (length rows) (each_room e for_send rows ks start)
        (omega (arith, each_room-copies rows ks start, unique_keys-copies k [] room_keys))

  filter-Fair : (f : SendTargetFilter) (m : ℕ) → Fair m (resolve_filter_target e f m for_send)
  unfolding resolve_filter_target copies query_latest_targets sorted_rows
  filter-Fair f m =
      let test : TargetRow → Bool =
        λ r. where_clause e.like f e.now e.safety_window_ms e.allowed_source_types r && true in
      let all_rows = sorted_rows test e.messages e.db in
      let rows = take (max (min m 10000) 1) all_rows in
      cut-Fair m (length rows) (each_row e for_send rows start) (
        omega (
          arith,
          each_row-copies rows start,
          copies-take-le {A = TargetRow} (λ r. r.room_key) k (max (min m 10000) 1) all_rows,
          query-copies k row_before test e.messages e.db,
        ))

  merge-Fair : (first second : TargetResolution) (m : ℕ) → Fair m (merge_resolutions first second m)
  unfolding merge_resolutions contains
  merge-Fair first second m =
      cut-Fair m (first.total_count + second.total_count)
        (record {
          targets = without_repeats [] (first.targets ++ second.targets);
          excluded = add_reasons second.excluded_reasons first.excluded_reasons;
        })
        (without_repeats-copies k [] (first.targets ++ second.targets))

  resolve_type-Fair :
      (type : SendTargetType) (target : SendTargetSpec) (m : ℕ)
      → Fair m (resolve_type e type target m for_send)
  resolve_type-Fair rooms target m =
      if_both (Fair m) (has_filter_terms target.filter) _ _
        (merge-Fair (resolve_rooms_target e target.room_keys m for_send)
          (resolve_filter_target e target.filter m for_send) m)
        (rooms-Fair target.room_keys m)
  resolve_type-Fair filter target m = filter-Fair target.filter m
  resolve_type-Fair all target m = filter-Fair target.filter m
  resolve_type-Fair group target m = unfold copies in (omega arith, omega arith)

-- Whatever rooms, filter or group a send names: no room is a target twice, and there are no more targets
-- than the limit of the request, or of the settings if the request has none.
pub resolve_target_spec_lem :
    (e : Sources) (target : SendTargetSpec) (max_targets : Option ℕ) (for_send : Bool) (k : String)
    → let r = resolve_target_spec e target max_targets for_send in
      (targets_of k r.targets ≤ 1) × (length r.targets ≤ limit_or max_targets e.max_targets)
unfolding resolve_target_spec
resolve_target_spec_lem e target max_targets for_send k =
    let spec = ungrouped target.type e.groups target in
    resolve_type-Fair e for_send k spec.type spec (limit_or max_targets e.max_targets)
