-- ===== src/Targets/Saved.antt =====
-- What is read of a saved group, and the two ways in which it becomes the target of a send.
use kakao_x_termux.Prelude.{
  ℕ, ◌≡◌, refl, ap, sym, String, List, none, some, false, [], not, keep_if, arith, ◌==◌, eq_iff,
  if◌then◌else◌, Bool-cases, inl, inr,
}
use kakao_x_termux.Prelude.Sorting.{text_ltb, sort_by}
use kakao_x_termux.Dict.{lookup, lookup-insert, lookup-remove}
use kakao_x_termux.Targets.Query.{unique_keys, SendTargetFilter}
use kakao_x_termux.Targets.Groups.{
  Group, GroupTables, SendTargetSpec, group, no_filter, SendTargetGroupUpsertRequest,
  SendTargetGroupResponse, created, upsert_send_target_group, replace_send_target_group_rooms,
  list_send_target_group_rooms, response_of, get_group, upsert_group, delete_group,
  delete_send_target_group, resolve_group_spec, resolve_group_target_spec, SendTargetGroupType,
  static, dynamic, hybrid, SendTargetType, rooms, filter, filter_or_empty, group_target, saved_spec,
}

-- What a saved request is read back as.
abbrev pub stored : SendTargetGroupUpsertRequest → ℕ → GroupTables → SendTargetGroupResponse
stored q now t = record {
  group_key = q.group_key;
  name = q.name;
  type = q.type;
  enabled = q.enabled;
  room_keys = sort_by text_ltb (keep_if (λ k. not (k == "")) (unique_keys [] q.room_keys));
  filter = q.filter;
  created_at = created now (lookup q.group_key t.groups);
  updated_at = now;
}

-- The row that a saved request leaves.
abbrev group_of : SendTargetGroupUpsertRequest → ℕ → GroupTables → Group
group_of q now t = record {
  name = q.name;
  type = q.type;
  filter = q.filter;
  enabled = q.enabled;
  created_at = created now (lookup q.group_key t.groups);
  updated_at = now;
}

-- A saved group is read back with its name, kind, filter and distinct rooms in order, keeping the time of
-- its first creation, every other group as it was, and a deleted one not at all.
pub get-upsert_group :
    (q : SendTargetGroupUpsertRequest) (now : ℕ) (t : GroupTables) (k : String)
    → (get_group k (upsert_group q now t).0
        ≡ (if q.group_key == k then some (stored q now t) else get_group k t))
      × (get_group k (delete_group q.group_key t)
          ≡ (if q.group_key == k then none else get_group k t))
unfolding get_group upsert_group upsert_send_target_group replace_send_target_group_rooms
    list_send_target_group_rooms delete_group delete_send_target_group
get-upsert_group q now t k =
    rw
      (
        lookup-insert q.group_key k (group_of q now t) t.groups,
        lookup-insert q.group_key k (keep_if (λ j. not (j == "")) (unique_keys [] q.room_keys))
            t.group_rooms,
        lookup-remove q.group_key k t.groups,
        lookup-remove q.group_key k t.group_rooms,
      )
      (elim (Bool-cases (q.group_key == k)) [
        | inl same ↦
            (let e : q.group_key ≡ k = ground (arith, eq_iff q.group_key k) in
              rw same (
                ap
                    (λ j. response_of j (some (group_of q now t)) (
                      sort_by text_ltb (keep_if (λ j. not (j == "")) (unique_keys [] q.room_keys))))
                    (sym e),
                refl,
              ))
        | inr other ↦ rw other (refl, refl)
      ])

-- A group as the target of `POST /send/batches`.
abbrev pub by_key : String → SendTargetSpec
by_key key = record { type = group; room_keys = []; filter = no_filter; group_key = some key }

-- The target that a group stands for: its filter if it is dynamic, and its rooms otherwise.
abbrev pub kind_of : SendTargetGroupType → List String → SendTargetType × List String
kind_of static ks = (rooms, ks)
kind_of dynamic ks = (filter, [])
kind_of hybrid ks = (rooms, ks)

group_target-kind :
    (type : SendTargetGroupType) (target : SendTargetSpec) (ks : List String) (f : SendTargetFilter)
    → let s = group_target type target ks f in
      ((s.type, s.room_keys) ≡ kind_of type ks) × (s.filter ≡ f) × (s.group_key ≡ target.group_key)
group_target-kind static target ks f = (refl, refl, refl)
group_target-kind dynamic target ks f = (refl, refl, refl)
group_target-kind hybrid target ks f = (refl, refl, refl)

saved-group :
    (type : SendTargetGroupType) (key : String) (ks : List String) (f : SendTargetFilter)
    → saved_spec type key ks f ≡ group_target type (by_key key) ks f
saved-group static key ks f = refl
saved-group dynamic key ks f = refl
saved-group hybrid key ks f = refl

-- For a stored group with a filled key, the service of targets gives the rooms of the group, or the filter of a
-- dynamic one, under the key, whether the group is enabled or not; the service of groups gives the same if the
-- group is enabled, and none if it is disabled.
pub resolve_group_spec_lem :
    (key : String) (g : Group) (t : GroupTables)
    → (key == "") ≡ false
    → lookup key t.groups ≡ some g
    → let target = resolve_group_target_spec (by_key key) t in
      ((target.type, target.room_keys) ≡ kind_of g.type (list_send_target_group_rooms key t))
      × (target.filter ≡ filter_or_empty g.filter)
      × (target.group_key ≡ some key)
      × (resolve_group_spec key t ≡ (if g.enabled then some target else none))
unfolding resolve_group_spec resolve_group_target_spec
resolve_group_spec_lem key g t filled found =
    let ks = list_send_target_group_rooms key t in
    let f = filter_or_empty g.filter in
    let h = group_target-kind g.type (by_key key) ks f in
    rw (filled, found, resolve_group_spec) (h.0, h.1, h.2, rw (saved-group g.type key ks f) refl)
