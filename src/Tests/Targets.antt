-- ===== src/Tests/Targets.antt =====
-- Targets and groups on concrete data.
use kakao_x_termux.Prelude.{
  ◌+◌, ◌-◌, ◌≤◌, ◌≡◌, refl, String, none, some, true, false, List, [], ◌∷◌, length, take, ◌==◌,
  if◌then◌else◌,
}
use kakao_x_termux.Dict.{lookup}
use kakao_x_termux.Targets.{expired, target_status, classify_target_status}
use kakao_x_termux.Targets.Query.{status_clause}
use kakao_x_termux.Targets.Groups.{
  Group, GroupTables, dynamic, no_filter, SendTargetGroupUpsertRequest, resolve_group_spec,
  resolve_group_target_spec, SendTargetSpec, rooms, list_send_target_group_rooms, filter_or_empty,
}
use kakao_x_termux.Targets.Resolve.{Sources, resolve_rooms_target, resolve_target_spec, sum_values}
use kakao_x_termux.Targets.Accounting.{targets_of, resolve_target_spec_lem}
use kakao_x_termux.Targets.Rooms.{
  resolve_rooms_target_lem, rooms_taken, rooms_left_out, keys_of, counted, asked,
}
use kakao_x_termux.Targets.Status.{selects, target_status_lem}
use kakao_x_termux.Targets.Saved.{by_key, kind_of, resolve_group_spec_lem}
use kakao_x_termux.Tests.Sends.{event}

abbrev pub sources : Sources
sources = record {
  messages =
      record { event = event; processed = true; created_at = 5; updated_at = 5; deleted_at = none }
      ∷ [];
  db = [];
  groups = record { groups = []; group_rooms = [] };
  cache = none;
  like = λ q t. true;
  allowed_source_types = [];
  safety_window_ms = 5;
  max_targets = 10;
  max_page_size = 10;
  now = 20;
}

abbrev wanted : List String
wanted = "r" ∷ "x" ∷ "r" ∷ []

resolve_rooms_target_lem_example :
    let r = resolve_rooms_target sources wanted 10 true in
    let taken_keys = rooms_taken sources wanted true in
    (keys_of r.targets ≡ take 10 taken_keys)
    × (counted "missingRoom" r.excluded_reasons
        ≡ length (rooms_left_out sources wanted true "missingRoom")
          + (if "maxTargets" == "missingRoom" then length taken_keys - 10 else 0))
    × (length r.targets + sum_values r.excluded_reasons ≡ length (asked wanted))
    × (length r.targets ≤ 10)
resolve_rooms_target_lem_example = resolve_rooms_target_lem sources wanted 10 true "missingRoom"

abbrev spec : SendTargetSpec
spec = record { type = rooms; room_keys = wanted; filter = no_filter; group_key = none }

resolve_target_spec_lem_example :
    let r = resolve_target_spec sources spec none true in
    (targets_of "r" r.targets ≤ 1) × (length r.targets ≤ 10)
resolve_target_spec_lem_example = resolve_target_spec_lem sources spec none true "r"

target_status_lem_example :
    (classify_target_status (some "t") none 20 5 ≡ target_status (some "t") none 20 5)
    × (status_clause expired 20 5 (some "t") none
        ≡ selects expired (target_status (some "t") none 20 5))
target_status_lem_example = target_status_lem (some "t") none 20 5 expired

abbrev group_request : SendTargetGroupUpsertRequest
group_request = record {
  group_key = "g";
  name = "Group";
  type = dynamic;
  enabled = false;
  room_keys = "r" ∷ "a" ∷ "r" ∷ [];
  filter = none;
}

abbrev no_groups : GroupTables
no_groups = record { groups = []; group_rooms = [] }

abbrev disabled_group : Group
disabled_group = record {
  name = "Group";
  type = dynamic;
  filter = none;
  enabled = false;
  created_at = 7;
  updated_at = 7;
}

abbrev stored_groups : GroupTables
stored_groups = record no_groups { groups = ("g", disabled_group) ∷ [] }

resolve_group_spec_lem_example :
    let target = resolve_group_target_spec (by_key "g") stored_groups in
    ((target.type, target.room_keys)
      ≡ kind_of disabled_group.type (list_send_target_group_rooms "g" stored_groups))
    × (target.filter ≡ filter_or_empty disabled_group.filter)
    × (target.group_key ≡ some "g")
    × (resolve_group_spec "g" stored_groups ≡ (if false then some target else none))
unfolding lookup
resolve_group_spec_lem_example = resolve_group_spec_lem "g" disabled_group stored_groups refl refl
