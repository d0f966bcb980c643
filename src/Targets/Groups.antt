-- ===== src/Targets/Groups.antt =====
-- app/repositories/send_groups.py and app/services/send_group_service.py: saved groups of rooms, and what
-- a group is as the target of a send. The filter of a group is kept as the record that its JSON text
-- stands for.
use kakao_x_termux.Prelude.{
  ℕ, String, Option, none, some, Bool, List, [], not, ltb, eqb, ◌&&◌, ◌||◌, keep_if, map, ◌==◌,
  if◌then◌else◌, max, min, take,
}
use kakao_x_termux.Prelude.Sorting.{text_ltb, sort_by}
use kakao_x_termux.Dict.{Dict, lookup, insert, remove}
use kakao_x_termux.Targets.{TargetStatus, every}
use kakao_x_termux.Targets.Query.{SendTargetFilter, unique_keys}

pub data SendTargetGroupType : Type 0 where
  static dynamic hybrid : SendTargetGroupType

pub data SendTargetType : Type 0 where
  rooms filter group all : SendTargetType

pub record SendTargetSpec : Type 0 where
  pub type : SendTargetType
  pub room_keys : List String
  pub filter : SendTargetFilter
  pub group_key : Option String

-- `SendTargetFilter()`
abbrev pub no_filter : SendTargetFilter
no_filter = record {
  q = none;
  status = TargetStatus.all;
  source_type = every;
  room_type = none;
  seen_after = none;
  seen_before = none;
  expires_after = none;
  expires_before = none;
  has_recent_failure = none;
}

pub record Group : Type 0 where
  pub name : String
  pub type : SendTargetGroupType
  pub filter : Option SendTargetFilter
  pub enabled : Bool
  pub created_at : ℕ
  pub updated_at : ℕ

-- The two tables: the groups by their key, and the rooms of each group.
pub record GroupTables : Type 0 where
  pub groups : Dict Group
  pub group_rooms : Dict (List String)

pub record SendTargetGroupUpsertRequest : Type 0 where
  pub group_key : String
  pub name : String
  pub type : SendTargetGroupType
  pub enabled : Bool
  pub room_keys : List String
  pub filter : Option SendTargetFilter

pub record SendTargetGroupResponse : Type 0 where
  pub group_key : String
  pub name : String
  pub type : SendTargetGroupType
  pub enabled : Bool
  pub room_keys : List String
  pub filter : Option SendTargetFilter
  pub created_at : ℕ
  pub updated_at : ℕ

-- `ON CONFLICT(group_key) DO UPDATE`: the time of the creation stays.
abbrev pub created : ℕ → Option Group → ℕ
created now none = now
created now (some g) = g.created_at

unfoldable pub upsert_send_target_group :
    SendTargetGroupUpsertRequest → ℕ → GroupTables → GroupTables
upsert_send_target_group q now t = record t {
  groups =
      insert q.group_key
        (record {
          name = q.name;
          type = q.type;
          filter = q.filter;
          enabled = q.enabled;
          created_at = created now (lookup q.group_key t.groups);
          updated_at = now;
        })
        t.groups;
}

unfoldable pub replace_send_target_group_rooms : String → List String → GroupTables → GroupTables
unfolding unique_keys
replace_send_target_group_rooms group_key room_keys t = record t {
  group_rooms =
      insert group_key (keep_if (λ k. not (k == "")) (unique_keys [] room_keys)) t.group_rooms;
}

abbrev pub rooms_or_empty : Option (List String) → List String
rooms_or_empty none = []
rooms_or_empty (some ks) = ks

-- `ORDER BY room_key ASC`
unfoldable pub list_send_target_group_rooms : String → GroupTables → List String
unfolding sort_by text_ltb
list_send_target_group_rooms group_key t =
    sort_by text_ltb (rooms_or_empty (lookup group_key t.group_rooms))

unfoldable pub delete_send_target_group : String → GroupTables → GroupTables
delete_send_target_group group_key t = record {
  groups = remove group_key t.groups;
  group_rooms = remove group_key t.group_rooms;
}

-- `ORDER BY updated_at DESC, group_key ASC`
abbrev group_before : String × Group → String × Group → Bool
group_before (j, a) (k, b) =
    ltb b.updated_at a.updated_at || (eqb a.updated_at b.updated_at && text_ltb j k)

unfoldable pub list_send_target_groups : ℕ → GroupTables → List (String × Group)
unfolding sort_by text_ltb
list_send_target_groups limit t = take (max (min limit 1000) 1) (sort_by group_before t.groups)

-- `_row_to_response`, with the rooms of the group.
abbrev pub row_to_response : String → Group → List String → SendTargetGroupResponse
row_to_response group_key g room_keys = record {
  group_key = group_key;
  name = g.name;
  type = g.type;
  enabled = g.enabled;
  room_keys = room_keys;
  filter = g.filter;
  created_at = g.created_at;
  updated_at = g.updated_at;
}

abbrev pub response_of : String → Option Group → List String → Option SendTargetGroupResponse
response_of group_key none room_keys = none
response_of group_key (some g) room_keys = some (row_to_response group_key g room_keys)

unfoldable pub get_group : String → GroupTables → Option SendTargetGroupResponse
unfolding list_send_target_group_rooms
get_group group_key t =
    response_of group_key (lookup group_key t.groups) (list_send_target_group_rooms group_key t)

unfoldable pub upsert_group :
    SendTargetGroupUpsertRequest → ℕ → GroupTables → GroupTables × Option SendTargetGroupResponse
unfolding upsert_send_target_group replace_send_target_group_rooms get_group
upsert_group q now t =
    let t' =
      replace_send_target_group_rooms q.group_key q.room_keys (upsert_send_target_group q now t) in
    (t', get_group q.group_key t')

unfoldable pub list_groups : ℕ → GroupTables → List SendTargetGroupResponse
unfolding list_send_target_groups list_send_target_group_rooms
list_groups limit t =
    map (λ (k, g). row_to_response k g (list_send_target_group_rooms k t))
      (list_send_target_groups limit t)

unfoldable pub delete_group : String → GroupTables → GroupTables
unfolding delete_send_target_group
delete_group = delete_send_target_group

abbrev pub filter_or_empty : Option SendTargetFilter → SendTargetFilter
filter_or_empty none = no_filter
filter_or_empty (some f) = f

-- The spec of a group by its type, as `resolve_group_spec` builds it.
abbrev pub saved_spec :
    SendTargetGroupType → String → List String → SendTargetFilter → SendTargetSpec
saved_spec static key ks f = record {
  type = rooms;
  room_keys = ks;
  filter = f;
  group_key = some key;
}
saved_spec dynamic key ks f = record {
  type = filter;
  room_keys = [];
  filter = f;
  group_key = some key;
}
saved_spec hybrid key ks f = record {
  type = rooms;
  room_keys = ks;
  filter = f;
  group_key = some key;
}

-- `resolve_group_spec` of the service of groups.
unfoldable pub resolve_group_spec : String → GroupTables → Option SendTargetSpec
unfolding list_send_target_group_rooms
resolve_group_spec group_key t = elim (lookup group_key t.groups) [
  | none ↦ none
  | some g ↦
      if g.enabled
      then some (
          saved_spec g.type group_key (list_send_target_group_rooms group_key t)
            (filter_or_empty g.filter))
      else none
]

-- The spec of a group by its type, as `_resolve_group_target_spec` builds it from a target with a key.
abbrev pub group_target :
    SendTargetGroupType → SendTargetSpec → List String → SendTargetFilter → SendTargetSpec
group_target static target ks f = record {
  type = rooms;
  room_keys = ks;
  filter = f;
  group_key = target.group_key;
}
group_target dynamic target ks f = record {
  type = filter;
  room_keys = [];
  filter = f;
  group_key = target.group_key;
}
group_target hybrid target ks f = record {
  type = rooms;
  room_keys = ks;
  filter = f;
  group_key = target.group_key;
}

-- `_resolve_group_target_spec` of the service of targets: the group of the spec, if it has one.
unfoldable pub resolve_group_target_spec : SendTargetSpec → GroupTables → SendTargetSpec
unfolding list_send_target_group_rooms
resolve_group_target_spec target t = elim target.group_key [
  | none ↦ target
  | some key ↦ if key == "" then target else elim (lookup key t.groups) [
    | none ↦ target
    | some g ↦
        group_target g.type target (list_send_target_group_rooms key t) (filter_or_empty g.filter)
  ]
]
