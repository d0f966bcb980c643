-- ===== src/Targets/Resolve.antt =====
-- app/services/send_target_service.py: the rooms that a send goes to, and why the others do not.
use kakao_x_termux.Prelude.{
  ℕ, ◌+◌, ◌-◌, String, Option, none, some, Bool, true, false, List, [], ◌∷◌, ◌++◌, ◌&&◌, ◌||◌, not,
  ltb, length, ◌==◌, if◌then◌else◌, take, is_some,
}
use kakao_x_termux.Prelude.Texts.{contains}
use kakao_x_termux.Dict.{Dict, lookup, insert}
use kakao_x_termux.Schemas.{SourceType}
use kakao_x_termux.Messages.{MessageRow}
use kakao_x_termux.Messages.Tokens.{ReplyTokenCache, peek_latest_for_room}
use kakao_x_termux.ReplyJobs.{ReplyJobStatus, Db}
use kakao_x_termux.Targets.{
  TargetStatus, available, expiring, expired, unknown, all, TargetSourceFilter, every, TargetRow,
  target_status,
}
use kakao_x_termux.Targets.Query.{
  SendTargetFilter, query_latest_targets, get_latest_send_targets_for_room_keys, unique_keys,
}
use kakao_x_termux.Targets.Groups.{
  SendTargetSpec, SendTargetType, rooms, filter, group, GroupTables, resolve_group_target_spec,
}

pub record ResolvedTarget : Type 0 where
  pub room_key : String
  pub room : String
  pub reply_token : Option String
  pub reply_token_expires_at : Option ℕ
  pub last_seen_at : ℕ
  pub source_type : SourceType
  pub last_sender : Option String
  pub sender_count : ℕ
  pub last_send_status : Option ReplyJobStatus
  pub last_send_at : Option ℕ

pub record TargetResolution : Type 0 where
  pub targets : List ResolvedTarget
  pub excluded_reasons : Dict ℕ
  pub total_count : ℕ

-- What a resolution reads: the tables, the cache, the settings, the clock and SQLite's LIKE. The clock
-- is read once.
pub record Sources : Type 0 where
  pub messages : List MessageRow
  pub db : Db
  pub groups : GroupTables
  pub cache : Option ReplyTokenCache
  pub like : String → String → Bool
  pub allowed_source_types : List String
  pub safety_window_ms : ℕ
  pub max_targets : ℕ
  pub max_page_size : ℕ
  pub now : ℕ

-- The token of a row, unless the cache has one for the room.
abbrev pub cached_or : Option (Option String × Option ℕ) → TargetRow → Option String × Option ℕ
cached_or (some (some t, at)) r = (some t, at)
cached_or _ r = (r.reply_token, r.reply_token_expires_at)

abbrev cached_for : Option ReplyTokenCache → String → Option (Option String × Option ℕ)
cached_for none room_key = none
cached_for (some c) room_key = peek_latest_for_room room_key c

abbrev pub token_of : Option ReplyTokenCache → TargetRow → Option String × Option ℕ
token_of cache r = cached_or (cached_for cache r.room_key) r

-- `_row_to_target`
unfoldable pub row_to_target : Option ReplyTokenCache → TargetRow → ResolvedTarget
row_to_target cache r = record {
  room_key = r.room_key;
  room = r.room;
  reply_token = (token_of cache r).0;
  reply_token_expires_at = (token_of cache r).1;
  last_seen_at = r.received_at;
  source_type = r.source_type;
  last_sender = r.sender;
  sender_count = r.sender_count;
  last_send_status = r.last_send_status;
  last_send_at = r.last_send_at;
}

abbrev pub status_value : TargetStatus → String
status_value available = "available"
status_value expiring = "expiring"
status_value expired = "expired"
status_value unknown = "unknown"
status_value all = "all"

abbrev pub can_send : TargetStatus → Bool
can_send available = true
can_send expiring = true
can_send _ = false

abbrev pub count_or_zero : Option ℕ → ℕ
count_or_zero none = 0
count_or_zero (some n) = n

-- `excluded[key] = excluded.get(key, 0) + n`
abbrev pub exclude : String → ℕ → Dict ℕ → Dict ℕ
exclude key n d = insert key (count_or_zero (lookup key d) + n) d

-- `sum(excluded_reasons.values())`
unfoldable pub sum_values : Dict ℕ → ℕ
sum_values [] = 0
sum_values ((k, n) ∷ d) = n + sum_values d

-- What a loop has gathered: the targets in their order, and the reasons of the others.
pub record Progress : Type 0 where
  pub targets : List ResolvedTarget
  pub excluded : Dict ℕ

abbrev append_target : ResolvedTarget → Progress → Progress
append_target t p = record p { targets = p.targets ++ t ∷ [] }

abbrev pub step_status : Sources → Bool → TargetStatus → ResolvedTarget → Progress → Progress
step_status e for_send status t p =
    if for_send && not (can_send status)
    then record p { excluded = exclude (status_value status) 1 p.excluded }
    else append_target t p

-- `row_by_room.get(room_key)`; the rows have each room once.
unfoldable pub row_of : String → List TargetRow → Option TargetRow
row_of room_key [] = none
row_of room_key (r ∷ rows) = if r.room_key == room_key then some r else row_of room_key rows

-- One round of the loop over the room keys: the status is that of the row, not of the cache.
abbrev pub step_room : Sources → Bool → List TargetRow → String → Progress → Progress
step_room e for_send rows room_key p = elim (row_of room_key rows) [
  | none ↦ record p { excluded = exclude "missingRoom" 1 p.excluded }
  | some r ↦
      step_status e for_send
        (target_status r.reply_token r.reply_token_expires_at e.now e.safety_window_ms)
        (row_to_target e.cache r) p
]

unfoldable pub each_room : Sources → Bool → List TargetRow → List String → Progress → Progress
unfolding row_of target_status row_to_target
each_room e for_send rows [] p = p
each_room e for_send rows (k ∷ ks) p = each_room e for_send rows ks (step_room e for_send rows k p)

-- One round of the loop over the rows: the status is that of the target, with the cached token.
abbrev pub step_row : Sources → Bool → TargetRow → Progress → Progress
step_row e for_send r p =
    let t = row_to_target e.cache r in
    step_status e for_send
      (target_status t.reply_token t.reply_token_expires_at e.now e.safety_window_ms) t p

unfoldable pub each_row : Sources → Bool → List TargetRow → Progress → Progress
unfolding target_status row_to_target
each_row e for_send [] p = p
each_row e for_send (r ∷ rows) p = each_row e for_send rows (step_row e for_send r p)

-- The cut to `max_targets`, and what it leaves out. A negative limit, with which a slice of Python counts from
-- the end, is not modelled.
abbrev pub cut : ℕ → ℕ → Progress → TargetResolution
cut max_targets total_count p = record {
  targets = if ltb max_targets (length p.targets) then take max_targets p.targets else p.targets;
  excluded_reasons =
      if ltb max_targets (length p.targets)
      then exclude "maxTargets" (length p.targets - max_targets) p.excluded
      else p.excluded;
  total_count = total_count;
}

abbrev pub start : Progress
start = record { targets = []; excluded = [] }

-- `_resolve_rooms_target`
unfoldable pub resolve_rooms_target : Sources → List String → ℕ → Bool → TargetResolution
unfolding each_room get_latest_send_targets_for_room_keys unique_keys
resolve_rooms_target e room_keys max_targets for_send =
    let rows = get_latest_send_targets_for_room_keys room_keys e.messages e.db in
    cut max_targets (length rows) (each_room e for_send rows (unique_keys [] room_keys) start)

-- `_resolve_filter_target`
unfoldable pub resolve_filter_target : Sources → SendTargetFilter → ℕ → Bool → TargetResolution
unfolding each_row query_latest_targets
resolve_filter_target e f max_targets for_send =
    let rows =
      query_latest_targets e.like f max_targets none e.now e.safety_window_ms e.allowed_source_types
        e.messages e.db in
    cut max_targets (length rows) (each_row e for_send rows start)

abbrev is_all_status : TargetStatus → Bool
is_all_status all = true
is_all_status _ = false

abbrev is_every_source : TargetSourceFilter → Bool
is_every_source every = true
is_every_source _ = false

abbrev filled : Option String → Bool
filled none = false
filled (some s) = not (s == "")

-- `_has_filter_terms`
unfoldable pub has_filter_terms : SendTargetFilter → Bool
has_filter_terms f =
    filled f.q
    || (not (is_all_status f.status)
        || (not (is_every_source f.source_type)
            || (is_some f.room_type
                || (is_some f.seen_after
                    || (is_some f.seen_before
                        || (is_some f.expires_after
                            || (is_some f.expires_before || is_some f.has_recent_failure)))))))

-- The items whose room was not seen, and the rooms seen.
unfoldable pub without_repeats : List String → List ResolvedTarget → List ResolvedTarget
unfolding contains
without_repeats seen [] = []
without_repeats seen (t ∷ ts) =
    let rest = without_repeats (t.room_key ∷ seen) ts in
    if contains t.room_key seen then rest else t ∷ rest

unfoldable pub add_reasons : Dict ℕ → Dict ℕ → Dict ℕ
add_reasons [] d = d
add_reasons ((k, n) ∷ more) d = add_reasons more (exclude k n d)

-- `_merge_resolutions`
unfoldable pub merge_resolutions : TargetResolution → TargetResolution → ℕ → TargetResolution
unfolding without_repeats add_reasons
merge_resolutions first second max_targets =
    cut max_targets (first.total_count + second.total_count) (record {
      targets = without_repeats [] (first.targets ++ second.targets);
      excluded = add_reasons second.excluded_reasons first.excluded_reasons;
    })

abbrev pub rooms_of_spec : Sources → SendTargetSpec → ℕ → Bool → TargetResolution
rooms_of_spec e target m for_send =
    let first = resolve_rooms_target e target.room_keys m for_send in
    if has_filter_terms target.filter
    then merge_resolutions first (resolve_filter_target e target.filter m for_send) m
    else first

abbrev unsupported : TargetResolution
unsupported = record {
  targets = [];
  excluded_reasons = ("unsupportedTarget", 1) ∷ [];
  total_count = 0;
}

abbrev pub resolve_type : Sources → SendTargetType → SendTargetSpec → ℕ → Bool → TargetResolution
resolve_type e rooms target m for_send = rooms_of_spec e target m for_send
resolve_type e filter target m for_send = resolve_filter_target e target.filter m for_send
resolve_type e SendTargetType.all target m for_send =
    resolve_filter_target e target.filter m for_send
resolve_type e group target m for_send = unsupported

abbrev pub limit_or : Option ℕ → ℕ → ℕ
limit_or none n = n
limit_or (some m) n = m

-- The spec of the group, where the target is one.
abbrev pub ungrouped : SendTargetType → GroupTables → SendTargetSpec → SendTargetSpec
ungrouped group t target = resolve_group_target_spec target t
ungrouped _ t target = target

-- `resolve_target_spec`
unfoldable pub resolve_target_spec : Sources → SendTargetSpec → Option ℕ → Bool → TargetResolution
unfolding resolve_group_target_spec resolve_rooms_target resolve_filter_target merge_resolutions
    has_filter_terms
resolve_target_spec e target max_targets for_send =
    let spec = ungrouped target.type e.groups target in
    resolve_type e spec.type spec (limit_or max_targets e.max_targets) for_send
