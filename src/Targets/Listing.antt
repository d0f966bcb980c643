-- ===== src/Targets/Listing.antt =====
-- app/services/send_target_service.py: the pages of `/send/targets`, the preview and the health figures.
use kakao_x_termux.Prelude.{
  ℕ, String, Option, none, some, Bool, true, false, List, [], ◌∷◌, length, eqb, map, max, min, take,
  if◌then◌else◌,
}
use kakao_x_termux.Schemas.{SourceType}
use kakao_x_termux.ReplyJobs.{ReplyJobStatus}
use kakao_x_termux.Targets.{
  TargetStatus, TargetRow, target_status, recent_failure, RoomType, room_type,
}
use kakao_x_termux.Targets.Query.{
  SendTargetFilter, Cursor, cursor_for_row, query_latest_targets, count_latest_send_targets,
  TargetCounts,
}
use kakao_x_termux.Targets.Groups.{SendTargetSpec, no_filter}
use kakao_x_termux.Targets.Resolve.{
  Sources, token_of, ResolvedTarget, resolve_target_spec, sum_values,
}
use kakao_x_termux.Dict.{Dict}

pub record SendTargetItem : Type 0 where
  pub room_key : String
  pub room : String
  pub room_alias : Option String
  pub last_sender : Option String
  pub source_type : SourceType
  pub room_type : RoomType
  pub target_status : TargetStatus
  pub reply_token_expires_at : Option ℕ
  pub last_seen_at : ℕ
  pub last_send_status : Option ReplyJobStatus
  pub has_recent_failure : Bool

-- `_mask_sender`
abbrev mask_sender : Option String → Bool → Option String
mask_sender none include_raw = none
mask_sender (some s) include_raw = if include_raw then some s else some "<redacted>"

unfoldable pub target_item : Sources → Bool → TargetRow → SendTargetItem
unfolding room_type target_status
target_item e include_raw r = record {
  room_key = r.room_key;
  room = r.room;
  room_alias = none;
  last_sender = mask_sender r.sender include_raw;
  source_type = r.source_type;
  room_type = room_type r.sender_count;
  target_status =
      target_status (token_of e.cache r).0 (token_of e.cache r).1 e.now e.safety_window_ms;
  reply_token_expires_at = (token_of e.cache r).1;
  last_seen_at = r.received_at;
  last_send_status = r.last_send_status;
  has_recent_failure = recent_failure r.last_send_status;
}

unfoldable pub last_row : List TargetRow → Option TargetRow
last_row [] = none
last_row (r ∷ []) = some r
last_row (r ∷ q ∷ rows) = last_row (q ∷ rows)

-- A full page has a cursor for what follows.
abbrev pub next_cursor : ℕ → List TargetRow → Option Cursor
next_cursor limit rows =
    if eqb (length rows) limit
    then elim (last_row rows) [ none ↦ none | some r ↦ some (cursor_for_row r) ]
    else none

abbrev pub effective_limit : Sources → ℕ → ℕ
effective_limit e limit = max (min limit e.max_page_size) 1

-- `list_targets`
unfoldable pub list_targets :
    Sources → SendTargetFilter → ℕ → Option Cursor → Bool → List SendTargetItem × Option Cursor
unfolding target_item query_latest_targets last_row
list_targets e f limit cursor include_raw =
    let n = effective_limit e limit in
    let rows =
      query_latest_targets e.like f n cursor e.now e.safety_window_ms e.allowed_source_types
        e.messages e.db in
    (map (target_item e include_raw) rows, next_cursor n rows)

pub record Preview : Type 0 where
  pub ok : Bool
  pub target_count : ℕ
  pub excluded_count : ℕ
  pub excluded_reasons : Dict ℕ
  pub sample : List (String × String × TargetStatus)

abbrev sample_of : Sources → ResolvedTarget → String × String × TargetStatus
sample_of e t = (
  t.room_key,
  t.room,
  target_status t.reply_token t.reply_token_expires_at e.now e.safety_window_ms,
)

-- `preview_target_spec`
unfoldable pub preview_target_spec : Sources → SendTargetSpec → Option ℕ → Preview
unfolding resolve_target_spec sum_values target_status
preview_target_spec e target max_targets =
    let r = resolve_target_spec e target max_targets false in
    record {
      ok = true;
      target_count = length r.targets;
      excluded_count = sum_values r.excluded_reasons;
      excluded_reasons = r.excluded_reasons;
      sample = map (sample_of e) (take 3 r.targets);
    }

-- `stats`
unfoldable pub stats : Sources → TargetCounts
unfolding count_latest_send_targets
stats e =
    count_latest_send_targets e.like no_filter e.now e.safety_window_ms e.allowed_source_types
      e.messages e.db
