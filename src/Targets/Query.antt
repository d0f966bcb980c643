-- ===== src/Targets/Query.antt =====
-- app/repositories/send_targets.py: the `WHERE` clause, the cursor, the pages and the counts. `like` is
-- SQLite's test that a text in lower case is LIKE `%q%`, which the source leaves to SQLite.
use kakao_x_termux.Prelude.{
  ℕ, suc, ◌+◌, String, Option, none, some, Bool, true, false, List, [], ◌∷◌, ◌&&◌, ◌||◌, not, leb,
  ltb, eqb, keep_if, ◌==◌, if◌then◌else◌, max, min, take, is_some, is_empty,
}
use kakao_x_termux.Prelude.Texts.{contains}
use kakao_x_termux.Prelude.Sorting.{text_ltb, sort_by}
use kakao_x_termux.Schemas.{SourceType, real_kakao, virtual_phone}
use kakao_x_termux.Messages.{MessageRow}
use kakao_x_termux.ReplyJobs.{Db}
use kakao_x_termux.Targets.{
  TargetStatus, available, expiring, expired, unknown, all, TargetSourceFilter, only, every,
  RoomType, direct, group, TargetRow, base_latest_target_query, classify_target_status, room_type,
  recent_failure,
}

pub record SendTargetFilter : Type 0 where
  pub q : Option String
  pub status : TargetStatus
  pub source_type : TargetSourceFilter
  pub room_type : Option RoomType
  pub seen_after : Option ℕ
  pub seen_before : Option ℕ
  pub expires_after : Option ℕ
  pub expires_before : Option ℕ
  pub has_recent_failure : Option Bool

-- A comparison in SQL: with NULL it does not hold.
abbrev at_least : Option ℕ → ℕ → Bool
at_least none n = false
at_least (some x) n = leb n x

abbrev at_most : Option ℕ → ℕ → Bool
at_most none n = false
at_most (some x) n = leb x n

abbrev greater : Option ℕ → ℕ → Bool
greater none n = false
greater (some x) n = ltb n x

abbrev optional {ℓ} : {A : Type ℓ} → Option A → (A → Bool) → Bool
optional none test = true
optional (some a) test = test a

-- `_status_clause`
unfoldable pub status_clause : TargetStatus → ℕ → ℕ → Option String → Option ℕ → Bool
status_clause available now window t at = is_some t && (is_some at && greater at (now + window))
status_clause expiring now window t at =
    is_some t && (is_some at && (greater at now && at_most at (now + window)))
status_clause expired now window t at = not (is_some t) || (not (is_some at) || at_most at now)
status_clause unknown now window t at = is_some t && not (is_some at)
status_clause all now window t at = true

abbrev pub source_value : SourceType → String
source_value real_kakao = "real_kakao"
source_value virtual_phone = "virtual_phone"

abbrev source_is : TargetSourceFilter → SourceType → Bool
source_is every s = true
source_is (only real_kakao) real_kakao = true
source_is (only virtual_phone) virtual_phone = true
source_is (only _) s = false

abbrev room_type_is : RoomType → RoomType → Bool
room_type_is direct direct = true
room_type_is group group = true
room_type_is RoomType.unknown RoomType.unknown = true
room_type_is _ _ = false

abbrev sender_text : Option String → String
sender_text none = ""
sender_text (some s) = s

abbrev term_found : (String → String → Bool) → Option String → TargetRow → Bool
term_found like none r = true
term_found like (some q) r =
    (q == "") || (like q r.room_key || (like q r.room || like q (sender_text r.sender)))

-- `_where_clause`
unfoldable pub where_clause :
    (String → String → Bool) → SendTargetFilter → ℕ → ℕ → List String → TargetRow → Bool
unfolding status_clause room_type
where_clause like f now window allowed_source_types r =
    term_found like f.q r
    && (source_is f.source_type r.source_type
        && ((is_empty allowed_source_types
              || contains (source_value r.source_type) allowed_source_types)
            && (optional f.room_type (room_type_is (room_type r.sender_count))
                && (optional f.seen_after (λ t. leb t r.received_at)
                    && (optional f.seen_before (λ t. leb r.received_at t)
                        && (optional f.expires_after (at_least r.reply_token_expires_at)
                            && (optional f.expires_before (at_most r.reply_token_expires_at)
                                && (failure_clause f.has_recent_failure r
                                    && status_clause f.status now window r.reply_token
                                        r.reply_token_expires_at))))))))
  where
    failure_clause : Option Bool → TargetRow → Bool
    failure_clause none r = true
    failure_clause (some true) r = recent_failure r.last_send_status
    failure_clause (some false) r = not (recent_failure r.last_send_status)

-- The parts of a cursor's text; a text that does not parse gives no cursor.
pub record Cursor : Type 0 where
  pub received_at : ℕ
  pub message_id : ℕ
  pub room_key : String

-- `_cursor_for_row`
abbrev pub cursor_for_row : TargetRow → Cursor
cursor_for_row r = record {
  received_at = r.received_at;
  message_id = r.message_id;
  room_key = r.room_key;
}

-- `_cursor_clause`
unfoldable pub after_cursor : Cursor → TargetRow → Bool
unfolding text_ltb
after_cursor c r =
    ltb r.received_at c.received_at
    || ((eqb r.received_at c.received_at && text_ltb c.room_key r.room_key)
        || (eqb r.received_at c.received_at
            && ((r.room_key == c.room_key) && ltb r.message_id c.message_id)))

abbrev cursor_clause : Option Cursor → TargetRow → Bool
cursor_clause none r = true
cursor_clause (some c) r = after_cursor c r

-- `ORDER BY lm.received_at DESC, lm.room_key ASC, lm.message_id DESC`
unfoldable pub row_before : TargetRow → TargetRow → Bool
unfolding after_cursor
row_before a b = after_cursor (cursor_for_row a) b

-- The rows that pass a test, sorted.
unfoldable pub sorted_rows : (TargetRow → Bool) → List MessageRow → Db → List TargetRow
unfolding sort_by row_before base_latest_target_query
sorted_rows test messages db =
    sort_by row_before (keep_if test (base_latest_target_query messages db))

-- `_query_latest_targets`
unfoldable pub query_latest_targets :
    (String → String → Bool)
    → SendTargetFilter
    → ℕ
    → Option Cursor
    → ℕ
    → ℕ
    → List String
    → List MessageRow
    → Db
    → List TargetRow
unfolding where_clause sorted_rows
query_latest_targets like f limit cursor now window allowed messages db =
    take (max (min limit 10000) 1) (
      sorted_rows (λ r. where_clause like f now window allowed r && cursor_clause cursor r) messages
        db)

-- `dict.fromkeys(room_keys)`, read from the front, with the keys seen so far.
unfoldable pub unique_keys : List String → List String → List String
unfolding contains
unique_keys seen [] = []
unique_keys seen (k ∷ ks) =
    let rest = unique_keys (k ∷ seen) ks in if contains k seen then rest else k ∷ rest

-- `get_latest_send_targets_for_room_keys`
unfoldable pub get_latest_send_targets_for_room_keys :
    List String → List MessageRow → Db → List TargetRow
unfolding sorted_rows contains
get_latest_send_targets_for_room_keys room_keys messages db =
    sorted_rows (λ r. contains r.room_key room_keys && not (r.room_key == "")) messages db

pub record TargetCounts : Type 0 where
  pub total : ℕ
  pub available : ℕ
  pub expiring : ℕ
  pub expired : ℕ
  pub unknown : ℕ

abbrev add_status : TargetStatus → TargetCounts → TargetCounts
add_status TargetStatus.available c = record c { total = suc c.total; available = suc c.available }
add_status TargetStatus.expiring c = record c { total = suc c.total; expiring = suc c.expiring }
add_status TargetStatus.expired c = record c { total = suc c.total; expired = suc c.expired }
add_status TargetStatus.unknown c = record c { total = suc c.total; unknown = suc c.unknown }
add_status TargetStatus.all c = record c { total = suc c.total }

unfoldable pub count_rows : ℕ → ℕ → List TargetRow → TargetCounts
unfolding classify_target_status
count_rows now window [] = record {
  total = 0;
  available = 0;
  expiring = 0;
  expired = 0;
  unknown = 0;
}
count_rows now window (r ∷ rows) =
    add_status (classify_target_status r.reply_token r.reply_token_expires_at now window)
      (count_rows now window rows)

-- `count_latest_send_targets`
unfoldable pub count_latest_send_targets :
    (String → String → Bool)
    → SendTargetFilter
    → ℕ
    → ℕ
    → List String
    → List MessageRow
    → Db
    → TargetCounts
unfolding count_rows query_latest_targets
count_latest_send_targets like f now window allowed messages db = count_rows now window (
    query_latest_targets like (record f { status = TargetStatus.all }) 10000 none now window allowed
      messages db)
