-- ===== src/Batches.antt =====
-- app/repositories/send_batches.py: the tables `send_batches` and `send_batch_items`. The items stand in
-- the order of their ids, which SQLite gives in the order of the insertions.
pub mod Service
pub mod Create
pub mod Totals
pub mod Agreement
pub mod Status
pub mod Life
pub mod Pages
pub mod Repeats
use kakao_x_termux.Prelude.{
  ℕ, suc, ◌+◌, String, Option, none, some, Bool, true, false, List, [], ◌∷◌, ◌++◌, ◌&&◌, ◌||◌, not,
  ltb, max, min, take, keep_if, map, ◌==◌, if◌then◌else◌, or_else,
}
use mathlib.Core.List.{reverse}
use kakao_x_termux.Prelude.Texts.{contains}
use kakao_x_termux.Prelude.Sorting.{sort_by, text_ltb}
use kakao_x_termux.Dict.{Dict, lookup, insert}
use kakao_x_termux.Schemas.{Json}

pub data SendBatchStatus : Type 0 where
  dry_run queued running completed failed canceled : SendBatchStatus

pub data SendBatchItemStatus : Type 0 where
  queued sent failed token_expired handle_expired skipped : SendBatchItemStatus

-- The columns `queued_count` to `skipped_count`.
pub record Counts : Type 0 where
  pub queued : ℕ
  pub sent : ℕ
  pub failed : ℕ
  pub expired : ℕ
  pub skipped : ℕ

pub record SendBatch : Type 0 where
  pub target_type : String
  pub target_json : Json
  pub text_hash : String
  pub text_preview : String
  pub status : SendBatchStatus
  pub target_count : ℕ
  pub counts : Counts
  pub created_at : ℕ
  pub updated_at : ℕ
  pub completed_at : Option ℕ

pub record SendBatchItem : Type 0 where
  pub id : ℕ
  pub batch_id : String
  pub room_key : String
  pub room : String
  pub job_id : Option String
  pub status : SendBatchItemStatus
  pub skip_reason : Option String
  pub created_at : ℕ
  pub updated_at : ℕ

-- The batches by `batch_id`, the items, and the id that the next item gets.
pub record BatchTables : Type 0 where
  pub batches : Dict SendBatch
  pub items : List SendBatchItem
  pub next_id : ℕ

abbrev pub item_status_eq : SendBatchItemStatus → SendBatchItemStatus → Bool
item_status_eq queued queued = true
item_status_eq sent sent = true
item_status_eq failed failed = true
item_status_eq token_expired token_expired = true
item_status_eq handle_expired handle_expired = true
item_status_eq skipped skipped = true
item_status_eq _ _ = false

abbrev pub batch_status_eq : SendBatchStatus → SendBatchStatus → Bool
batch_status_eq dry_run dry_run = true
batch_status_eq queued queued = true
batch_status_eq running running = true
batch_status_eq completed completed = true
batch_status_eq failed failed = true
batch_status_eq canceled canceled = true
batch_status_eq _ _ = false

abbrev pub is_final : SendBatchStatus → Bool
is_final completed = true
is_final failed = true
is_final canceled = true
is_final _ = false

-- `insert_send_batch`; a `batch_id` that is taken raises `IntegrityError`, here `none`.
unfoldable pub insert_send_batch :
    String
    → String
    → Json
    → String
    → String
    → SendBatchStatus
    → ℕ
    → Counts
    → ℕ
    → BatchTables
    → Option BatchTables
insert_send_batch batch_id target_type target_json text_hash text_preview status target_count counts
      now t =
    elim (lookup batch_id t.batches) [
      | some b ↦ none
      | none ↦ some (record t {
        batches =
            insert batch_id
              (record {
                target_type = target_type;
                target_json = target_json;
                text_hash = text_hash;
                text_preview = text_preview;
                status = status;
                target_count = target_count;
                counts = counts;
                created_at = now;
                updated_at = now;
                completed_at = if is_final status then some now else none;
              })
              t.batches;
      })
    ]

unfoldable pub get_send_batch : String → BatchTables → Option SendBatch
get_send_batch batch_id t = lookup batch_id t.batches

abbrev pub with_counts : SendBatchStatus → ℕ → Counts → Option ℕ → ℕ → SendBatch → SendBatch
with_counts status target_count counts completed_at now b = record b {
  status = status;
  target_count = target_count;
  counts = counts;
  updated_at = now;
  completed_at = completed_at;
}

unfoldable pub update_send_batch_counts :
    String → SendBatchStatus → ℕ → Counts → Option ℕ → ℕ → BatchTables → BatchTables
update_send_batch_counts batch_id status target_count counts completed_at now t =
    elim (lookup batch_id t.batches) [
      | none ↦ t
      | some b ↦ record t {
        batches =
            insert batch_id (with_counts status target_count counts completed_at now b) t.batches;
      }
    ]

abbrev pub is_row : String → String → SendBatchItem → Bool
is_row batch_id room_key r = (r.batch_id == batch_id) && (r.room_key == room_key)

unfoldable pub has_row : String → String → List SendBatchItem → Bool
has_row batch_id room_key [] = false
has_row batch_id room_key (r ∷ rows) = is_row batch_id room_key r || has_row batch_id room_key rows

-- `UPDATE send_batch_items … WHERE batch_id = ? AND room_key = ?`
unfoldable pub update_rows :
    String → String → (SendBatchItem → SendBatchItem) → List SendBatchItem → List SendBatchItem
update_rows batch_id room_key change [] = []
update_rows batch_id room_key change (r ∷ rows) =
    (if is_row batch_id room_key r then change r else r) ∷ update_rows batch_id room_key change rows

abbrev overwrite :
    String → Option String → SendBatchItemStatus → Option String → ℕ → SendBatchItem → SendBatchItem
overwrite room job_id status skip_reason now r = record r {
  room = room;
  job_id = job_id;
  status = status;
  skip_reason = skip_reason;
  updated_at = now;
}

-- `insert_send_batch_item`: `ON CONFLICT(batch_id, room_key) DO UPDATE`.
unfoldable pub insert_send_batch_item :
    String
    → String
    → String
    → Option String
    → SendBatchItemStatus
    → Option String
    → ℕ
    → BatchTables
    → BatchTables
unfolding has_row update_rows
insert_send_batch_item batch_id room_key room job_id status skip_reason now t =
    if has_row batch_id room_key t.items
    then record t {
      items = update_rows batch_id room_key (overwrite room job_id status skip_reason now) t.items;
    }
    else record t {
      items =
          t.items
          ++ record {
            id = t.next_id;
            batch_id = batch_id;
            room_key = room_key;
            room = room;
            job_id = job_id;
            status = status;
            skip_reason = skip_reason;
            created_at = now;
            updated_at = now;
          }
            ∷ [];
      next_id = suc t.next_id;
    }

-- The cursor of a listing: none, a text that is no number (which counts as -1), or an id.
pub data ItemCursor : Type 0 where
  no_cursor unreadable : ItemCursor
  after : ℕ → ItemCursor

abbrev pub behind : ItemCursor → SendBatchItem → Bool
behind no_cursor r = true
behind unreadable r = true
behind (after id) r = ltb id r.id

abbrev with_status : Option SendBatchItemStatus → SendBatchItem → Bool
with_status none r = true
with_status (some status) r = item_status_eq r.status status

unfoldable pub list_send_batch_items :
    String → ℕ → ItemCursor → Option SendBatchItemStatus → BatchTables → List SendBatchItem
list_send_batch_items batch_id limit cursor status t =
    take (max (min limit 1000) 1)
      (keep_if (λ r. (r.batch_id == batch_id) && (with_status status r && behind cursor r)) t.items)

abbrev has_job_in : List String → SendBatchItem → Bool
has_job_in ids r = elim r.job_id [ none ↦ false | some j ↦ not (j == "") && contains j ids ]

abbrev item_before : SendBatchItem → SendBatchItem → Bool
item_before a b = text_ltb a.batch_id b.batch_id

-- `ORDER BY batch_id ASC, id ASC`; the items are in the order of the ids already.
unfoldable pub list_send_batch_items_by_job_ids : List String → BatchTables → List SendBatchItem
unfolding contains sort_by text_ltb
list_send_batch_items_by_job_ids job_ids t =
    sort_by item_before (keep_if (has_job_in job_ids) t.items)

-- `ORDER BY created_at DESC, id DESC`: the table is read from its last row.
abbrev batch_before : String × SendBatch → String × SendBatch → Bool
batch_before (j, a) (k, b) = ltb b.created_at a.created_at

abbrev batch_with_status : Option SendBatchStatus → String × SendBatch → Bool
batch_with_status none r = true
batch_with_status (some status) r = batch_status_eq r.1.status status

unfoldable pub list_send_batches :
    ℕ → Option SendBatchStatus → BatchTables → List (String × SendBatch)
unfolding sort_by
list_send_batches limit status t =
    take (max (min limit 1000) 1)
      (sort_by batch_before (reverse (keep_if (batch_with_status status) t.batches)))

pub record BatchStatusCounts : Type 0 where
  pub dry_run : ℕ
  pub queued : ℕ
  pub running : ℕ
  pub completed : ℕ
  pub failed : ℕ
  pub canceled : ℕ

abbrev add_batch : SendBatchStatus → BatchStatusCounts → BatchStatusCounts
add_batch SendBatchStatus.dry_run c = record c { dry_run = suc c.dry_run }
add_batch SendBatchStatus.queued c = record c { queued = suc c.queued }
add_batch SendBatchStatus.running c = record c { running = suc c.running }
add_batch SendBatchStatus.completed c = record c { completed = suc c.completed }
add_batch SendBatchStatus.failed c = record c { failed = suc c.failed }
add_batch SendBatchStatus.canceled c = record c { canceled = suc c.canceled }

unfoldable pub count_batches : Dict SendBatch → BatchStatusCounts
count_batches [] = record {
  dry_run = 0;
  queued = 0;
  running = 0;
  completed = 0;
  failed = 0;
  canceled = 0;
}
count_batches ((k, b) ∷ d) = add_batch b.status (count_batches d)

-- `count_send_batches_by_status`
unfoldable pub count_send_batches_by_status : BatchTables → BatchStatusCounts
unfolding count_batches
count_send_batches_by_status t = count_batches t.batches

-- `SELECT COUNT(*) … WHERE batch_id = ? GROUP BY status`, for one status.
unfoldable pub count_items : String → SendBatchItemStatus → List SendBatchItem → ℕ
count_items batch_id status [] = 0
count_items batch_id status (r ∷ rows) =
    (if (r.batch_id == batch_id) && item_status_eq r.status status then 1 else 0)
    + count_items batch_id status rows

pub record ItemsSummary : Type 0 where
  pub queued : ℕ
  pub sent : ℕ
  pub failed : ℕ
  pub token_expired : ℕ
  pub handle_expired : ℕ
  pub skipped : ℕ

-- `get_send_batch_items_summary`
unfoldable pub get_send_batch_items_summary : String → BatchTables → ItemsSummary
unfolding count_items
get_send_batch_items_summary batch_id t = record {
  queued = count_items batch_id queued t.items;
  sent = count_items batch_id sent t.items;
  failed = count_items batch_id failed t.items;
  token_expired = count_items batch_id token_expired t.items;
  handle_expired = count_items batch_id handle_expired t.items;
  skipped = count_items batch_id skipped t.items;
}

abbrev pub with_item_status :
    SendBatchItemStatus → Option String → Option String → ℕ → SendBatchItem → SendBatchItem
with_item_status status skip_reason job_id now r = record r {
  status = status;
  skip_reason = or_else skip_reason r.skip_reason;
  job_id = or_else job_id r.job_id;
  updated_at = now;
}

-- `COALESCE(?, column)` keeps the column where the argument is NULL.
unfoldable pub update_send_batch_item_status :
    String
    → String
    → SendBatchItemStatus
    → Option String
    → Option String
    → ℕ
    → BatchTables
    → BatchTables
unfolding update_rows
update_send_batch_item_status batch_id room_key status skip_reason job_id now t = record t {
  items = update_rows batch_id room_key (with_item_status status skip_reason job_id now) t.items;
}
