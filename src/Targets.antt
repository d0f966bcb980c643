-- ===== src/Targets.antt =====
-- app/repositories/send_targets.py and app/services/send_target_service.py: the rooms that a message can
-- be sent to, each by its newest message, and their status for a sender.
pub mod Query
pub mod Copies
pub mod Listing
pub mod Groups
pub mod Resolve
pub mod Status
pub mod Accounting
pub mod Rooms
pub mod Saved
use kakao_x_termux.Prelude.{
  ℕ, suc, ◌+◌, String, Option, none, some, Bool, true, false, List, [], ◌∷◌, ◌&&◌, ◌||◌, not, leb,
  ltb, eqb, length, keep_if, ◌==◌, if◌then◌else◌,
}
use kakao_x_termux.Prelude.Texts.{add}
use kakao_x_termux.Schemas.{SourceType, real_kakao, virtual_phone}
use kakao_x_termux.Messages.{MessageRow}
use kakao_x_termux.ReplyJobs.{ReplyJob, ReplyJobStatus, failed, token_expired, handle_expired, Db}

pub data TargetStatus : Type 0 where
  available expiring expired unknown all : TargetStatus

pub data TargetSourceFilter : Type 0 where
  only : SourceType → TargetSourceFilter
  every : TargetSourceFilter

pub data RoomType : Type 0 where
  direct group unknown : RoomType

-- A row of the query: the newest message of a room, with the newest job of the room.
pub record TargetRow : Type 0 where
  pub message_id : ℕ
  pub room_key : String
  pub room : String
  pub sender : Option String
  pub source_type : SourceType
  pub reply_token : Option String
  pub reply_token_expires_at : Option ℕ
  pub received_at : ℕ
  pub sender_count : ℕ
  pub last_send_status : Option ReplyJobStatus
  pub last_send_at : Option ℕ

-- The messages with their ids, which SQLite gives in the order of the insertions.
abbrev pub Numbered : Type 0
Numbered = List (ℕ × MessageRow)

unfoldable pub number_from : ℕ → List MessageRow → Numbered
number_from n [] = []
number_from n (m ∷ ms) = (n, m) ∷ number_from (suc n) ms

-- `ORDER BY m1.received_at DESC, m1.id DESC LIMIT 1` among the messages of a room.
unfoldable pub newest_id : String → Numbered → Option (ℕ × ℕ)
newest_id room_key [] = none
newest_id room_key ((id, m) ∷ ms) = elim (newest_id room_key ms) [
  | none ↦ if m.event.room_key == room_key then some (id, m.event.received_at) else none
  | some (other, at) ↦
      if (m.event.room_key == room_key) && ltb at m.event.received_at
      then some (id, m.event.received_at)
      else some (other, at)
]

abbrev pub is_newest : Numbered → ℕ × MessageRow → Bool
is_newest ms (id, m) = elim (newest_id m.event.room_key ms) [
  | none ↦ false
  | some (other, at) ↦ eqb other id
]

-- `COUNT(DISTINCT m2.sender)`, without the senders that are NULL or empty.
abbrev add_sender : Option String → List String → List String
add_sender none senders = senders
add_sender (some s) senders = if s == "" then senders else add s senders

unfoldable pub senders_of : String → Numbered → List String
senders_of room_key [] = []
senders_of room_key ((id, m) ∷ ms) =
    let rest = senders_of room_key ms in
    if m.event.room_key == room_key then add_sender m.event.sender rest else rest

-- The newest job of a room; the table is in the order of the ids.
unfoldable pub newest_job : String → Db → Option ReplyJob
newest_job room_key [] = none
newest_job room_key ((k, job) ∷ db) = elim (newest_job room_key db) [
  | none ↦ if job.room_key == room_key then some job else none
  | some other ↦
      if (job.room_key == room_key) && ltb other.created_at job.created_at
      then some job
      else some other
]

unfoldable pub target_row : Numbered → Db → ℕ × MessageRow → TargetRow
unfolding senders_of newest_job
target_row ms db (id, m) = record {
  message_id = id;
  room_key = m.event.room_key;
  room = m.event.room;
  sender = m.event.sender;
  source_type = m.event.source_type;
  reply_token = m.event.reply_token;
  reply_token_expires_at = m.event.reply_token_expires_at;
  received_at = m.event.received_at;
  sender_count = length (senders_of m.event.room_key ms);
  last_send_status = elim (newest_job m.event.room_key db) [
    | none ↦ none
    | some job ↦ some job.status
  ];
  last_send_at = elim (newest_job m.event.room_key db) [
    | none ↦ none
    | some job ↦ some job.created_at
  ];
}

unfoldable pub rows_of : Numbered → Numbered → Db → List TargetRow
unfolding target_row newest_id
rows_of ms [] db = []
rows_of ms (m ∷ rest) db =
    let rows = rows_of ms rest db in if is_newest ms m then target_row ms db m ∷ rows else rows

-- `_base_latest_target_query`
unfoldable pub base_latest_target_query : List MessageRow → Db → List TargetRow
unfolding rows_of number_from
base_latest_target_query messages db = rows_of (number_from 1 messages) (number_from 1 messages) db

-- `_target_status` of the service.
unfoldable pub target_status : Option String → Option ℕ → ℕ → ℕ → TargetStatus
target_status none expires_at now window = expired
target_status (some t) none now window = unknown
target_status (some t) (some at) now window =
    if leb at now then expired else if leb at (now + window) then expiring else available

-- `_classify_target_status` of the repository.
abbrev pub without_token : Option String → TargetStatus
without_token none = expired
without_token (some t) = unknown

unfoldable pub classify_target_status : Option String → Option ℕ → ℕ → ℕ → TargetStatus
classify_target_status reply_token none now window = without_token reply_token
classify_target_status none (some at) now window = expired
classify_target_status (some t) (some at) now window =
    if leb at now then expired else if leb at (now + window) then expiring else available

-- `_room_type`, and the same rule in the `WHERE` clause.
unfoldable pub room_type : ℕ → RoomType
room_type n = if ltb 1 n then group else if eqb n 1 then direct else unknown

abbrev pub recent_failure : Option ReplyJobStatus → Bool
recent_failure (some failed) = true
recent_failure (some token_expired) = true
recent_failure (some handle_expired) = true
recent_failure _ = false
