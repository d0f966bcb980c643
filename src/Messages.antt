-- ===== src/Messages.antt =====
-- app/repositories/messages.py and the reply token cache of app/infra/memory_caches.py: the table
-- `messages`, whose rows stand in the order of their `id`, and the newest reply tokens.
pub mod Tokens
pub mod Edits
pub mod Deletion
pub mod Pages
use kakao_x_termux.Prelude.{
  ℕ, String, Option, none, some, Bool, true, false, List, [], ◌∷◌, ◌++◌, ◌&&◌, ◌||◌, not, max, min,
  ltb, leb, take, keep_if, ◌==◌, if◌then◌else◌, is_some,
}
use kakao_x_termux.Dict.{Dict, lookup, insert}
use kakao_x_termux.Schemas.{BridgeEvent}

pub record MessageRow : Type 0 where
  pub event : BridgeEvent
  pub processed : Bool
  pub created_at : ℕ
  pub updated_at : ℕ
  pub deleted_at : Option ℕ

unfoldable pub has_event : String → List MessageRow → Bool
has_event event_id [] = false
has_event event_id (row ∷ rows) = (row.event.event_id == event_id) || has_event event_id rows

-- A repeated `event_id` raises `IntegrityError`, which is answered by False.
unfoldable pub insert_message : BridgeEvent → ℕ → List MessageRow → List MessageRow × Bool
unfolding has_event
insert_message event current rows = if has_event event.event_id rows then (rows, false) else (
  rows
      ++ (record {
        event = event;
        processed = false;
        created_at = current;
        updated_at = current;
        deleted_at = none;
      })
        ∷ [],
  true,
)

unfoldable pub mark_message_processed : String → List MessageRow → List MessageRow
mark_message_processed event_id [] = []
mark_message_processed event_id (row ∷ rows) =
    (if row.event.event_id == event_id then record row { processed = true } else row)
    ∷ mark_message_processed event_id rows

-- `ORDER BY received_at DESC, id DESC LIMIT 1` among the rows that pass a test.
unfoldable pub newest : (MessageRow → Bool) → List MessageRow → Option MessageRow
newest test [] = none
newest test (row ∷ rows) = elim (newest test rows) [
  | none ↦ if test row then some row else none
  | some other ↦
      if test row && ltb other.event.received_at row.event.received_at then some row else some other
]

unfoldable pub latest_reply_token : String → List MessageRow → Option String × Option ℕ
unfolding newest
latest_reply_token room_key rows =
    elim (newest (λ row. (row.event.room_key == room_key) && is_some row.event.reply_token) rows) [
      | none ↦ (none, none)
      | some row ↦ (row.event.reply_token, row.event.reply_token_expires_at)
    ]

abbrev has_token : String → Option String → Bool
has_token token none = false
has_token token (some t) = t == token

unfoldable pub expires_at_for_token : String → List MessageRow → Option ℕ
unfolding newest
expires_at_for_token token rows =
    elim (newest (λ row. has_token token row.event.reply_token) rows) [
      | none ↦ none
      | some row ↦ row.event.reply_token_expires_at
    ]
