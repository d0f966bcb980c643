-- ===== src/Messages/Edits.antt =====
-- app/repositories/messages.py: the statements that change a stored message, or read one. The index for the
-- full text search is not modelled.
use kakao_x_termux.Prelude.{
  ℕ, String, Option, none, some, Bool, true, false, List, [], ◌∷◌, ◌==◌, ◌&&◌, ◌||◌, not, is_some,
  or_else, if◌then◌else◌,
}
use kakao_x_termux.Schemas.{BridgeEvent, MessageType}
use kakao_x_termux.Messages.{MessageRow}

-- `get_message`
unfoldable pub get_message : String → Bool → List MessageRow → Option MessageRow
get_message event_id include_deleted [] = none
get_message event_id include_deleted (row ∷ rows) =
    if (row.event.event_id == event_id) && (include_deleted || not (is_some row.deleted_at))
    then some row
    else get_message event_id include_deleted rows

-- The columns that `update_message` allows, as far as they are given. A null room, text or type, which the table
-- refuses, is not modelled.
pub record Updates : Type 0 where
  pub room : Option String
  pub sender : Option (Option String)
  pub text : Option String
  pub message_type : Option MessageType

abbrev given {ℓ} : {A : Type ℓ} → Option A → A → A
given none old = old
given (some new) old = new

unfoldable pub assign : Updates → BridgeEvent → BridgeEvent
assign u e = record e {
  room = given u.room e.room;
  sender = given u.sender e.sender;
  text = given u.text e.text;
  message_type = given u.message_type e.message_type;
}

abbrev no_assignments : Updates → Bool
no_assignments u =
    not (is_some u.room)
    && not (is_some u.sender)
    && not (is_some u.text)
    && not (is_some u.message_type)

unfoldable pub set_columns : String → Updates → ℕ → List MessageRow → List MessageRow
unfolding assign
set_columns event_id u current [] = []
set_columns event_id u current (row ∷ rows) =
    (if (row.event.event_id == event_id) && not (is_some row.deleted_at)
      then record row { event = assign u row.event; updated_at = current }
      else row)
    ∷ set_columns event_id u current rows

-- `update_message`; its UPDATE counts the rows that are not deleted.
unfoldable pub update_message :
    String → Updates → ℕ → List MessageRow → List MessageRow × Option MessageRow
unfolding get_message set_columns
update_message event_id u current rows =
    if no_assignments u
    then (rows, get_message event_id false rows)
    else if is_some (get_message event_id false rows)
    then (
      set_columns event_id u current rows,
      get_message event_id true (set_columns event_id u current rows),
    )
    else (rows, none)

abbrev pub emptied : String → ℕ → MessageRow → MessageRow
emptied event_id current row =
    if row.event.event_id == event_id
    then record row {
      event = record row.event { text = "" };
      updated_at = current;
      deleted_at = or_else row.deleted_at (some current);
    }
    else row

unfoldable pub set_deleted : String → ℕ → List MessageRow → List MessageRow
set_deleted event_id current [] = []
set_deleted event_id current (row ∷ rows) =
    emptied event_id current row ∷ set_deleted event_id current rows

-- `soft_delete_message`
unfoldable pub soft_delete_message :
    String → ℕ → List MessageRow → List MessageRow × Option MessageRow
unfolding get_message set_deleted
soft_delete_message event_id current rows =
    let rows' = set_deleted event_id current rows in (rows', get_message event_id true rows')
