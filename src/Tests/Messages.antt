-- ===== src/Tests/Messages.antt =====
-- The management of messages on a table of two rows.
use kakao_x_termux.Prelude.{false, none, some, List, [], ◌∷◌}
use kakao_x_termux.Messages.{MessageRow}
use kakao_x_termux.Messages.Edits.{Updates}
use kakao_x_termux.Messages.Pages.{Filter}
use kakao_x_termux.Tests.Recoveries.{stored_message}

abbrev other_message : MessageRow
other_message = record stored_message {
  event = record stored_message.event { event_id = "other"; text = "two"; received_at = 9 };
}

abbrev table : List MessageRow
table = stored_message ∷ other_message ∷ []

abbrev new_text : Updates
new_text = record { room = none; sender = none; text = some "new"; message_type = none }

abbrev every : Filter
every = record {
  room_key = none;
  sender = none;
  source_type = none;
  message_type = none;
  received_after = none;
  received_before = none;
  include_deleted = false;
}
