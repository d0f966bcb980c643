-- ===== src/Messages/Deletion.antt =====
-- What the deletion of a message changes, for readers and for a recovery.
use kakao_x_termux.Prelude.{ℕ, String, ◌≡◌, Option, none, some, ◌==◌, if◌then◌else◌}
use kakao_x_termux.Messages.{MessageRow}

abbrev pub deletion_time : MessageRow → Option ℕ
deletion_time row = row.deleted_at

-- What a recovery replays of a row, and what of it where the text of a message is gone.
abbrev pub replayed : MessageRow → String × String
replayed row = (row.event.event_id, row.event.text)

abbrev pub without_text : String → MessageRow → String × String
without_text event_id row =
    (row.event.event_id, if row.event.event_id == event_id then "" else row.event.text)

-- No row, or one whose text is empty.
abbrev pub Emptied : Option MessageRow → Type 0
Emptied none = Unit
Emptied (some row) = row.event.text ≡ ""
