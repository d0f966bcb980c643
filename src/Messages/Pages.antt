-- ===== src/Messages/Pages.antt =====
-- app/repositories/messages.py, list_messages, and the pages of app/services/message_service.py. A row has its
-- place in the table as its id, since no row of the table is ever removed.
use kakao_x_termux.Prelude.{
  ℕ, ◌+◌, String, Option, none, some, Bool, true, false, List, [], ◌∷◌, ◌==◌, ◌&&◌, ◌||◌, not, eqb,
  ltb, leb, is_some, min, max, take, keep_if, length, if◌then◌else◌,
}
use kakao_x_termux.Prelude.Sorting.{sort_by}
use kakao_x_termux.Schemas.{SourceType, real_kakao, virtual_phone, MessageType, text_message}
use kakao_x_termux.Messages.{MessageRow}

pub record Filter : Type 0 where
  pub room_key : Option String
  pub sender : Option String
  pub source_type : Option String
  pub message_type : Option String
  pub received_after : Option ℕ
  pub received_before : Option ℕ
  pub include_deleted : Bool

abbrev Numbered : Type 0
Numbered = ℕ × MessageRow

unfoldable pub numbered : ℕ → List MessageRow → List Numbered
numbered n [] = []
numbered n (row ∷ rows) = (n, row) ∷ numbered (n + 1) rows

abbrev when {ℓ} : {A : Type ℓ} → Option A → (A → Bool) → Bool
when none test = true
when (some a) test = test a

-- The values of the types as they are stored.
abbrev source_value : SourceType → String
source_value real_kakao = "real_kakao"
source_value virtual_phone = "virtual_phone"

abbrev message_value : MessageType → String
message_value text_message = "text"

-- `_message_filter_clause`
unfoldable pub passes : Filter → MessageRow → Bool
passes f row =
    (f.include_deleted || not (is_some row.deleted_at))
    && when f.room_key (λ k. row.event.room_key == k)
    && when f.sender (λ s. elim row.event.sender [ none ↦ false | some t ↦ t == s ])
    && when f.source_type (λ t. source_value row.event.source_type == t)
    && when f.message_type (λ t. message_value row.event.message_type == t)
    && when f.received_after (λ t. leb t row.event.received_at)
    && when f.received_before (λ t. leb row.event.received_at t)

-- `_cursor_clause`, on a cursor that is read as a time and an id.
unfoldable pub behind_cursor : Option (ℕ × ℕ) → Numbered → Bool
behind_cursor none row = true
behind_cursor (some (received_at, id)) (n, row) =
    ltb row.event.received_at received_at || (eqb row.event.received_at received_at && ltb n id)

-- `ORDER BY m.received_at DESC, m.id DESC`
unfoldable pub newer : Numbered → Numbered → Bool
newer (m, a) (n, b) =
    ltb b.event.received_at a.event.received_at
    || (eqb a.event.received_at b.event.received_at && ltb n m)

-- What `list_messages` selects, before its LIMIT.
unfoldable pub selected : Filter → Option (ℕ × ℕ) → List MessageRow → List Numbered
unfolding numbered passes behind_cursor newer
selected f cursor rows =
    sort_by newer (keep_if (λ r. passes f r.1 && behind_cursor cursor r) (numbered 1 rows))

unfoldable pub list_messages : Filter → ℕ → Option (ℕ × ℕ) → List MessageRow → List Numbered
unfolding selected
list_messages f limit cursor rows = take (max (min limit 200) 1) (selected f cursor rows)

unfoldable pub last_of : List Numbered → Option (ℕ × ℕ)
last_of [] = none
last_of ((n, row) ∷ []) = some (row.event.received_at, n)
last_of (r ∷ s ∷ rows) = last_of (s ∷ rows)

-- `_page`
unfoldable pub page : List Numbered → ℕ → List Numbered × Option (ℕ × ℕ)
unfolding last_of
page rows effective_limit =
    let page_rows = take effective_limit rows in
    (page_rows, if ltb effective_limit (length rows) then last_of page_rows else none)

-- `MessageService.list`, behind the test of the token.
unfoldable pub list_page :
    Filter → ℕ → Option (ℕ × ℕ) → List MessageRow → List Numbered × Option (ℕ × ℕ)
unfolding list_messages page
list_page f limit cursor rows =
    let effective_limit = max (min limit 200) 1 in
    page (list_messages f (effective_limit + 1) cursor rows) effective_limit
