-- ===== src/Messages/Tokens.antt =====
-- `ReplyTokenCache` of app/infra/memory_caches.py: the newest reply token of each room.
use kakao_x_termux.Prelude.{
  ℕ, String, ◌≡◌, refl, ap, ◌∙◌, Option, none, some, List, [], ◌∷◌, ◌==◌, if◌then◌else◌,
  Option-cases, inl, inr,
}
use kakao_x_termux.Dict.{Dict, lookup, insert, lookup-insert}
use kakao_x_termux.Schemas.{BridgeEvent}
use kakao_x_termux.Messages.{MessageRow, latest_reply_token, expires_at_for_token}

pub record ReplyTokenCache : Type 0 where
  pub by_room : Dict (Option String × Option ℕ)
  pub expires_by_token : Dict (Option ℕ)

-- `__init__`
abbrev pub empty_cache : ReplyTokenCache
empty_cache = record { by_room = []; expires_by_token = [] }

abbrev remember : String → String → Option ℕ → ReplyTokenCache → ReplyTokenCache
remember room_key token expires_at c = record {
  by_room = insert room_key (some token, expires_at) c.by_room;
  expires_by_token = insert token expires_at c.expires_by_token;
}

unfoldable pub update_from_event : BridgeEvent → ReplyTokenCache → ReplyTokenCache
update_from_event event c = elim event.reply_token [
  | none ↦ c
  | some token ↦ remember event.room_key token event.reply_token_expires_at c
]

unfoldable pub peek_latest_for_room : String → ReplyTokenCache → Option (Option String × Option ℕ)
peek_latest_for_room room_key c = lookup room_key c.by_room

unfoldable pub latest_for_room :
    String → List MessageRow → ReplyTokenCache → ReplyTokenCache × (Option String × Option ℕ)
unfolding peek_latest_for_room
latest_for_room room_key rows c = elim (peek_latest_for_room room_key c) [
  | some cached ↦ (c, cached)
  | none ↦
      (let (token, expires_at) = latest_reply_token room_key rows in
        (elim token [ none ↦ c | some t ↦ remember room_key t expires_at c ], (token, expires_at)))
]

unfoldable pub peek_expires_at_for_token : String → ReplyTokenCache → Option ℕ
peek_expires_at_for_token token c = elim (lookup token c.expires_by_token) [
  | none ↦ none
  | some e ↦ e
]

unfoldable pub cached_expires_at :
    String → List MessageRow → ReplyTokenCache → ReplyTokenCache × Option ℕ
unfolding peek_expires_at_for_token
cached_expires_at token rows c = elim (peek_expires_at_for_token token c) [
  | some e ↦ (c, some e)
  | none ↦
      (let e = expires_at_for_token token rows in
        (record c { expires_by_token = insert token e c.expires_by_token }, e))
]

-- The cache after a sequence of events.
unfoldable pub update_all : List BridgeEvent → ReplyTokenCache → ReplyTokenCache
unfolding update_from_event
update_all [] c = c
update_all (e ∷ es) c = update_all es (update_from_event e c)

-- What an event says of the token of a room.
abbrev pub token_said :
    String → BridgeEvent → Option (Option String × Option ℕ) → Option (Option String × Option ℕ)
token_said room_key e found = elim e.reply_token [
  | none ↦ found
  | some t ↦ if e.room_key == room_key then some (some t, e.reply_token_expires_at) else found
]

-- The token of the last event of a room that brings one.
unfoldable pub last_token :
    String
    → List BridgeEvent
    → Option (Option String × Option ℕ)
    → Option (Option String × Option ℕ)
last_token room_key [] found = found
last_token room_key (e ∷ es) found = last_token room_key es (token_said room_key e found)

peek-update :
    (room_key : String) (e : BridgeEvent) (c : ReplyTokenCache)
    → peek_latest_for_room room_key (update_from_event e c)
      ≡ token_said room_key e (peek_latest_for_room room_key c)
unfolding peek_latest_for_room update_from_event
peek-update room_key e c = elim (Option-cases e.reply_token) [
  | inl h ↦ rw h refl
  | inr (t, h) ↦
      rw h (lookup-insert e.room_key room_key (some t, e.reply_token_expires_at) c.by_room)
]

last_token-update :
    (room_key : String) (es : List BridgeEvent) (c : ReplyTokenCache)
    → peek_latest_for_room room_key (update_all es c)
      ≡ last_token room_key es (peek_latest_for_room room_key c)
unfolding update_all last_token
last_token-update room_key [] c = refl
last_token-update room_key (e ∷ es) c =
    last_token-update room_key es (update_from_event e c)
    ∙ ap (last_token room_key es) (peek-update room_key e c)

-- Whatever events a fresh cache has seen, it holds for a room exactly the token and the expiry of the last
-- of them that was about the room and brought a token, and nothing if there was none.
pub peek_latest_for_room_lem :
    (room_key : String) (es : List BridgeEvent)
    → peek_latest_for_room room_key (update_all es empty_cache) ≡ last_token room_key es none
unfolding peek_latest_for_room lookup
peek_latest_for_room_lem room_key es = last_token-update room_key es empty_cache
