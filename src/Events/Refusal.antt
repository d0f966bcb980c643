-- ===== src/Events/Refusal.antt =====
-- Events that are processed at once, repeated events, and refused ones.
use kakao_x_termux.Prelude.{
  ◌≡◌, refl, ap, ◌∙◌, String, Bool, true, false, List, [], ◌∷◌, ◌&&◌, ◌||◌, ◌==◌, if◌then◌else◌,
  arith, Bool-cases, inl, inr,
}
use kakao_x_termux.Schemas.{BridgeEvent, EventResponse}
use kakao_x_termux.Messages.{MessageRow, insert_message, mark_message_processed, has_event}
use kakao_x_termux.Events.{
  EventState, EventEnv, sync_backup, duplicate_event, insert_event, when_new,
  handle_memory_queue_event, handle_inline_event, by_durability, process_inserted_event,
  or_internal_error, log_result, mark,
}
use kakao_x_termux.Events.Arrival.{insert_message-has, enqueue_inserted-messages}

-- Whether an event is in the table and processed.
unfoldable pub is_processed : String → List MessageRow → Bool
is_processed event_id [] = false
is_processed event_id (row ∷ rows) =
    ((row.event.event_id == event_id) && row.processed) || is_processed event_id rows

is_processed-mark :
    (event_id : String) (rows : List MessageRow)
    → has_event event_id rows ≡ true
    → is_processed event_id (mark_message_processed event_id rows) ≡ true
unfolding is_processed mark_message_processed has_event
is_processed-mark event_id [] h = h
is_processed-mark event_id (row ∷ rows) h = ground (arith, is_processed-mark event_id rows)

module _ {C : Type 0} (e : EventEnv C) (event : BridgeEvent) where
  log_result-chat :
      (r : EventResponse) (b : Bool) (s : EventState C)
      → ((log_result e event r b s).chat ≡ s.chat)
        × ((log_result e event r b s).messages ≡ s.messages)
        × ((log_result e event r b s).pipeline ≡ s.pipeline)
  log_result-chat r b s = ground arith

  abbrev Inline : EventState C → EventState C × EventResponse → Type 0
  Inline s (t, r) =
      let old = has_event event.event_id s.messages in
      (r ≡ (if old then duplicate_event else or_internal_error (e.process event s.chat).1))
      × (t.chat ≡ (if old then s.chat else (e.process event s.chat).0))
      × ((if old then true else is_processed event.event_id t.messages) ≡ true)

  insert_new :
      (s : EventState C)
      → has_event event.event_id s.messages ≡ false
      → (insert_message event e.now s.messages).1 ≡ true
  unfolding insert_message
  insert_new s h = rw h refl

  insert_old :
      (s : EventState C)
      → has_event event.event_id s.messages ≡ true
      → insert_message event e.now s.messages ≡ (s.messages, false)
  unfolding insert_message
  insert_old s h = rw h refl

  -- Events whose insertion and mark do not raise.
  processed :
      (s : EventState C)
      → e.mark_raises ≡ false
      → has_event event.event_id s.messages ≡ true
      → ((process_inserted_event e true event s).1 ≡ or_internal_error (e.process event s.chat).1)
        × ((process_inserted_event e true event s).0.chat ≡ (e.process event s.chat).0)
        × (is_processed event.event_id (process_inserted_event e true event s).0.messages ≡ true)
  unfolding process_inserted_event
  processed s works h =
      let p = e.process event s.chat in
      let r = or_internal_error p.1 in
      let g = is_processed-mark event.event_id s.messages h in
      let l = log_result-chat r false (mark e true event (record s { chat = p.0 })) in
      (refl, ground (arith, works, l), ground (arith, works, l, g))

  when_new_lem :
      (s : EventState C)
      → e.insert_raises ≡ false
      → e.mark_raises ≡ false
      → Inline s (when_new e event (process_inserted_event e true event) (insert_event e event s))
  when_new_lem s inserts marks = elim (Bool-cases (has_event event.event_id s.messages)) [
    | inl old ↦
        simp (inserts, insert_old s old, old)
          (refl, (log_result-chat duplicate_event true s).0, refl)
    | inr new ↦
        (let s' = record s { messages = (insert_message event e.now s.messages).0 } in
          let h = processed s' marks (insert_message-has event e.now s.messages) in
          simp (inserts, insert_new s new, new) h)
  ]

-- With `inline_wait`, where neither the insertion nor the mark raises: an event that is not in the table is
-- processed once, answered with what the bots say, or with an internal error if they raise, and is then in
-- the table as processed; an event that is in the table is answered as a duplicate, and the bots do not see
-- it.
pub handle_inline_event_lem :
    {C : Type 0} (e : EventEnv C) (event : BridgeEvent) (s : EventState C)
    → e.insert_raises ≡ false
    → e.mark_raises ≡ false
    → let out = handle_inline_event e event s in
      let old = has_event event.event_id s.messages in
      (out.1 ≡ (if old then duplicate_event else or_internal_error (e.process event s.chat).1))
      × (out.0.chat ≡ (if old then s.chat else (e.process event s.chat).0))
      × ((if old then true else is_processed event.event_id out.0.messages) ≡ true)
unfolding handle_inline_event
handle_inline_event_lem e event s inserts marks = when_new_lem e event s inserts marks

module _ {C : Type 0} (e : EventEnv C) (event : BridgeEvent) where
  -- With `sync_backup` the event is in the table whatever the queue says.
  sync-has :
      (s : EventState C)
      → e.insert_raises ≡ false
      → has_event event.event_id (by_durability sync_backup e event s).0.messages ≡ true
  unfolding by_durability
  sync-has s inserts =
      let has = insert_message-has event e.now s.messages in
      elim (Bool-cases (insert_message event e.now s.messages).1) [
        | inl new ↦ simp (inserts, new) (rw (enqueue_inserted-messages e event _) has)
        | inr old ↦
            simp (inserts, old) (rw ((log_result-chat e event duplicate_event true _).1) has)
      ]

  -- A stored event is answered as a duplicate, and the pipeline does not see it.
  sync-old :
      (s : EventState C)
      → e.insert_raises ≡ false
      → has_event event.event_id s.messages ≡ true
      → ((by_durability sync_backup e event s).1 ≡ duplicate_event)
        × ((by_durability sync_backup e event s).0.pipeline ≡ s.pipeline)
  unfolding by_durability
  sync-old s inserts old =
      simp (inserts, insert_old e event s old)
        (refl, (log_result-chat e event duplicate_event true s).2)

-- With `sync_backup`, where the insertions do not raise, an event is stored whatever the pipeline says of
-- it: when the bridge sends it again, also after a refusal that asked for that, it is acknowledged as a
-- duplicate and is not queued.
pub sync_retry :
    {C : Type 0} (first second : EventEnv C) (event : BridgeEvent) (s : EventState C)
    → first.durability_mode ≡ sync_backup
    → second.durability_mode ≡ sync_backup
    → first.insert_raises ≡ false
    → second.insert_raises ≡ false
    → let s' = (handle_memory_queue_event first event s).0 in
      ((handle_memory_queue_event second event s').1 ≡ duplicate_event)
      × ((handle_memory_queue_event second event s').0.pipeline ≡ s'.pipeline)
unfolding handle_memory_queue_event
sync_retry first second event s m m' i i' =
    let s' = (by_durability first.durability_mode first event s).0 in
    let stored : has_event event.event_id s'.messages ≡ true =
      ap (λ d. has_event event.event_id (by_durability d first event s).0.messages) m
      ∙ sync-has first event s i in
    let h = sync-old second event s' i' stored in
    (
      ap (λ d. (by_durability d second event s').1) m' ∙ h.0,
      ap (λ d. (by_durability d second event s').0.pipeline) m' ∙ h.1,
    )
