-- ===== src/Pipeline/Race.antt =====
-- Two calls of `enqueue_event` for one event whose critical sections interleave.
use kakao_x_termux.Prelude.{
  ℕ, ◌≡◌, ◌∙◌, String, none, true, false, List, [], ◌∷◌, ◌++◌, arith, eq_refl, Option-cases,
  is_some, ap,
}
use mathlib.Core.List.{append_assoc}
use kakao_x_termux.Dict.{Dict, lookup, lookup-remove, lookup-insert}
use kakao_x_termux.Schemas.{BridgeEvent}
use kakao_x_termux.Pipeline.State.{InMemoryEventEnvelope, MemoryPipeline, accepted, queue_of}
use kakao_x_termux.Pipeline.Admission.{admit, commit, admit_room, forget, evict_dedupe, evict}
use kakao_x_termux.Pipeline.Order.{commit_queue, admit_queue, set_default_queue}

forget_none :
    (k j : String) (at : ℕ) (d : Dict ℕ) → lookup k d ≡ none → lookup k (forget j at d) ≡ none
forget_none k j at d h = ground (arith, lookup-remove j k d)

evict_none :
    (k : String) (current ttl : ℕ) (d : Dict ℕ) (order : List (String × ℕ))
    → lookup k d ≡ none
    → lookup k (evict_dedupe current ttl d order).0 ≡ none
unfolding evict_dedupe
evict_none k current ttl d [] h = h
evict_none k current ttl d ((j, at) ∷ order) h =
    ground (arith, evict_none k current ttl (forget j at d) order (forget_none k j at d h))

-- What a call that was let through has seen, and has left.
record LetThrough (event : BridgeEvent) (p : MemoryPipeline) : Type 0 where
  unseen : lookup event.event_id p.dedupe ≡ none
  known : is_some (lookup event.room_key p.room_queues) ≡ true
  room_left : (admit_room event.room_key (queue_of event.room_key p) p).1 ≡ accepted

admit_accepted :
    (event : BridgeEvent) (now : ℕ) (p : MemoryPipeline)
    → p.drop_oldest ≡ false
    → (admit event now p).1 ≡ accepted
    → LetThrough event (admit event now p).0
unfolding admit
admit_accepted event now p0 keep h =
    let p = evict now p0 in
    let room = event.room_key in
    let same = set_default_queue room room p in
    let there = lookup-insert room room (queue_of room p) p.room_queues in
    let self = eq_refl room in
    record {
      unseen = ground (arith, keep, h, same, Option-cases (lookup event.event_id p.dedupe));
      known = ground (arith, keep, h, there, self);
      room_left = ground (arith, keep, h, same);
    }

again_accepted :
    (event : BridgeEvent) (now : ℕ) (p : MemoryPipeline)
    → LetThrough event p
    → (admit event now p).1 ≡ accepted
unfolding admit
again_accepted event now p v = ground (
  arith,
  evict_none event.event_id now p.dedupe_ttl_ms p.dedupe p.dedupe_order v.unseen,
  v.known,
  v.room_left,
  set_default_queue event.room_key event.room_key (evict now p),
)

-- Two callers with one event, a state that admits the first and drops no envelope, and both first sections
-- before either second one: both callers are accepted, and the room's queue then holds the event twice.
pub duplicate_race :
    (first second : InMemoryEventEnvelope) (now later : ℕ) (p : MemoryPipeline)
    → p.drop_oldest ≡ false
    → second.event ≡ first.event
    → (admit first.event now p).1 ≡ accepted
    → let both = admit first.event later (admit first.event now p).0 in
      let room = first.event.room_key in
      (both.1 ≡ accepted)
      × (queue_of room (commit second (commit first both.0))
          ≡ queue_of room p ++ first ∷ second ∷ [])
duplicate_race first second now later p keep same h =
    let room = first.event.room_key in
    let p1 = (admit first.event now p).0 in
    let q1 = admit_queue room first.event now p keep in
    let q2 = admit_queue room first.event later p1 (q1.1 ∙ keep) in
    let p2 = (admit first.event later p1).0 in
    let c1 = commit_queue room first p2 in
    let c2 = commit_queue room second (commit first p2) in
    (
      again_accepted first.event later p1 (admit_accepted first.event now p keep h),
      ground (
        arith,
        c1,
        c2,
        q1.0,
        q2.0,
        ap (λ (e : BridgeEvent). e.room_key) same,
        eq_refl room,
        append_assoc (queue_of room p) (first ∷ []) (second ∷ []),
      ),
    )
