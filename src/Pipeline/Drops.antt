-- ===== src/Pipeline/Drops.antt =====
-- What an admission takes away from the queue of its room, under the policy that drops the oldest envelope.
use kakao_x_termux.Prelude.{
  ℕ, ◌≡◌, refl, ap, ◌∙◌, String, Bool, true, false, List, [], ◌∷◌, arith, if◌then◌else◌, ◌==◌,
  eq_iff, ◌&&◌, not, Bool-cases, inl, inr, ◌⊎◌, if_both, sym, ltb, leb, is_empty, is_some, length,
}
use kakao_x_termux.Dict.{lookup}
use kakao_x_termux.Pipeline.State.{
  InMemoryEventEnvelope, MemoryPipeline, queue_of, EnqueueResult, accepted, room_full,
}
use kakao_x_termux.Pipeline.Rooms.{queue-insert}
use kakao_x_termux.Pipeline.Order.{set_default_queue}
use kakao_x_termux.Pipeline.Admission.{
  admit, admit_room, drop_head, reject, set_default, evict, known_room, active_partitions,
}
use kakao_x_termux.Schemas.{BridgeEvent}

abbrev pub tail : List InMemoryEventEnvelope → List InMemoryEventEnvelope
tail [] = []
tail (e ∷ q) = q

-- An admission that counts a dropped envelope.
abbrev pub has_dropped : MemoryPipeline → MemoryPipeline → Bool
has_dropped p p' = ltb p.stats.dropped p'.stats.dropped

-- What an admission does to the queues: it counts and drops the oldest envelope of the room, or neither.
abbrev pub Shrinks : String → MemoryPipeline → MemoryPipeline × EnqueueResult → Type 0
Shrinks room p r =
    ((has_dropped p r.0 ≡ true)
      × (is_empty (queue_of room p) ≡ false)
      × ((k : String) → queue_of k r.0 ≡ (if room == k then tail (queue_of k p) else queue_of k p)))
    ⊎ ((has_dropped p r.0 ≡ false) × ((k : String) → queue_of k r.0 ≡ queue_of k p))

admit_room-Shrinks :
    (room : String) (q : List InMemoryEventEnvelope) (p : MemoryPipeline)
    → queue_of room p ≡ q
    → Shrinks room p (admit_room room q p)
admit_room-Shrinks room q p e =
    if_both (Shrinks room p) (leb p.global_limit p.queued_total) _ _ (inr (ground arith, λ k. refl))
      (if_both (Shrinks room p) (leb p.room_limit (length q)) _ _ (full q e)
        (inr (ground arith, λ k. refl)))
  where
    full :
        (q : List InMemoryEventEnvelope)
        → queue_of room p ≡ q
        → Shrinks room p (
            if p.drop_oldest && not (is_empty q)
            then (drop_head room q p, accepted)
            else (reject p, room_full))
    full [] e = elim (Bool-cases p.drop_oldest) [
      | inl d ↦ simp d (inr (ground arith, λ k. refl))
      | inr d ↦ simp d (inr (ground arith, λ k. refl))
    ]
    full (x ∷ rest) e =
        if_both (Shrinks room p) (p.drop_oldest && true) _ _
          (inl (
            ground arith,
            rw e refl,
            λ k.
                queue-insert room k rest p.room_queues
                ∙ (ground (arith, eq_iff room k, e, ap tail e)),
          ))
          (inr (ground arith, λ k. refl))

set_default-Shrinks :
    (room : String) (p : MemoryPipeline) (r : MemoryPipeline × EnqueueResult)
    → Shrinks room (set_default room p) r
    → Shrinks room p r
set_default-Shrinks room p r (inl (d, some_left, h)) = inl (
  d,
  rw (sym (set_default_queue room room p)) some_left,
  λ k. h k ∙ (rw (set_default_queue k room p) refl),
)
set_default-Shrinks room p r (inr (d, h)) = inr (d, λ k. h k ∙ set_default_queue k room p)

pub admit-Shrinks :
    (event : BridgeEvent) (now : ℕ) (p : MemoryPipeline)
    → Shrinks event.room_key p (admit event now p)
unfolding admit
admit-Shrinks event now p0 =
    let p = evict now p0 in
    let room = event.room_key in
    if_both (Shrinks room p0) (is_some (lookup event.event_id p.dedupe)) _ _
      (inr (ground arith, λ k. refl))
      (if_both (Shrinks room p0)
        (not (known_room room p) && leb p.max_active_partitions (active_partitions p)) _ _
        (inr (ground arith, λ k. refl))
        (set_default-Shrinks room p (admit_room room (queue_of room p) (set_default room p)) (
          admit_room-Shrinks room (queue_of room p) (set_default room p)
            (set_default_queue room room p))))
