-- ===== src/Pipeline/Invariant/Callers.antt =====
-- The invariant of the pipeline and the sections of `enqueue_event`.
use kakao_x_termux.Prelude.{
  ℕ, ◌+◌, ◌-◌, ◌≡◌, refl, ap, ◌∙◌, String, List, [], ◌∷◌, ◌++◌, ◌&&◌, not, arith, length, eq_iff,
  eq_refl, is_empty, length-append, leb, if_both, is_some,
}
use kakao_x_termux.Dict.{lookup}
use kakao_x_termux.Schemas.{BridgeEvent}
use kakao_x_termux.Pipeline.State.{InMemoryEventEnvelope, MemoryPipeline, queue_of, EnqueueResult}
use kakao_x_termux.Pipeline.Admission.{
  admit, append_envelope, commit, admit_room, evict, drop_head, reject, reject_duplicate,
  set_default, known_room, active_partitions,
}
use kakao_x_termux.Pipeline.Rooms.{total-insert, queue-insert}
use kakao_x_termux.Pipeline.Invariant.{
  IsCoherent, IsSound, mark-IsCoherent, mark-serves, insert-IsCoherent, insert-serves, same-IsSound,
}

append-IsCoherent :
    (e : InMemoryEventEnvelope) (p : MemoryPipeline)
    → IsCoherent p
    → IsCoherent (append_envelope e p)
append-IsCoherent e p v =
    let q = queue_of e.event.room_key p in
    insert-IsCoherent e.event.room_key (q ++ e ∷ []) p (p.queued_total + 1) _
      (omega (arith, length-append q (e ∷ []))) refl refl refl refl refl refl v

pub commit-IsSound :
    (e : InMemoryEventEnvelope) (p : MemoryPipeline) → IsSound p → IsSound (commit e p)
unfolding commit
commit-IsSound e p v =
    let room = e.event.room_key in
    let w = append-IsCoherent e p v.coherent in
    record {
      coherent = mark-IsCoherent room (append_envelope e p) w;
      serves = mark-serves room (append_envelope e p) w.ready_same (λ k.
          insert-serves room (queue_of room p ++ e ∷ []) p (append_envelope e p) refl refl refl k
            (ground (arith, v.serves k)));
    }

pub reject-IsSound : (p : MemoryPipeline) → IsSound p → IsSound (reject p)
reject-IsSound p v = same-IsSound p (reject p) refl refl refl refl refl refl v

drop_head-IsSound :
    (room : String) (q : List InMemoryEventEnvelope) (p : MemoryPipeline)
    → queue_of room p ≡ q
    → IsSound p
    → IsSound (drop_head room q p)
drop_head-IsSound room [] p e v = v
drop_head-IsSound room (x ∷ rest) p e v = record {
  coherent =
      insert-IsCoherent room rest p (p.queued_total - 1) (drop_head room (x ∷ rest) p)
        (omega (arith, ap length e, v.coherent.queued, total-insert room rest p.room_queues)) refl
        refl refl refl refl refl v.coherent;
  serves = λ k.
      ground (
        arith,
        queue-insert room k rest p.room_queues,
        v.serves k,
        eq_iff room k,
        e,
        ap is_empty e,
      );
}

set_default-IsSound :
    (room : String) (p : MemoryPipeline) → IsSound p → IsSound (set_default room p)
set_default-IsSound room p v = record {
  coherent =
      insert-IsCoherent room (queue_of room p) p p.queued_total (set_default room p) refl refl refl
        refl refl refl refl v.coherent;
  serves = λ k.
      ground
        (arith, queue-insert room k (queue_of room p) p.room_queues, v.serves k, eq_iff room k);
}

admit_room-IsSound :
    (room : String) (p : MemoryPipeline) (q : List InMemoryEventEnvelope)
    → queue_of room p ≡ q
    → IsSound p
    → IsSound (admit_room room q p).0
admit_room-IsSound room p q e v = ground (arith, reject-IsSound p v, drop_head-IsSound room q p e v)

abbrev CallerSound : MemoryPipeline × EnqueueResult → Type 0
CallerSound r = IsSound r.0

pub admit-IsSound :
    (event : BridgeEvent) (now : ℕ) (p : MemoryPipeline) → IsSound p → IsSound (admit event now p).0
unfolding admit
admit-IsSound event now p0 v =
    let p = evict now p0 in
    let u : IsSound p = same-IsSound p0 p refl refl refl refl refl refl v in
    let room = event.room_key in
    let w =
      admit_room-IsSound room (set_default room p) (queue_of room p)
        (queue-insert room room (queue_of room p) p.room_queues ∙ (rw (eq_refl room)))
        (set_default-IsSound room p u) in
    if_both CallerSound (is_some (lookup event.event_id p.dedupe)) _ _
      (same-IsSound p (reject_duplicate p) refl refl refl refl refl refl u)
      (if_both CallerSound
        (not (known_room room p) && leb p.max_active_partitions (active_partitions p)) _ _
        (reject-IsSound p u) w)
