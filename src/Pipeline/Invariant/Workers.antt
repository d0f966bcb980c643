-- ===== src/Pipeline/Invariant/Workers.antt =====
-- The invariant of the pipeline and the sections of a worker.
use kakao_x_termux.Prelude.{
  ◌≡◌, refl, ap, String, Bool, true, false, List, [], ◌∷◌, ◌||◌, arith, ◌==◌, eq_iff, eq_refl,
  is_empty, Bool-cases, inl, inr,
}
use kakao_x_termux.Prelude.Texts.{
  contains, discard, contains-add, contains-discard, Distinct, Distinct-add, Distinct-discard,
  length-add, length-discard,
}
use kakao_x_termux.Pipeline.State.{InMemoryEventEnvelope, MemoryPipeline, queue_of}
use kakao_x_termux.Pipeline.Worker.{
  next_item, finish, take_head, take_ready, release, mark_if_pending,
}
use kakao_x_termux.Pipeline.Rooms.{IsUnique-without_head, queue-without_head, total-without_head}
use kakao_x_termux.Pipeline.Invariant.{
  IsCoherent, IsSound, served, mark-IsCoherent, mark-serves, same-IsSound,
}

-- Taking a ready room: it leaves the ready list before its queue is read.
module _ (room : String) (rest : List String) (p : MemoryPipeline)
    (ready : p.ready_rooms ≡ room ∷ rest) (v : IsSound p) where
  abbrev pub unready : MemoryPipeline
  unready = record p { ready_rooms = rest; ready_room_set = discard room p.ready_room_set }

  head_ready : (k : String) → contains k p.ready_rooms ≡ ((room == k) || contains k rest)
  unfolding contains
  head_ready k = ap (contains k) ready

  pub head_once : (contains room rest ≡ false) × Distinct rest
  unfolding contains
  head_once = rw ready at v.coherent.ready_distinct

  pub room_idle : contains room p.active_rooms ≡ false
  room_idle = ground (arith, v.coherent.apart room, head_ready room, eq_refl room)

  unready-IsCoherent : IsCoherent unready
  unready-IsCoherent = record {
    keys = v.coherent.keys;
    queued = v.coherent.queued;
    ready_same = λ k. ground (
      arith,
      contains-discard room k p.ready_room_set,
      v.coherent.ready_same k,
      head_ready k,
      eq_iff room k,
      head_once.0,
    );
    ready_distinct = head_once.1;
    active_distinct = v.coherent.active_distinct;
    active_count = v.coherent.active_count;
    apart = λ k. ground (arith, v.coherent.apart k, head_ready k);
  }

  take_head-IsSound :
      (q : List InMemoryEventEnvelope) → queue_of room p ≡ q → IsSound (take_head room q unready).0
  take_head-IsSound [] e = record {
    coherent = unready-IsCoherent;
    serves = λ k. ground (arith, v.serves k, head_ready k, eq_iff room k, ap is_empty e);
  }
  take_head-IsSound (x ∷ xs) e = record {
    coherent = record {
      keys = IsUnique-without_head room x xs p.room_queues v.coherent.keys e;
      queued =
          omega (
            arith,
            total-without_head room x xs p.room_queues v.coherent.keys e,
            v.coherent.queued,
          );
      ready_same = unready-IsCoherent.ready_same;
      ready_distinct = head_once.1;
      active_distinct = Distinct-add room p.active_rooms v.coherent.active_distinct;
      active_count =
          ground (arith, length-add room p.active_rooms, room_idle, v.coherent.active_count);
      apart = λ k. ground (
        arith,
        contains-add room k p.active_rooms,
        unready-IsCoherent.apart k,
        eq_iff room k,
        head_once.0,
      );
    };
    serves = λ k. ground (
      arith,
      queue-without_head room x xs p.room_queues v.coherent.keys e k,
      contains-add room k p.active_rooms,
      v.serves k,
      head_ready k,
      eq_iff room k,
    );
  }

take_ready-IsSound :
    (p : MemoryPipeline) (ready : List String)
    → p.ready_rooms ≡ ready
    → IsSound p
    → IsSound (take_ready ready p).0
take_ready-IsSound p [] e v = v
take_ready-IsSound p (room ∷ rest) e v = take_head-IsSound room rest p e v (queue_of room p) refl

pub next_item-IsSound : (p : MemoryPipeline) → IsSound p → IsSound (next_item p).0
unfolding next_item
next_item-IsSound p v = take_ready-IsSound p p.ready_rooms refl v

-- A worker that holds a room gives it up.
module _ (room : String) (returned : Bool) (p : MemoryPipeline)
    (held : contains room p.active_rooms ≡ true) (v : IsSound p) where
  release-IsCoherent : IsCoherent (release room returned p)
  release-IsCoherent = record {
    keys = v.coherent.keys;
    queued = v.coherent.queued;
    ready_same = v.coherent.ready_same;
    ready_distinct = v.coherent.ready_distinct;
    active_distinct = Distinct-discard room p.active_rooms v.coherent.active_distinct;
    active_count = ground (
      arith,
      length-discard room p.active_rooms v.coherent.active_distinct,
      v.coherent.active_count,
    );
    apart = λ k. ground (arith, contains-discard room k p.active_rooms, v.coherent.apart k);
  }

  release-serves : (k : String) → ((room == k) || served (release room returned p) k) ≡ true
  release-serves k = ground (arith, contains-discard room k p.active_rooms, v.serves k)

  mark_if_pending-IsSound : IsSound (mark_if_pending room (release room returned p))
  mark_if_pending-IsSound = elim (Bool-cases (is_empty (queue_of room p))) [
    | inl e ↦ rw e (record {
      coherent = release-IsCoherent;
      serves = λ k. ground (arith, release-serves k, eq_iff room k);
    })
    | inr e ↦ rw e (record {
      coherent = mark-IsCoherent room _ release-IsCoherent;
      serves = mark-serves room _ v.coherent.ready_same release-serves;
    })
  ]

  pub finish-IsSound : IsSound (finish room returned p)
  unfolding finish
  finish-IsSound =
      same-IsSound (mark_if_pending room (release room returned p)) _ refl refl refl refl refl refl
        mark_if_pending-IsSound
