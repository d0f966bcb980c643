-- ===== src/Pipeline/Invariant.antt =====
-- What holds between the fields of MemoryPipeline after every section.
pub mod Callers
pub mod Workers
pub mod Runs
use kakao_x_termux.Prelude.{
  ℕ, ◌+◌, ◌-◌, ◌≡◌, refl, ap, ◌∙◌, String, Option, none, some, Bool, true, false, List, [], ◌∷◌,
  ◌++◌, ◌&&◌, ◌||◌, not, arith, length, if◌then◌else◌, ◌==◌, eq_iff, eq_refl, is_empty,
  length-append, leb, Bool-cases, if_both, inl, inr, is_some,
}
use kakao_x_termux.Prelude.Texts.{
  contains, add, discard, contains-append_one, contains-add, contains-discard, Distinct,
  Distinct-append, Distinct-add, Distinct-discard, length-add, length-discard,
}
use kakao_x_termux.Dict.{lookup, insert, remove, IsUnique, IsUnique-insert, IsUnique-remove}
use kakao_x_termux.Schemas.{BridgeEvent}
use kakao_x_termux.Pipeline.State.{
  InMemoryEventEnvelope, MemoryPipeline, queue_of, queue_or_empty, mark_room_ready, init, oldest_of,
  EnqueueResult,
}
use kakao_x_termux.Pipeline.Admission.{
  admit, append_envelope, commit, admit_room, evict, drop_head, reject, reject_duplicate,
  set_default, known_room, active_partitions,
}
use kakao_x_termux.Pipeline.Worker.{
  next_item, finish, take_head, take_ready, release, mark_if_pending,
}
use kakao_x_termux.Pipeline.Schedule.{Section, admits, refuses, commits, takes, finishes, step, run}
use kakao_x_termux.Pipeline.Rooms.{total, total-insert, total-remove, queue-insert, queue-remove}

-- The counters and the sets agree with the queues and the lists, and no room is both ready and held.
pub record IsCoherent (p : MemoryPipeline) : Type 0 where
  pub keys : IsUnique p.room_queues
  pub queued : p.queued_total ≡ total p.room_queues
  pub ready_same : (k : String) → contains k p.ready_rooms ≡ contains k p.ready_room_set
  pub ready_distinct : Distinct p.ready_rooms
  pub active_distinct : Distinct p.active_rooms
  pub active_count : p.active_total ≡ length p.active_rooms
  pub apart : (k : String) → (contains k p.ready_rooms && contains k p.active_rooms) ≡ false

-- A room with something in its queue is ready, or a worker holds it.
abbrev pub served : MemoryPipeline → String → Bool
served p k = is_empty (queue_of k p) || (contains k p.ready_rooms || contains k p.active_rooms)

pub record IsSound (p : MemoryPipeline) : Type 0 where
  pub coherent : IsCoherent p
  pub serves : (k : String) → served p k ≡ true

module _ (room : String) (p : MemoryPipeline) where
  pub mark-IsCoherent : IsCoherent p → IsCoherent (mark_room_ready room p)
  unfolding mark_room_ready
  mark-IsCoherent v =
      elim (Bool-cases (contains room p.active_rooms || contains room p.ready_room_set)) [
        | inl e ↦ rw e v
        | inr e ↦ rw e (record {
          keys = v.keys;
          queued = v.queued;
          ready_same = λ k. ground (
            arith,
            contains-append_one room k p.ready_rooms,
            contains-add room k p.ready_room_set,
            v.ready_same k,
          );
          ready_distinct =
              Distinct-append room p.ready_rooms (ground (arith, v.ready_same room))
                v.ready_distinct;
          active_distinct = v.active_distinct;
          active_count = v.active_count;
          apart = λ k.
              ground (arith, contains-append_one room k p.ready_rooms, v.apart k, eq_iff room k);
        })
      ]

  -- Marking a room serves it, and takes no service from another.
  pub mark-serves :
      ((k : String) → contains k p.ready_rooms ≡ contains k p.ready_room_set)
      → ((k : String) → ((room == k) || served p k) ≡ true)
      → (k : String) → served (mark_room_ready room p) k ≡ true
  unfolding mark_room_ready
  mark-serves same h k =
      ground (arith, contains-append_one room k p.ready_rooms, same room, h k, eq_iff room k)

-- `insert` at a room of the queues, with the count that goes with it.
module _ (room : String) (q : List InMemoryEventEnvelope) (p : MemoryPipeline) where
  pub insert-IsCoherent :
      (n : ℕ) (p' : MemoryPipeline)
      → n + length (queue_of room p) ≡ p.queued_total + length q
      → p'.room_queues ≡ insert room q p.room_queues
      → p'.queued_total ≡ n
      → p'.ready_rooms ≡ p.ready_rooms
      → p'.ready_room_set ≡ p.ready_room_set
      → p'.active_rooms ≡ p.active_rooms
      → p'.active_total ≡ p.active_total
      → IsCoherent p
      → IsCoherent p'
  insert-IsCoherent n p' count eq en er es ea et v = record {
    keys = rw eq (IsUnique-insert room q p.room_queues v.keys);
    queued = rw (eq, en) (omega (arith, total-insert room q p.room_queues, v.queued));
    ready_same = λ k. rw (er, es) (v.ready_same k);
    ready_distinct = rw er v.ready_distinct;
    active_distinct = rw ea v.active_distinct;
    active_count = rw (ea, et) v.active_count;
    apart = λ k. rw (er, ea) (v.apart k);
  }

  pub insert-serves :
      (p' : MemoryPipeline)
      → p'.room_queues ≡ insert room q p.room_queues
      → p'.ready_rooms ≡ p.ready_rooms
      → p'.active_rooms ≡ p.active_rooms
      → (k : String) → ((room == k) || served p k) ≡ true
      → ((room == k) || served p' k) ≡ true
  insert-serves p' eq er ea k h =
      rw (eq, er, ea) (ground (arith, queue-insert room k q p.room_queues))

-- The invariant reads the rooms alone: not the seen ids, the counters or the configuration.
pub same-IsSound :
    (p p' : MemoryPipeline)
    → p'.room_queues ≡ p.room_queues
    → p'.queued_total ≡ p.queued_total
    → p'.ready_rooms ≡ p.ready_rooms
    → p'.ready_room_set ≡ p.ready_room_set
    → p'.active_rooms ≡ p.active_rooms
    → p'.active_total ≡ p.active_total
    → IsSound p
    → IsSound p'
same-IsSound p p' eq en er es ea et v = record {
  coherent = record {
    keys = rw eq v.coherent.keys;
    queued = rw (eq, en) v.coherent.queued;
    ready_same = λ k. rw (er, es) (v.coherent.ready_same k);
    ready_distinct = rw er v.coherent.ready_distinct;
    active_distinct = rw ea v.coherent.active_distinct;
    active_count = rw (ea, et) v.coherent.active_count;
    apart = λ k. rw (er, ea) (v.coherent.apart k);
  };
  serves = λ k. rw (eq, er, ea) (v.serves k);
}
