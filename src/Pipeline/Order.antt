-- ===== src/Pipeline/Order.antt =====
-- The order of each room: which envelopes the workers get, against those that were accepted.
use kakao_x_termux.Prelude.{
  ℕ, ◌≡◌, refl, sym, ap, ◌∙◌, String, Option, none, some, Bool, true, false, List, [], ◌∷◌, ◌++◌,
  arith, if◌then◌else◌, ◌==◌, eq_iff, eq_refl, is_some, ◌&&◌, not, leb, if_both,
}
use mathlib.Core.List.{append-nil, append_assoc}
use mathlib.Core.Path.{subst}
use kakao_x_termux.Prelude.Texts.{contains, contains-add, discard}
use kakao_x_termux.Dict.{lookup, IsUnique}
use kakao_x_termux.Schemas.{BridgeEvent}
use kakao_x_termux.Pipeline.State.{
  InMemoryEventEnvelope, MemoryPipeline, EnqueueResult, queue_of, mark_room_ready, init,
}
use kakao_x_termux.Pipeline.Admission.{
  admit, commit, append_envelope, evict, set_default, known_room, active_partitions,
}
use kakao_x_termux.Pipeline.Worker.{next_item, finish, take_head, take_ready}
use kakao_x_termux.Pipeline.Schedule.{Section, admits, refuses, commits, takes, finishes, step, run}
use kakao_x_termux.Pipeline.Rooms.{queue-insert, queue-without_head}
use kakao_x_termux.Pipeline.Invariant.{IsSound}
use kakao_x_termux.Pipeline.Invariant.Workers.{room_idle, head_once}
use kakao_x_termux.Pipeline.Invariant.Runs.{step-IsSound, init-IsSound}

-- The room's part of what a worker gets.
abbrev pub of_room : String → Option (String × InMemoryEventEnvelope) → List InMemoryEventEnvelope
of_room k none = []
of_room k (some (room, e)) = if room == k then e ∷ [] else []

abbrev pub taken_by : String → Section → MemoryPipeline → List InMemoryEventEnvelope
taken_by k takes p = of_room k (next_item p).1
taken_by k _ p = []

abbrev pub committed_by : String → Section → List InMemoryEventEnvelope
committed_by k (commits e) = if e.event.room_key == k then e ∷ [] else []
committed_by k _ = []

-- The envelopes of a room that the workers get in a schedule, in their order.
unfoldable pub handed_out : String → List Section → MemoryPipeline → List InMemoryEventEnvelope
unfolding step next_item
handed_out k [] p = []
handed_out k (s ∷ ss) p = taken_by k s p ++ handed_out k ss (step s p)

-- The envelopes of a room that a schedule accepts, in their order.
unfoldable pub committed : String → List Section → List InMemoryEventEnvelope
committed k [] = []
committed k (s ∷ ss) = committed_by k s ++ committed k ss

module _ (k : String) where
  mark_queue :
      (room : String) (p : MemoryPipeline) → queue_of k (mark_room_ready room p) ≡ queue_of k p
  unfolding mark_room_ready
  mark_queue room p = ground arith

  pub commit_queue :
      (e : InMemoryEventEnvelope) (p : MemoryPipeline)
      → queue_of k (commit e p) ≡ queue_of k p ++ committed_by k (commits e)
  unfolding commit
  commit_queue e p =
      mark_queue e.event.room_key (append_envelope e p)
      ∙ queue-insert e.event.room_key k (queue_of e.event.room_key p ++ e ∷ []) p.room_queues
      ∙ ground (arith, eq_iff e.event.room_key k, append-nil (queue_of k p))

  pub set_default_queue :
      (room : String) (p : MemoryPipeline) → queue_of k (set_default room p) ≡ queue_of k p
  set_default_queue room p =
      queue-insert room k (queue_of room p) p.room_queues ∙ ground (arith, eq_iff room k)

  abbrev pub SameQueue : MemoryPipeline → MemoryPipeline × EnqueueResult → Type 0
  SameQueue p r = (queue_of k r.0 ≡ queue_of k p) × (r.0.drop_oldest ≡ p.drop_oldest)

  pub admit_queue :
      (event : BridgeEvent) (now : ℕ) (p : MemoryPipeline)
      → p.drop_oldest ≡ false
      → SameQueue p (admit event now p)
  unfolding admit
  admit_queue event now p0 keep =
      let p = evict now p0 in
      if_both (SameQueue p0) (is_some (lookup event.event_id p.dedupe)) _ _ (refl, refl)
        (if_both (SameQueue p0)
          (not (known_room event.room_key p) && leb p.max_active_partitions (active_partitions p)) _
          _ (refl, refl) (ground (arith, set_default_queue event.room_key p)))

  take_head_queue :
      (room : String) (p : MemoryPipeline) (q : List InMemoryEventEnvelope)
      → IsUnique p.room_queues
      → queue_of room p ≡ q
      → (of_room k (take_head room q p).1 ++ queue_of k (take_head room q p).0 ≡ queue_of k p)
        × ((take_head room q p).0.drop_oldest ≡ p.drop_oldest)
  take_head_queue room p [] v e = (refl, refl)
  take_head_queue room p (x ∷ xs) v e =
      (ground (arith, queue-without_head room x xs p.room_queues v e k, eq_iff room k, e), refl)

  take_ready_queue :
      (ready : List String) (p : MemoryPipeline)
      → IsUnique p.room_queues
      → (of_room k (take_ready ready p).1 ++ queue_of k (take_ready ready p).0 ≡ queue_of k p)
        × ((take_ready ready p).0.drop_oldest ≡ p.drop_oldest)
  take_ready_queue [] p u = (refl, refl)
  take_ready_queue (room ∷ rest) p u = take_head_queue room _ (queue_of room p) u refl

  pub finish_queue :
      (room : String) (returned : Bool) (p : MemoryPipeline)
      → (queue_of k (finish room returned p) ≡ queue_of k p)
        × ((finish room returned p).drop_oldest ≡ p.drop_oldest)
  unfolding finish mark_room_ready
  finish_queue room returned p = ground arith

  abbrev InOrder : Section → MemoryPipeline → Type 0
  InOrder s p =
      (taken_by k s p ++ queue_of k (step s p) ≡ queue_of k p ++ committed_by k s)
      × ((step s p).drop_oldest ≡ p.drop_oldest)

  pub step-InOrder :
      (s : Section) (p : MemoryPipeline) → p.drop_oldest ≡ false → IsSound p → InOrder s p
  unfolding step
  step-InOrder (admits event now) p keep v =
      let h = admit_queue event now p keep in (h.0 ∙ sym (append-nil _), h.1)
  step-InOrder refuses p keep v = (sym (append-nil _), refl)
  step-InOrder (commits e) p keep v =
      (commit_queue e p, unfold commit mark_room_ready in ground arith)
  step-InOrder takes p keep v =
      let h = take_ready_queue p.ready_rooms p v.coherent.keys in
      unfold next_item in (h.0 ∙ sym (append-nil _), h.1)
  step-InOrder (finishes room returned) p keep v =
      let h = finish_queue room returned p in ground (arith, h.0, h.1, append-nil (queue_of k p))

  run_order :
      (ss : List Section) (p : MemoryPipeline)
      → p.drop_oldest ≡ false
      → IsSound p
      → handed_out k ss p ++ queue_of k (run ss p) ≡ queue_of k p ++ committed k ss
  unfolding handed_out committed run
  run_order [] p keep v = sym (append-nil _)
  run_order (s ∷ ss) p keep v =
      let h = step-InOrder s p keep v in
      append_assoc (taken_by k s p) _ _
      ∙ ap (◌++◌ (taken_by k s p)) (run_order ss (step s p) (h.1 ∙ keep) (step-IsSound s p v))
      ∙ sym (append_assoc (taken_by k s p) _ _)
      ∙ ap (λ l. l ++ committed k ss) h.0
      ∙ append_assoc (queue_of k p) _ _

-- Under the policy that drops no envelope, and under every schedule of callers and workers, what the
-- workers get of a room and what still waits there are together exactly the accepted envelopes of
-- the room, in the order in which they were accepted: none is lost, repeated or overtaken.
pub room_order :
    (global_limit room_limit partitions ttl : ℕ) (ss : List Section) (k : String)
    → let start = init global_limit room_limit partitions false ttl in
      handed_out k ss start ++ queue_of k (run ss start) ≡ committed k ss
room_order global_limit room_limit partitions ttl ss k =
    run_order k ss _ refl (init-IsSound global_limit room_limit partitions false ttl)
    ∙ (unfold lookup in refl)

abbrev Exclusive :
    MemoryPipeline → MemoryPipeline × Option (String × InMemoryEventEnvelope) → Type 0
Exclusive p (q, none) = Unit {0}
Exclusive p (q, some (room, e)) =
    (queue_of room p ≡ e ∷ queue_of room q)
    × (contains room p.active_rooms ≡ false)
    × (contains room q.active_rooms ≡ true)
    × (contains room q.ready_rooms ≡ false)

module _ (p : MemoryPipeline) (v : IsSound p) where
  take_head-Exclusive :
      (room : String) (rest : List String) (queue : List InMemoryEventEnvelope)
      → p.ready_rooms ≡ room ∷ rest
      → queue_of room p ≡ queue
      → Exclusive p (
          take_head room queue
            (record p { ready_rooms = rest; ready_room_set = discard room p.ready_room_set }))
  take_head-Exclusive room rest [] ready e = tt
  take_head-Exclusive room rest (x ∷ xs) ready e = (
    e
        ∙ ap (◌∷◌ x) (
            sym (
              queue-without_head room x xs p.room_queues v.coherent.keys e room
              ∙ (rw (eq_refl room)))),
    room_idle room rest p ready v,
    contains-add room room p.active_rooms ∙ (rw (eq_refl room)),
    (head_once room rest p ready v).0,
  )

  take_ready-Exclusive :
      (ready : List String) → p.ready_rooms ≡ ready → Exclusive p (take_ready ready p)
  take_ready-Exclusive [] e = tt
  take_ready-Exclusive (room ∷ rest) e = take_head-Exclusive room rest (queue_of room p) e refl

-- In a state that keeps the invariant, a worker that gets an envelope gets the oldest of its room: no
-- worker held the room, this one holds it afterwards, and the room is then not ready.
pub next_item_exclusive :
    (p q : MemoryPipeline) (room : String) (e : InMemoryEventEnvelope)
    → IsSound p
    → next_item p ≡ (q, some (room, e))
    → (queue_of room p ≡ e ∷ queue_of room q)
      × (contains room p.active_rooms ≡ false)
      × (contains room q.active_rooms ≡ true)
      × (contains room q.ready_rooms ≡ false)
unfolding next_item
next_item_exclusive p q room e v h =
    subst (Exclusive p) h (take_ready-Exclusive p v p.ready_rooms refl)
