-- ===== src/Pipeline/Fairness.antt =====
-- No room waits for ever: how many rooms a worker can serve before a ready room's turn.
use kakao_x_termux.Prelude.{
  ℕ, suc, ◌+◌, ◌≤◌, ◌<◌, ◌≡◌, refl, ap, ◌∙◌, String, Option, Bool, true, false, List, [], ◌∷◌, ◌++◌,
  arith, if◌then◌else◌, ◌==◌, eq_iff, eq_refl, ◌⊎◌, Bool-cases, inl, inr, is_empty, length,
  length-append,
}
use kakao_x_termux.Prelude.Texts.{contains, contains-append_one, discard}
use kakao_x_termux.Schemas.{BridgeEvent}
use kakao_x_termux.Pipeline.State.{
  InMemoryEventEnvelope, MemoryPipeline, queue_of, mark_room_ready, init,
}
use kakao_x_termux.Pipeline.Admission.{admit, commit, append_envelope}
use kakao_x_termux.Pipeline.Worker.{next_item, finish, take_head, take_ready, release}
use kakao_x_termux.Pipeline.Schedule.{Section, admits, refuses, commits, takes, finishes, step, run}
use kakao_x_termux.Pipeline.Rooms.{queue-without_head, queue-insert}
use kakao_x_termux.Pipeline.Invariant.{IsSound}
use kakao_x_termux.Pipeline.Invariant.Workers.{head_once}
use kakao_x_termux.Pipeline.Invariant.Runs.{step-IsSound, run-IsSound, init-IsSound}
use kakao_x_termux.Pipeline.Order.{
  handed_out, taken_by, of_room, admit_queue, finish_queue, step-InOrder,
}

-- How many rooms stand before a room of the ready list.
unfoldable pub position : String → List String → ℕ
position k [] = 0
position k (x ∷ xs) = let rest = position k xs in if x == k then 0 else suc rest

position-append :
    (k x : String) (xs : List String)
    → contains k xs ≡ true
    → position k (xs ++ x ∷ []) ≡ position k xs
unfolding position contains
position-append k x [] h = ground arith
position-append k x (y ∷ ys) h = ground (arith, position-append k x ys)

-- How often a schedule lets a worker look for an item.
unfoldable pub takes_in : List Section → ℕ
takes_in [] = 0
takes_in (takes ∷ ss) = suc (takes_in ss)
takes_in (_ ∷ ss) = takes_in ss

takes_in_cons :
    (s : Section) (ss : List Section) → takes_in (s ∷ ss) ≡ takes_in (s ∷ []) + takes_in ss
unfolding takes_in
takes_in_cons (admits event now) ss = omega arith
takes_in_cons refuses ss = omega arith
takes_in_cons (commits e) ss = omega arith
takes_in_cons takes ss = omega arith
takes_in_cons (finishes room returned) ss = omega arith

-- Every ready room has an envelope for the worker that takes it.
abbrev pub HasWork : MemoryPipeline → Type 0
HasWork p = (k : String) → contains k p.ready_rooms ≡ true → is_empty (queue_of k p) ≡ false

-- Marking a room keeps the places of the ready rooms.
mark-position :
    (room k : String) (p : MemoryPipeline)
    → contains k p.ready_rooms ≡ true
    → (position k (mark_room_ready room p).ready_rooms ≡ position k p.ready_rooms)
      × (contains k (mark_room_ready room p).ready_rooms ≡ true)
unfolding mark_room_ready
mark-position room k p h =
    ground (arith, position-append k room p.ready_rooms, contains-append_one room k p.ready_rooms)

mark-HasWork :
    (room : String) (p : MemoryPipeline)
    → is_empty (queue_of room p) ≡ false
    → HasWork p
    → HasWork (mark_room_ready room p)
unfolding mark_room_ready
mark-HasWork room p full w k =
    ground (arith, contains-append_one room k p.ready_rooms, w k, eq_iff room k)

append_full :
    (q : List InMemoryEventEnvelope) (e : InMemoryEventEnvelope) → is_empty (q ++ e ∷ []) ≡ false
append_full [] e = refl
append_full (x ∷ q) e = refl

module _ (p : MemoryPipeline) where
  append-HasWork : (e : InMemoryEventEnvelope) → HasWork p → HasWork (append_envelope e p)
  append-HasWork e w k h =
      rw (queue-insert e.event.room_key k (queue_of e.event.room_key p ++ e ∷ []) p.room_queues)
        (ground (arith, append_full (queue_of e.event.room_key p) e, w k h))

  commit-HasWork : (e : InMemoryEventEnvelope) → HasWork p → HasWork (commit e p)
  unfolding commit
  commit-HasWork e w =
      mark-HasWork e.event.room_key (append_envelope e p)
        (rw
          (
            queue-insert e.event.room_key e.event.room_key (queue_of e.event.room_key p ++ e ∷ [])
                p.room_queues,
            eq_refl e.event.room_key,
          )
          (append_full (queue_of e.event.room_key p) e))
        (append-HasWork e w)

  admit_ready : (event : BridgeEvent) (now : ℕ) → (admit event now p).0.ready_rooms ≡ p.ready_rooms
  unfolding admit
  admit_ready event now = ground arith

  finish-HasWork : (room : String) (returned : Bool) → HasWork p → HasWork (finish room returned p)
  unfolding finish
  finish-HasWork room returned w k h =
      rw ((finish_queue k room returned p).0) (elim (Bool-cases (is_empty (queue_of room p))) [
        | inl e ↦ (let g = rw e at h in w k g)
        | inr e ↦
            (let g = rw e at h in
              unfold mark_room_ready in
              ground (arith, mark-HasWork room (release room returned p) e w k g))
      ])

  finish-position :
      (room : String) (returned : Bool) (k : String)
      → contains k p.ready_rooms ≡ true
      → (position k (finish room returned p).ready_rooms ≡ position k p.ready_rooms)
        × (contains k (finish room returned p).ready_rooms ≡ true)
  unfolding finish
  finish-position room returned k h = elim (Bool-cases (is_empty (queue_of room p))) [
    | inl e ↦ rw e (refl, h)
    | inr e ↦ rw e (mark-position room k (release room returned p) h)
  ]

-- Room k waits at place n: it is handed out now, or it is one place nearer.
abbrev Nearer : String → ℕ → MemoryPipeline × Option (String × InMemoryEventEnvelope) → Type 0
Nearer k n r =
    (1 ≤ length (of_room k r.1))
    ⊎ ((suc (position k r.0.ready_rooms) ≡ n) × (contains k r.0.ready_rooms ≡ true))

-- A worker that takes the first ready room.
module _ (p : MemoryPipeline) (v : IsSound p) (w : HasWork p) (k : String) where
  take_head-Nearer :
      (room : String) (rest : List String) (q : List InMemoryEventEnvelope)
      → p.ready_rooms ≡ room ∷ rest
      → queue_of room p ≡ q
      → contains k (room ∷ rest) ≡ true
      → Nearer k (position k (room ∷ rest)) (
          take_head room q
            (record p { ready_rooms = rest; ready_room_set = discard room p.ready_room_set }))
  unfolding contains position
  take_head-Nearer room rest [] ready e h =
      ground (arith, ap is_empty e, w room (ap (contains room) ready ∙ (rw (eq_refl room))))
  take_head-Nearer room rest (x ∷ xs) ready e h = elim (Bool-cases (room == k)) [
    | inl same ↦ rw same (inl (omega arith))
    | inr other ↦ (let g = rw other at h in rw other (inr (refl, g)))
  ]

  take_ready-Nearer :
      (ready : List String)
      → p.ready_rooms ≡ ready
      → contains k ready ≡ true
      → Nearer k (position k ready) (take_ready ready p)
  unfolding contains
  take_ready-Nearer [] e h = ground arith
  take_ready-Nearer (room ∷ rest) e h = take_head-Nearer room rest (queue_of room p) e refl h

  take_head-HasWork :
      (room : String) (rest : List String) (q : List InMemoryEventEnvelope)
      → p.ready_rooms ≡ room ∷ rest
      → queue_of room p ≡ q
      → let r =
          take_head room q
            (record p { ready_rooms = rest; ready_room_set = discard room p.ready_room_set }) in
        contains k r.0.ready_rooms ≡ true → is_empty (queue_of k r.0) ≡ false
  unfolding contains
  take_head-HasWork room rest [] ready e h = w k (ap (contains k) ready ∙ (ground arith))
  take_head-HasWork room rest (x ∷ xs) ready e h =
      rw (queue-without_head room x xs p.room_queues v.coherent.keys e k) (
        ground (
          arith,
          w k (ap (contains k) ready ∙ (ground arith)),
          (head_once room rest p ready v).0,
          eq_iff room k,
        ))

  take_ready-HasWork :
      (ready : List String)
      → p.ready_rooms ≡ ready
      → contains k (take_ready ready p).0.ready_rooms ≡ true
      → is_empty (queue_of k (take_ready ready p).0) ≡ false
  take_ready-HasWork [] e h = w k h
  take_ready-HasWork (room ∷ rest) e h = take_head-HasWork room rest (queue_of room p) e refl h

step-HasWork :
    (s : Section) (p : MemoryPipeline)
    → p.drop_oldest ≡ false
    → IsSound p
    → HasWork p
    → HasWork (step s p)
unfolding step
step-HasWork (admits event now) p keep v w k h =
    rw ((admit_queue k event now p keep).0) (w k (rw (admit_ready p event now) at h))
step-HasWork refuses p keep v w k h = w k h
step-HasWork (commits e) p keep v w k h = commit-HasWork p e w k h
step-HasWork takes p keep v w k h =
    unfold next_item in take_ready-HasWork p v w k p.ready_rooms refl h
step-HasWork (finishes room returned) p keep v w k h =
    elim (Bool-cases (contains room p.active_rooms)) [
      | inl held ↦ (let g = rw held at h in rw held (finish-HasWork p room returned w k g))
      | inr free ↦ (let g = rw free at h in rw free (w k g))
    ]

pub run-HasWork :
    (ss : List Section) (p : MemoryPipeline)
    → p.drop_oldest ≡ false
    → IsSound p
    → HasWork p
    → (HasWork (run ss p)) × ((run ss p).drop_oldest ≡ false)
unfolding run
run-HasWork [] p keep v w = (w, keep)
run-HasWork (s ∷ ss) p keep v w =
    run-HasWork ss (step s p) ((step-InOrder "" s p keep v).1 ∙ keep) (step-IsSound s p v)
      (step-HasWork s p keep v w)

-- A section hands out something of the room, or leaves it ready, and nearer if a worker took a room.
abbrev Advances : String → Section → MemoryPipeline → Type 0
Advances k s p =
    (1 ≤ length (taken_by k s p))
    ⊎ ((position k (step s p).ready_rooms + takes_in (s ∷ []) ≤ position k p.ready_rooms)
        × (contains k (step s p).ready_rooms ≡ true))

step-Advances :
    (k : String) (s : Section) (p : MemoryPipeline)
    → IsSound p
    → HasWork p
    → contains k p.ready_rooms ≡ true
    → Advances k s p
unfolding step takes_in
step-Advances k (admits event now) p v w h = inr (rw (admit_ready p event now) (omega arith, h))
step-Advances k refuses p v w h = inr (omega arith, h)
step-Advances k (commits e) p v w h =
    let m = mark-position e.event.room_key k (append_envelope e p) h in
    inr (unfold commit in (omega (arith, m.0), m.1))
step-Advances k takes p v w h =
    unfold next_item in
    (elim (take_ready-Nearer p v w k p.ready_rooms refl h) [
      | inl out ↦ inl out
      | inr nearer ↦ inr (omega (arith, nearer.0), nearer.1)
    ])
step-Advances k (finishes room returned) p v w h =
    elim (Bool-cases (contains room p.active_rooms)) [
      | inl held ↦
          (let m = finish-position p room returned k h in inr (rw held (omega (arith, m.0), m.1)))
      | inr free ↦ inr (rw free (omega arith, h))
    ]

run-serves :
    (k : String) (ss : List Section) (p : MemoryPipeline)
    → p.drop_oldest ≡ false
    → IsSound p
    → HasWork p
    → contains k p.ready_rooms ≡ true
    → position k p.ready_rooms < takes_in ss
    → 1 ≤ length (handed_out k ss p)
unfolding handed_out takes_in
run-serves k [] p keep v w h n = omega (arith, n)
run-serves k (s ∷ ss) p keep v w h n = elim (step-Advances k s p v w h) [
  | inl out ↦ rw (length-append (taken_by k s p) (handed_out k ss (step s p))) (omega (arith, out))
  | inr on ↦
      (let rest =
          run-serves k ss (step s p) ((step-InOrder "" s p keep v).1 ∙ keep) (step-IsSound s p v)
            (step-HasWork s p keep v w) on.1 (omega (arith, on.0, n, takes_in_cons s ss)) in
        rw (length-append (taken_by k s p) (handed_out k ss (step s p))) (omega (arith, rest)))
]

HasWork-init :
    (global_limit room_limit partitions ttl : ℕ)
    → HasWork (init global_limit room_limit partitions false ttl)
unfolding contains
HasWork-init global_limit room_limit partitions ttl k h = ground arith

-- The state after a schedule from the start, under the policy that drops no envelope.
abbrev pub reached : ℕ → ℕ → ℕ → ℕ → List Section → MemoryPipeline
reached global_limit room_limit partitions ttl before =
    run before (init global_limit room_limit partitions false ttl)

-- Under the policy that drops no envelope, in a state that some schedule `before` reaches: a room that
-- has an envelope and that no worker holds is ready, at some place of the ready list; in every schedule
-- from there on in which workers look for an item more often than there are rooms before that place,
-- whatever the callers and the other sections do meanwhile, a worker gets an envelope of the room.
pub no_starvation :
    (global_limit room_limit partitions ttl : ℕ) (before after : List Section) (k : String)
    → is_empty (queue_of k (reached global_limit room_limit partitions ttl before)) ≡ false
    → contains k (reached global_limit room_limit partitions ttl before).active_rooms ≡ false
    → position k (reached global_limit room_limit partitions ttl before).ready_rooms
      < takes_in after
    → (contains k (reached global_limit room_limit partitions ttl before).ready_rooms ≡ true)
      × (1 ≤ length (handed_out k after (reached global_limit room_limit partitions ttl before)))
no_starvation global_limit room_limit partitions ttl before after k full free n =
    let start = init global_limit room_limit partitions false ttl in
    let v = init-IsSound global_limit room_limit partitions false ttl in
    let u = run-IsSound before start v in
    let w = run-HasWork before start refl v (HasWork-init global_limit room_limit partitions ttl) in
    let ready : contains k (run before start).ready_rooms ≡ true = ground (arith, u.serves k) in
    (ready, run-serves k after (run before start) w.1 u w.0 ready n)
