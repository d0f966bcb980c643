-- ===== src/Pipeline/Refinement.antt =====
-- What the pipeline promises, without its counters, its ready list and its seen ids: a queue for each
-- room, of which one worker at a time takes the oldest envelope. The sections do nothing else.
use kakao_x_termux.Prelude.{
  ℕ, ◌≡◌, refl, ap, ◌∙◌, String, Option, none, some, Bool, true, false, List, [], ◌∷◌, ◌++◌, arith,
  if◌then◌else◌, ◌==◌, eq_iff, ◌&&◌, ◌||◌, not, Bool-cases, inl, inr, is_empty,
}
use mathlib.Core.Path.{subst}
use kakao_x_termux.Prelude.Texts.{contains, contains-add, contains-discard, discard}
use kakao_x_termux.Dict.{lookup}
use kakao_x_termux.Pipeline.State.{
  InMemoryEventEnvelope, MemoryPipeline, queue_of, mark_room_ready, init,
}
use kakao_x_termux.Pipeline.Worker.{next_item, finish, take_head, take_ready}
use kakao_x_termux.Pipeline.Schedule.{Section, admits, refuses, commits, takes, finishes, step, run}
use kakao_x_termux.Pipeline.Drops.{tail, has_dropped, admit-Shrinks}
use kakao_x_termux.Pipeline.Rooms.{queue-without_head}
use kakao_x_termux.Pipeline.Invariant.{IsSound}
use kakao_x_termux.Pipeline.Invariant.Workers.{room_idle}
use kakao_x_termux.Pipeline.Invariant.Runs.{step-IsSound, init-IsSound}
use kakao_x_termux.Pipeline.Order.{commit_queue, finish_queue}
use kakao_x_termux.Pipeline.Admission.{admit, commit}
use kakao_x_termux.Schemas.{BridgeEvent}
use mathlib.Core.List.{append-nil}

pub record View : Type 0 where
  pub queue : String → List InMemoryEventEnvelope
  pub held : String → Bool

abbrev pub view : MemoryPipeline → View
view p = record { queue = λ k. queue_of k p; held = λ k. contains k p.active_rooms }

pub data Move : Type 0 where
  accepts : InMemoryEventEnvelope → Move
  hands : String → InMemoryEventEnvelope → Move
  releases : String → Move
  drops : String → Move
  stays : Move

abbrev pub head : List InMemoryEventEnvelope → Option InMemoryEventEnvelope
head [] = none
head (e ∷ q) = some e

abbrev pub apply : Move → View → View
apply (accepts e) v = record v {
  queue = λ k. if e.event.room_key == k then v.queue k ++ e ∷ [] else v.queue k;
}
apply (hands room e) v = record {
  queue = λ k. if room == k then tail (v.queue k) else v.queue k;
  held = λ k. (room == k) || v.held k;
}
apply (releases room) v = record v { held = λ k. not (room == k) && v.held k }
apply (drops room) v = record v { queue = λ k. if room == k then tail (v.queue k) else v.queue k }
apply stays v = v

-- An envelope is handed out only as the oldest of a room that no worker holds, only a held room is released, and
-- only a room with an envelope loses its oldest one.
abbrev pub Allowed : Move → View → Type 0
Allowed (accepts e) v = Unit
Allowed (hands room e) v = (head (v.queue room) ≡ some e) × (v.held room ≡ false)
Allowed (releases room) v = v.held room ≡ true
Allowed (drops room) v = is_empty (v.queue room) ≡ false
Allowed stays v = Unit

pub data Moves : List Move → View → View → Type 0 where
  done : {v : View} → Moves [] v v
  moved :
      {v w : View} (m : Move) (ms : List Move)
      → Allowed m v
      → Moves ms (apply m v) w
      → Moves (m ∷ ms) v w

abbrev handed : Option (String × InMemoryEventEnvelope) → Move
handed none = stays
handed (some (room, e)) = hands room e

-- What a section does to the rooms.
unfoldable pub move_of : Section → MemoryPipeline → Move
move_of (admits event now) p =
    if has_dropped p (admit event now p).0 then drops event.room_key else stays
move_of refuses p = stays
move_of (commits e) p = accepts e
move_of takes p = handed (next_item p).1
move_of (finishes room returned) p = if contains room p.active_rooms then releases room else stays

unfoldable pub moves_of : List Section → MemoryPipeline → List Move
unfolding step move_of
moves_of [] p = []
moves_of (s ∷ ss) p = move_of s p ∷ moves_of ss (step s p)

-- Two views are the same when they have the same queues and hold the same rooms.
View-ext :
    (v w : View)
    → ((k : String) → v.queue k ≡ w.queue k)
    → ((k : String) → v.held k ≡ w.held k)
    → v ≡ w
View-ext v w q h = λ i. record { queue = λ k. q k i; held = λ k. h k i }

mark_held :
    (room k : String) (p : MemoryPipeline)
    → contains k (mark_room_ready room p).active_rooms ≡ contains k p.active_rooms
unfolding mark_room_ready
mark_held room k p = ground arith

finish_held :
    (room : String) (returned : Bool) (p : MemoryPipeline) (k : String)
    → contains k (finish room returned p).active_rooms
      ≡ (not (room == k) && contains k p.active_rooms)
unfolding finish mark_room_ready
finish_held room returned p k = ground (arith, contains-discard room k p.active_rooms)

module _ (p : MemoryPipeline) (v : IsSound p) where
  -- What taking a ready room does, with the ready list and the queue as variables.
  abbrev Hands : MemoryPipeline × Option (String × InMemoryEventEnvelope) → Type 0
  Hands r = Allowed (handed r.1) (view p) × (view r.0 ≡ apply (handed r.1) (view p))

  take_head-Hands :
      (room : String) (rest : List String) (q : List InMemoryEventEnvelope)
      → p.ready_rooms ≡ room ∷ rest
      → queue_of room p ≡ q
      → Hands (
          take_head room q
            (record p { ready_rooms = rest; ready_room_set = discard room p.ready_room_set }))
  take_head-Hands room rest [] ready e = (tt, refl)
  take_head-Hands room rest (x ∷ xs) ready e = (
    (ap head e, room_idle room rest p ready v),
    View-ext _ _
        (λ k.
          queue-without_head room x xs p.room_queues v.coherent.keys e k
          ∙ (ground (arith, eq_iff room k, e, ap tail e)))
        (λ k. contains-add room k p.active_rooms),
  )

  take_ready-Hands : (ready : List String) → p.ready_rooms ≡ ready → Hands (take_ready ready p)
  take_ready-Hands [] e = (tt, refl)
  take_ready-Hands (room ∷ rest) e = take_head-Hands room rest (queue_of room p) e refl

  abbrev Refines : Section → Type 0
  Refines s = Allowed (move_of s p) (view p) × (view (step s p) ≡ apply (move_of s p) (view p))

  admit_held :
      (event : BridgeEvent) (now : ℕ) (k : String)
      → contains k (admit event now p).0.active_rooms ≡ contains k p.active_rooms
  unfolding admit
  admit_held event now k = ground arith

  step-Refines : (s : Section) → Refines s
  unfolding step move_of
  step-Refines (admits event now) = elim (admit-Shrinks event now p) [
    | inl (d, some_left, h) ↦ rw d (some_left, View-ext _ _ h (λ k. admit_held event now k))
    | inr (d, h) ↦ rw d (tt, View-ext _ _ h (λ k. admit_held event now k))
  ]
  step-Refines refuses = (tt, refl)
  step-Refines (commits e) = (
    tt,
    View-ext _ _ (λ k. commit_queue k e p ∙ ground (arith, append-nil (queue_of k p)))
        (λ k. unfold commit in mark_held e.event.room_key k _),
  )
  step-Refines takes = unfold next_item in take_ready-Hands p.ready_rooms refl
  step-Refines (finishes room returned) = elim (Bool-cases (contains room p.active_rooms)) [
    | inl held ↦ rw held (
      held,
      View-ext _ _ (λ k. (finish_queue k room returned p).0) (λ k. finish_held room returned p k),
    )
    | inr free ↦ rw free (tt, refl)
  ]

run-Moves :
    (ss : List Section) (p : MemoryPipeline)
    → IsSound p
    → Moves (moves_of ss p) (view p) (view (run ss p))
unfolding moves_of run
run-Moves [] p v = done
run-Moves (s ∷ ss) p v =
    let h = step-Refines p v s in
    moved (move_of s p) (moves_of ss (step s p)) h.0 (
      subst (λ u. Moves (moves_of ss (step s p)) u (view (run ss (step s p)))) h.1
        (run-Moves ss (step s p) (step-IsSound s p v)))

abbrev pub empty_view : View
empty_view = record { queue = λ k. []; held = λ k. false }

-- Under both policies, every schedule of callers and workers is, for who sees only the queue of each room and
-- which rooms are held, a sequence of allowed moves from the empty view: an accepted envelope goes to the end
-- of its room's queue, an envelope is handed out only as the oldest of a room that nobody holds, which is then
-- held, only a held room is released, and an admission that counts a drop, and no other, takes the oldest
-- envelope of its room away.
pub run-init-Moves :
    (global_limit room_limit partitions ttl : ℕ) (drop_oldest : Bool) (ss : List Section)
    → let start = init global_limit room_limit partitions drop_oldest ttl in
      Moves (moves_of ss start) empty_view (view (run ss start))
run-init-Moves global_limit room_limit partitions ttl drop_oldest ss =
    let start = init global_limit room_limit partitions drop_oldest ttl in
    subst (λ u. Moves (moves_of ss start) u (view (run ss start)))
      (View-ext (view start) empty_view (λ k. unfold lookup in refl) (λ k. unfold contains in refl))
      (run-Moves ss start (init-IsSound global_limit room_limit partitions drop_oldest ttl))
