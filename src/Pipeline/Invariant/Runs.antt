-- ===== src/Pipeline/Invariant/Runs.antt =====
-- The invariant over every schedule, and what it says to the threads.
use kakao_x_termux.Prelude.{ℕ, refl, Bool, List, [], ◌∷◌, Bool-cases, inl, inr}
use kakao_x_termux.Prelude.Texts.{contains}
use kakao_x_termux.Dict.{lookup}
use kakao_x_termux.Pipeline.State.{MemoryPipeline, init}
use kakao_x_termux.Pipeline.Schedule.{Section, admits, refuses, commits, takes, finishes, step, run}
use kakao_x_termux.Pipeline.Rooms.{total}
use kakao_x_termux.Pipeline.Invariant.{IsSound}
use kakao_x_termux.Pipeline.Invariant.Callers.{admit-IsSound, reject-IsSound, commit-IsSound}
use kakao_x_termux.Pipeline.Invariant.Workers.{next_item-IsSound, finish-IsSound}

pub step-IsSound : (s : Section) (p : MemoryPipeline) → IsSound p → IsSound (step s p)
unfolding step
step-IsSound (admits event now) p v = admit-IsSound event now p v
step-IsSound refuses p v = reject-IsSound p v
step-IsSound (commits e) p v = commit-IsSound e p v
step-IsSound takes p v = next_item-IsSound p v
step-IsSound (finishes room returned) p v = elim (Bool-cases (contains room p.active_rooms)) [
  | inl held ↦ rw held (finish-IsSound room returned p held v)
  | inr free ↦ rw free v
]

pub run-IsSound : (ss : List Section) (p : MemoryPipeline) → IsSound p → IsSound (run ss p)
unfolding run
run-IsSound [] p v = v
run-IsSound (s ∷ ss) p v = run-IsSound ss (step s p) (step-IsSound s p v)

pub init-IsSound :
    (global_limit room_limit partitions : ℕ) (drop_oldest : Bool) (ttl : ℕ)
    → IsSound (init global_limit room_limit partitions drop_oldest ttl)
unfolding contains total
init-IsSound global_limit room_limit partitions drop_oldest ttl = record {
  coherent = record {
    keys = tt;
    queued = refl;
    ready_same = λ k. refl;
    ready_distinct = tt;
    active_distinct = tt;
    active_count = refl;
    apart = λ k. refl;
  };
  serves = λ k. unfold lookup in refl;
}

-- From the start and under every schedule of callers and workers: the counters agree with the queues
-- and with the held rooms, the ready list and the ready set have the same rooms, no room is ready
-- and held at once, and each room with a queued event is ready or held, so no wakeup is lost.
pub run-init-IsSound :
    (global_limit room_limit partitions : ℕ) (drop_oldest : Bool) (ttl : ℕ) (ss : List Section)
    → IsSound (run ss (init global_limit room_limit partitions drop_oldest ttl))
run-init-IsSound global_limit room_limit partitions drop_oldest ttl ss =
    run-IsSound ss _ (init-IsSound global_limit room_limit partitions drop_oldest ttl)
