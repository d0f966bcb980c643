-- ===== src/Pipeline/Schedule.antt =====
-- The threads of the pipeline as a schedule of critical sections, in any order: callers of
-- `enqueue_event` between and behind one another, and workers.
use kakao_x_termux.Prelude.{ℕ, String, Bool, List, [], ◌∷◌, if◌then◌else◌}
use kakao_x_termux.Prelude.Texts.{contains}
use kakao_x_termux.Schemas.{BridgeEvent}
use kakao_x_termux.Pipeline.State.{InMemoryEventEnvelope, MemoryPipeline}
use kakao_x_termux.Pipeline.Admission.{admit, commit, reject}
use kakao_x_termux.Pipeline.Worker.{next_item, finish}

pub data Section : Type 0 where
  admits : BridgeEvent → ℕ → Section
  refuses : Section
  commits : InMemoryEventEnvelope → Section
  takes : Section
  finishes : String → Bool → Section

-- A worker finishes only a room that it holds.
unfoldable pub step : Section → MemoryPipeline → MemoryPipeline
step (admits event now) p = (admit event now p).0
step refuses p = reject p
step (commits envelope) p = commit envelope p
step takes p = (next_item p).0
step (finishes room returned) p = if contains room p.active_rooms then finish room returned p else p

unfoldable pub run : List Section → MemoryPipeline → MemoryPipeline
unfolding step
run [] p = p
run (s ∷ ss) p = run ss (step s p)
