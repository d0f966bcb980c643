-- ===== src/Runner/Bounds.antt =====
-- What the counters and the semaphore of the runner say, in every order of its sections.
use kakao_x_termux.Prelude.{ℕ, ◌+◌, ◌≤◌, ◌≡◌, refl, ◌∙◌, List, [], ◌∷◌, max, arith}
use kakao_x_termux.Runner.{
  Pool, init, enter, acquire, count, launch, begin, end, cancel, finish, release, wait, close,
  queued, Step, step, run,
}

-- Every permit is free or held, and every accepted task is counted once.
pub record IsCounted (p : Pool) : Type 0 where
  pub permits :
      p.runner.semaphore + p.tasks.acquired + p.tasks.counted + p.tasks.pending + p.tasks.active
        + p.tasks.done + p.tasks.leaving
      ≡ p.runner.max_workers + p.runner.queue_size
  pub in_use : p.runner.running ≡ p.tasks.active
  pub accepted :
      p.runner.submitted
      ≡ p.runner.completed + p.tasks.counted + p.tasks.pending + p.tasks.active + p.tasks.done
        + p.tasks.refused

-- The size of the semaphore does not change.
abbrev size : Pool → ℕ
size p = p.runner.max_workers + p.runner.queue_size

step-IsCounted : (p : Pool) → IsCounted p → (s : Step) → IsCounted (step s p)
unfolding step enter acquire count launch begin end cancel finish release wait close
step-IsCounted p v s = record {
  permits = ground (arith, v.permits);
  in_use = ground (arith, v.in_use);
  accepted = ground (arith, v.accepted);
}

step-size : (s : Step) (p : Pool) → size (step s p) ≡ size p
unfolding step enter acquire count launch begin end cancel finish release wait close
step-size s p = ground arith

run-IsCounted :
    (ss : List Step) (p : Pool) → IsCounted p → IsCounted (run ss p) × (size (run ss p) ≡ size p)
unfolding run
run-IsCounted [] p v = (v, refl)
run-IsCounted (s ∷ ss) p v =
    let h = run-IsCounted ss (step s p) (step-IsCounted p v s) in (h.0, h.1 ∙ step-size s p)

init-IsCounted : (max_workers queue_size : ℕ) → IsCounted (init max_workers queue_size)
init-IsCounted max_workers queue_size = record {
  permits = omega arith;
  in_use = refl;
  accepted = omega arith;
}

-- In every order of the sections of the callers and of the pool: the tasks in the pool are no more than the
-- workers and the places of the queue, the semaphore is never released beyond its size, the figure `running`
-- is the number of running tasks, and the figure `queued` is the number of tasks that are about to enter the
-- pool, wait in it or are done without their callback, plus all those that the pool ever refused.
pub run_lem :
    (max_workers queue_size : ℕ) (ss : List Step)
    → let p = run ss (init max_workers queue_size) in
      (p.tasks.pending + p.tasks.active + p.tasks.done ≤ max max_workers 1 + queue_size)
      × (p.runner.semaphore + p.tasks.leaving ≤ max max_workers 1 + queue_size)
      × (p.runner.running ≡ p.tasks.active)
      × (queued p ≡ p.tasks.counted + p.tasks.pending + p.tasks.done + p.tasks.refused)
unfolding queued
run_lem max_workers queue_size ss =
    let h =
      run-IsCounted ss (init max_workers queue_size) (init-IsCounted max_workers queue_size) in
    (
      omega (arith, h.0.permits, h.1),
      omega (arith, h.0.permits, h.1),
      h.0.in_use,
      omega (arith, h.0.accepted, h.0.in_use),
    )
