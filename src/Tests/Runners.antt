-- ===== src/Tests/Runners.antt =====
-- The runner of external tasks on a concrete run: one task runs, one waits, and the pool refuses a third.
use kakao_x_termux.Prelude.{◌+◌, ◌≤◌, ◌≡◌, refl, true, false, List, [], ◌∷◌}
use kakao_x_termux.Runner.{
  Step, enters, acquires, counts, launches, begins, releases, run, init, queued, enter, acquire,
  count, launch, begin, release, step,
}
use kakao_x_termux.Runner.Bounds.{run_lem}

abbrev three_tasks : List Step
three_tasks =
    enters
    ∷ acquires
    ∷ counts
    ∷ launches true
    ∷ begins
    ∷ enters
    ∷ acquires
    ∷ counts
    ∷ launches true
    ∷ enters
    ∷ acquires
    ∷ counts
    ∷ launches false
    ∷ releases
    ∷ []

run_lem_example :
    let p = run three_tasks (init 1 2) in
    (p.tasks.pending + p.tasks.active + p.tasks.done ≤ 3)
    × (p.runner.semaphore + p.tasks.leaving ≤ 3)
    × (p.runner.running ≡ p.tasks.active)
    × (queued p ≡ p.tasks.counted + p.tasks.pending + p.tasks.done + p.tasks.refused)
run_lem_example = run_lem 1 2 three_tasks

-- The third task is gone, and still counts as queued.
queued-refused : queued (run three_tasks (init 1 2)) ≡ 2
unfolding run step enter acquire count launch begin release queued
queued-refused = refl
