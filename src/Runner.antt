-- ===== src/Runner.antt =====
-- app/infra/external_runner.py, class ExternalTaskRunner: the counters and the semaphore around a pool of
-- threads. Each function is one critical section, one call of the semaphore or one act of the pool; calls and
-- futures are counted by how far they are. Whether the pool takes a task, starts, ends or cancels it is the
-- pool's matter.
pub mod Bounds
use kakao_x_termux.Prelude.{
  ℕ, suc, ◌+◌, ◌-◌, Bool, true, false, List, [], ◌∷◌, eqb, max, if◌then◌else◌,
}

pub record ExternalTaskRunner : Type 0 where
  pub max_workers : ℕ
  pub queue_size : ℕ
  pub semaphore : ℕ
  pub running : ℕ
  pub submitted : ℕ
  pub completed : ℕ
  pub rejected : ℕ
  pub timeout : ℕ
  pub failed : ℕ
  pub shutdown : Bool

-- The calls of `submit` that passed the test of `_shutdown`, those that hold a permit, and those that are counted
-- too; the futures that wait, run, or are done without their callback; the permits still to be given back; and
-- the number of tasks that the pool refused.
pub record Tasks : Type 0 where
  pub entered : ℕ
  pub acquired : ℕ
  pub counted : ℕ
  pub pending : ℕ
  pub active : ℕ
  pub done : ℕ
  pub leaving : ℕ
  pub refused : ℕ

pub record Pool : Type 0 where
  pub runner : ExternalTaskRunner
  pub tasks : Tasks

-- `__init__`
abbrev pub init : ℕ → ℕ → Pool
init max_workers queue_size = record {
  runner = record {
    max_workers = max max_workers 1;
    queue_size = queue_size;
    semaphore = max max_workers 1 + queue_size;
    running = 0;
    submitted = 0;
    completed = 0;
    rejected = 0;
    timeout = 0;
    failed = 0;
    shutdown = false;
  };
  tasks = record {
    entered = 0;
    acquired = 0;
    counted = 0;
    pending = 0;
    active = 0;
    done = 0;
    leaving = 0;
    refused = 0;
  };
}

-- `submit`, its first section: a runner that is shut down rejects.
unfoldable pub enter : Pool → Pool
enter p =
    if r.shutdown
    then record p { runner = record r { rejected = r.rejected + 1 } }
    else record p { tasks = record t { entered = t.entered + 1 } }
  where
    open p use {runner as r, tasks as t}

-- `submit`, the semaphore: without a permit the call rejects.
unfoldable pub acquire : Pool → Pool
acquire p =
    if eqb t.entered 0
    then p
    else if eqb r.semaphore 0
    then record {
      runner = record r { rejected = r.rejected + 1 };
      tasks = record t { entered = t.entered - 1 };
    }
    else record {
      runner = record r { semaphore = r.semaphore - 1 };
      tasks = record t { entered = t.entered - 1; acquired = t.acquired + 1 };
    }
  where
    open p use {runner as r, tasks as t}

-- `submit`, the section behind the semaphore.
unfoldable pub count : Pool → Pool
count p = if eqb t.acquired 0 then p else record {
  runner = record r { submitted = r.submitted + 1 };
  tasks = record t { acquired = t.acquired - 1; counted = t.counted + 1 };
}
  where
    open p use {runner as r, tasks as t}

-- `submit`, the call of the pool: it takes the task, or raises, and then the handler counts that.
unfoldable pub launch : Bool → Pool → Pool
launch taken p =
    if eqb t.counted 0
    then p
    else if taken
    then record p { tasks = record t { counted = t.counted - 1; pending = t.pending + 1 } }
    else record {
      runner = record r { failed = r.failed + 1; rejected = r.rejected + 1 };
      tasks = record t {
        counted = t.counted - 1;
        leaving = t.leaving + 1;
        refused = t.refused + 1;
      };
    }
  where
    open p use {runner as r, tasks as t}

-- `_run_tracked`, before and after the task.
unfoldable pub begin : Pool → Pool
begin p = if eqb t.pending 0 then p else record {
  runner = record r { running = r.running + 1 };
  tasks = record t { pending = t.pending - 1; active = t.active + 1 };
}
  where
    open p use {runner as r, tasks as t}

unfoldable pub end : Pool → Pool
end p = if eqb t.active 0 then p else record {
  runner = record r { running = r.running - 1 };
  tasks = record t { active = t.active - 1; done = t.done + 1 };
}
  where
    open p use {runner as r, tasks as t}

-- A future that is canceled before it starts: by `run` after its timeout, or by `shutdown`.
unfoldable pub cancel : Pool → Pool
cancel p =
    if eqb t.pending 0
    then p
    else record p { tasks = record t { pending = t.pending - 1; done = t.done + 1 } }
  where
    open p use {tasks as t}

-- `_finish`, the callback of a done future: its section.
unfoldable pub finish : Pool → Pool
finish p = if eqb t.done 0 then p else record {
  runner = record r { completed = r.completed + 1 };
  tasks = record t { done = t.done - 1; leaving = t.leaving + 1 };
}
  where
    open p use {runner as r, tasks as t}

-- The release of the semaphore, by `_finish` and by the handler of `submit`.
unfoldable pub release : Pool → Pool
release p = if eqb t.leaving 0 then p else record {
  runner = record r { semaphore = r.semaphore + 1 };
  tasks = record t { leaving = t.leaving - 1 };
}
  where
    open p use {runner as r, tasks as t}

-- `run`, once it has waited for its future: the result tells the timeout or the failure.
pub data Waited : Type 0 where
  value timed_out raised : Waited

unfoldable pub wait : Waited → Pool → Pool
wait value p = p
wait timed_out p = record p { runner = record p.runner { timeout = p.runner.timeout + 1 } }
wait raised p = record p { runner = record p.runner { failed = p.runner.failed + 1 } }

-- `shutdown`, its section; the pool cancels futures by `cancel`.
unfoldable pub close : Pool → Pool
close p = record p { runner = record p.runner { shutdown = true } }

-- `stats`, the figure `queued`.
unfoldable pub queued : Pool → ℕ
queued p = p.runner.submitted - p.runner.completed - p.runner.running

-- The callers and the pool's threads, in any order.
pub data Step : Type 0 where
  enters acquires counts begins ends cancels finishes releases closes : Step
  launches : Bool → Step
  waits : Waited → Step

unfoldable pub step : Step → Pool → Pool
unfolding enter acquire count launch begin end cancel finish release wait close
step enters p = enter p
step acquires p = acquire p
step counts p = count p
step (launches taken) p = launch taken p
step begins p = begin p
step ends p = end p
step cancels p = cancel p
step finishes p = finish p
step releases p = release p
step (waits result) p = wait result p
step closes p = close p

unfoldable pub run : List Step → Pool → Pool
unfolding step
run [] p = p
run (s ∷ ss) p = run ss (step s p)
