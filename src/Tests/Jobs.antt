-- ===== src/Tests/Jobs.antt =====
-- Reply jobs and their dispatch on concrete rows.
use kakao_x_termux.Prelude.{
  ℕ, ◌+◌, ◌≤◌, ◌≡◌, refl, none, some, true, false, List, [], ◌∷◌, arith, if◌then◌else◌, eqb,
}
use kakao_x_termux.Dict.{lookup}
use kakao_x_termux.ReplyJobs.{
  ReplyJob, pending, sent, retrying, Db, claim_reply_job_for_dispatch, update_where,
}
use kakao_x_termux.ReplyJobs.Ownership.{claim_exclusive}
use kakao_x_termux.ReplyJobs.Lifecycle.{
  WorkerCall, claims, completes, completions, completions-le-one,
}
use kakao_x_termux.ReplyJobs.Consistency.{
  IsConsistent, Statement, inserts, calls, updates, execute_all, execute_all-empty-IsConsistent,
}
use kakao_x_termux.Dispatch.{DispatchState, Round, dispatch_loop}
use kakao_x_termux.Dispatch.Completion.{Finished, dispatch_loop-Finished}

abbrev waiting_job : ReplyJob
waiting_job = record {
  room_key = "r";
  room = "Room";
  text = "hello";
  status = pending;
  dedupe_key = none;
  reply_token = some "t";
  attempt_count = 0;
  last_error = none;
  bridge_mode = "noop";
  created_at = 5;
  updated_at = 5;
  dispatch_owner = none;
  dispatch_lease_expires_at = none;
  dispatch_started_at = none;
  sent_at = none;
}

abbrev sent_job : ReplyJob
sent_job = record waiting_job { status = sent; attempt_count = 1; sent_at = some 9 }

abbrev jobs : Db
jobs = ("a", waiting_job) ∷ ("b", sent_job) ∷ []

claimed_a : (claim_reply_job_for_dispatch "a" "w1" 30 10 jobs).1 ≡ true
unfolding claim_reply_job_for_dispatch lookup update_where
claimed_a = refl

claim_exclusive_example :
    claim_reply_job_for_dispatch "a" "w2" 30 20 (claim_reply_job_for_dispatch "a" "w1" 30 10 jobs).0
    ≡ ((claim_reply_job_for_dispatch "a" "w1" 30 10 jobs).0, false)
claim_exclusive_example = claim_exclusive "a" "w1" 30 10 jobs "w2" 30 20 claimed_a (omega arith)

abbrev two_workers : List WorkerCall
two_workers =
    claims "a" "w1" 30 10
    ∷ claims "a" "w2" 30 11
    ∷ completes "a" "w1" sent none 12
    ∷ completes "a" "w2" sent none 13
    ∷ claims "b" "w1" 30 14
    ∷ []

completions-le-one_example : completions "a" two_workers jobs ≤ 1
completions-le-one_example = completions-le-one "a" two_workers jobs

abbrev script : List Statement
script =
    inserts "a" "r" "Room" "hello" none none "noop" 1
    ∷ calls (claims "a" "w1" 30 10)
    ∷ updates "a" sent none 11
    ∷ []

execute_all-empty-IsConsistent_example : IsConsistent (execute_all script [])
execute_all-empty-IsConsistent_example = execute_all-empty-IsConsistent script

-- The first attempt is told to try again, and the second one is sent.
abbrev rounds : ℕ → Round
rounds n = record {
  owner = "w1";
  claim_at = 10 + n;
  claim_raises = false;
  answer = some (record { ok = true; status = if eqb n 1 then retrying else sent; error = none });
  message = "";
  others = λ db. db;
  settle_at = 11 + n;
}

abbrev worker : DispatchState
worker = record {
  db = jobs;
  stats = record {
    submitted = 0;
    sent_count = 0;
    failed_count = 0;
    retrying_count = 0;
    rejected = 0;
  };
  calls = [];
}

dispatch_loop-Finished_example :
    Finished "a" waiting_job worker (dispatch_loop "a" 30 3 1 rounds worker)
unfolding lookup
dispatch_loop-Finished_example =
    dispatch_loop-Finished "a" 30 2 1 rounds worker waiting_job (λ n. (refl, λ db. refl)) refl refl
