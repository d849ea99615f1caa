-- ===== src/Tests/Pool.antt =====
-- A pool of threadpool/pool.go at work.
use blueprint.Prelude.{
  total, ◌+◌, ◌≤◌, ◌⊎◌, length, arith, ℕ, pos, true, false, Option, none, some, List, [], ◌∷◌, ◌≡◌,
  refl,
}
use blueprint.Errors.{ok}
use blueprint.ThreadPool.Workers.{
  idle, running, stopped, update_at, take_job, end_job, leave, alive, new_worker,
}
use blueprint.ThreadPool.{
  WorkerGroup, ThreadPool, Event, dispatch, start, spawn, add, receive, finish, exit, stop_returns,
  new_thread_pool, run, step, step_running, step_dispatch, step_start, step_spawn, step_add,
  receive_from, step_finish, step_exit, step_stop_returns,
}
use blueprint.ThreadPool.Sound.{Inv}
use blueprint.ThreadPool.Descent.{IsDraining, work_left}
use blueprint.ThreadPool.Draining.{MovesOn, stop_returns_at_last}
use blueprint.ThreadPool.Stopping.{
  run-new_thread_pool, stop_returns-finished, early_cancel_panics, has_panicked,
}

-- Jobs are numbers. A pool of one worker and two places in its queue, as it is created.
abbrev fresh_pool : ThreadPool ℕ
fresh_pool = record {
  workers = none;
  worker_count = 1;
  queue_size = 2;
  job_queue = [];
  panicked = false;
  dispatched = [];
  started = [];
}

fresh : new_thread_pool {J = ℕ} (pos 1) (pos 2) ≡ ok fresh_pool
unfolding new_thread_pool
fresh = refl

-- It has run one job and runs another, and a third one waits.
abbrev busy_group : WorkerGroup ℕ
busy_group = record {
  workers = record { status = running 11; request_counter = 1 } ∷ [];
  cancelled = false;
  wg = 1;
  to_spawn = 0;
  adding = false;
  received = 2;
  finished = 1;
}

abbrev busy_pool : ThreadPool ℕ
busy_pool = record {
  workers = some busy_group;
  worker_count = 1;
  queue_size = 2;
  job_queue = 12 ∷ [];
  panicked = false;
  dispatched = 10 ∷ 11 ∷ 12 ∷ [];
  started = 10 ∷ 11 ∷ [];
}

abbrev events : List (Event ℕ)
events =
    start false
    ∷ spawn
    ∷ add
    ∷ dispatch 10
    ∷ dispatch 11
    ∷ receive 0
    ∷ finish 0
    ∷ dispatch 12
    ∷ receive 0
    ∷ []

events_happen : run events fresh_pool ≡ some busy_pool
unfolding run step step_running step_dispatch step_start step_spawn step_add receive_from
    step_finish update_at take_job end_job new_worker
events_happen = refl

run-new_thread_pool_example : Inv busy_pool
run-new_thread_pool_example =
    run-new_thread_pool (pos 1) (pos 2) fresh_pool fresh events busy_pool events_happen

-- The worker has returned after its second job, and before that, with the context cancelled.
abbrev stopped_group : WorkerGroup ℕ
stopped_group = record {
  workers = record { status = stopped; request_counter = 2 } ∷ [];
  cancelled = true;
  wg = 0;
  to_spawn = 0;
  adding = false;
  received = 2;
  finished = 2;
}

abbrev leaving_group : WorkerGroup ℕ
leaving_group = record {
  workers = record { status = idle; request_counter = 2 } ∷ [];
  cancelled = true;
  wg = 1;
  to_spawn = 0;
  adding = false;
  received = 2;
  finished = 2;
}

abbrev with_group : Option (WorkerGroup ℕ) → ThreadPool ℕ
with_group w = record busy_pool { workers = w }

stop_happens :
    step_stop_returns (with_group (some stopped_group)) stopped_group ≡ some (with_group none)
unfolding step_stop_returns
stop_happens = refl

stop_returns-finished_example :
    (stopped_group.received ≡ stopped_group.finished) × (total alive stopped_group.workers ≡ 0)
stop_returns-finished_example =
    stop_returns-finished (with_group (some stopped_group)) stopped_group (with_group none)
      (record { served = refl; counted = refl; waited = refl }) stop_happens

early_cancel_panics_example :
    has_panicked (run (start true ∷ spawn ∷ exit 0 ∷ []) fresh_pool) ≡ true
early_cancel_panics_example = early_cancel_panics fresh_pool refl refl (omega arith)

-- A job waits, and the worker returns without it.
leaving_pool-IsDraining : IsDraining (with_group (some leaving_group))
leaving_pool-IsDraining = record {
  inv = record {
    bounded = omega arith;
    fifo = refl;
    group = record { served = refl; counted = refl; waited = refl };
  };
  runs = refl;
  stopping = (refl, refl, refl);
}

leaving_happens :
    run (exit 0 ∷ []) (with_group (some leaving_group)) ≡ some (with_group (some stopped_group))
unfolding run step step_running step_exit update_at leave
leaving_happens = refl

stop_returns_at_last_example :
    (length {A = Event ℕ} (exit 0 ∷ []) + work_left (with_group (some stopped_group))
      ≤ work_left (with_group (some leaving_group)))
    × (MovesOn (with_group (some stopped_group))
        ⊎ (step stop_returns (with_group (some stopped_group)) ≡ some (with_group none)))
stop_returns_at_last_example =
    stop_returns_at_last (with_group (some leaving_group)) leaving_pool-IsDraining (exit 0 ∷ [])
      (with_group (some stopped_group)) (tt, tt) leaving_happens
