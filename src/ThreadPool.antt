-- ===== src/ThreadPool.antt =====
-- threadpool/pool.go and worker.go: a pool of goroutines that take jobs from a buffered channel.
-- What the goroutines and the callers do is a sequence of events; `step` says what an event does
-- where it can happen, and `none` that it cannot. The state also records, for the theorems, the
-- jobs dispatched and received so far and how many this group has received and finished.
pub mod Workers
pub mod Sums
pub mod Sound
pub mod Invariant
pub mod Stopping
pub mod Descent
pub mod Draining
use blueprint.Prelude.{
  total, ℕ, ◌+◌, ◌-◌, ◌%◌, ◌^◌, ℤ, pos, pos_part, ltz, Bool, true, false, not, ◌&&◌, ◌||◌, Option,
  none, some, List, [], ◌∷◌, ◌++◌, length, ltb, ◌==◌, if◌then◌else◌,
}
use blueprint.Errors.{
  Error, Err, Result, ok, err, err_invalid_worker_count, err_invalid_queue_size,
  err_pool_not_started, err_pool_already_started,
}
use Workers.{
  Worker, Status, idle, running, stopped, new_worker, update_at, take_job, end_job, leave, counter,
}

-- The `WaitGroup` is its counter. While `NewWorkerGroup` runs, `to_spawn` goroutines are still to
-- be started, and `adding` says that the one started last is not yet counted by `wg.Add(1)`.
pub record WorkerGroup (J : Type 0) : Type 0 where
  pub workers : List (Worker J)
  pub cancelled : Bool
  pub wg : ℕ
  pub to_spawn : ℕ
  pub adding : Bool
  pub received : ℕ
  pub finished : ℕ

pub record ThreadPool (J : Type 0) : Type 0 where
  pub workers : Option (WorkerGroup J)
  pub worker_count : ℕ
  pub queue_size : ℕ
  pub job_queue : List J
  pub panicked : Bool
  pub dispatched : List J
  pub started : List J

-- A worker is named by its index.
pub data Event (J : Type 0) : Type 0 where
  dispatch : J → Event J
  start : Bool → Event J
  spawn : Event J
  add : Event J
  receive : ℕ → Event J
  finish : ℕ → Event J
  exit : ℕ → Event J
  cancel : Event J
  stop_returns : Event J

module _ {J : Type 0} where
  unfoldable pub new_thread_pool : ℤ → ℤ → Result (ThreadPool J)
  new_thread_pool worker_count queue_size =
      if ltz worker_count (pos 1)
      then err err_invalid_worker_count
      else if ltz queue_size (pos 1)
      then err err_invalid_queue_size
      else ok (record {
        workers = none;
        worker_count = pos_part worker_count;
        queue_size = pos_part queue_size;
        job_queue = [];
        panicked = false;
        dispatched = [];
        started = [];
      })

  unfoldable pub get_queue_len : ThreadPool J → ℕ
  get_queue_len t = length t.job_queue

  unfoldable pub get_queue_capacity : ThreadPool J → ℕ
  get_queue_capacity t = t.queue_size

  -- The field `workers` is set only when `NewWorkerGroup` has returned.
  abbrev pub workers_field : ThreadPool J → Option (WorkerGroup J)
  workers_field t = elim t.workers [
    | none ↦ none
    | some w ↦ if w.to_spawn == 0 && not w.adding then some w else none
  ]

  unfoldable pub get_worker_count : ThreadPool J → ℕ
  get_worker_count t = elim (workers_field t) [ none ↦ 0 | some w ↦ length w.workers ]

  -- The sum of the counters, in 64 bits.
  unfoldable pub request_count : WorkerGroup J → ℕ
  request_count w = total counter w.workers % 2 ^ 64

  unfoldable pub get_request_count : ThreadPool J → ℕ
  unfolding request_count
  get_request_count t = elim (workers_field t) [ none ↦ 0 | some w ↦ request_count w ]

  -- What `Start` and `Stop` return at once, if they do.
  unfoldable pub start_error : ThreadPool J → Err
  start_error t = elim (workers_field t) [ none ↦ none | some w ↦ some err_pool_already_started ]

  unfoldable pub stop_error : ThreadPool J → Err
  stop_error t = elim (workers_field t) [ none ↦ some err_pool_not_started | some w ↦ none ]

  abbrev pub new_group : ℕ → Bool → WorkerGroup J
  new_group n cancelled = record {
    workers = [];
    cancelled = cancelled;
    wg = 0;
    to_spawn = n;
    adding = false;
    received = 0;
    finished = 0;
  }

  -- `t.jobQueue <- j` goes on only where the channel has room.
  unfoldable pub step_dispatch : J → ThreadPool J → Option (ThreadPool J)
  step_dispatch j t =
      if ltb (length t.job_queue) t.queue_size
      then some
          (record t { job_queue = t.job_queue ++ j ∷ []; dispatched = t.dispatched ++ j ∷ [] })
      else none

  abbrev set_group : ThreadPool J → WorkerGroup J → ThreadPool J
  set_group t w = record t { workers = some w }

  -- One round of the loop of `NewWorkerGroup`: the goroutine is started, then `Add(1)`.
  unfoldable pub step_spawn : ThreadPool J → WorkerGroup J → Option (ThreadPool J)
  step_spawn t w =
      if ltb 0 w.to_spawn && not w.adding
      then some (
          set_group t (record w {
            workers = w.workers ++ new_worker ∷ [];
            to_spawn = w.to_spawn - 1;
            adding = true;
          }))
      else none

  unfoldable pub step_add : ThreadPool J → WorkerGroup J → Option (ThreadPool J)
  step_add t w =
      if w.adding then some (set_group t (record w { wg = w.wg + 1; adding = false })) else none

  -- `case job := <-w.jobQueue`
  unfoldable pub receive_from : ℕ → List J → ThreadPool J → WorkerGroup J → Option (ThreadPool J)
  receive_from i [] t w = none
  receive_from i (j ∷ rest) t w = elim (update_at i (take_job j) w.workers) [
    | none ↦ none
    | some ws ↦ some (record t {
      workers = some (record w { workers = ws; received = w.received + 1 });
      job_queue = rest;
      started = t.started ++ j ∷ [];
    })
  ]

  -- `job.Run` returns, and `w.requestCounter++`
  unfoldable pub step_finish : ℕ → ThreadPool J → WorkerGroup J → Option (ThreadPool J)
  step_finish i t w = elim (update_at i end_job w.workers) [
    | none ↦ none
    | some ws ↦ some (set_group t (record w { workers = ws; finished = w.finished + 1 }))
  ]

  -- `case <-w.ctx.Done()`, then `wg.Done()`, which panics on a counter of 0.
  unfoldable pub step_exit : ℕ → ThreadPool J → WorkerGroup J → Option (ThreadPool J)
  step_exit i t w = elim (update_at i leave w.workers) [
    | none ↦ none
    | some ws ↦
        if w.cancelled
        then some (record t {
          workers = some (record w { workers = ws; wg = w.wg - 1 });
          panicked = t.panicked || w.wg == 0;
        })
        else none
  ]

  -- `wg.Wait()` returns on a counter of 0, and `t.workers = nil`. `Stop` is not called before
  -- `Start` has returned.
  unfoldable pub step_stop_returns : ThreadPool J → WorkerGroup J → Option (ThreadPool J)
  step_stop_returns t w =
      if w.cancelled && w.wg == 0 && w.to_spawn == 0 && not w.adding
      then some (record t { workers = none })
      else none

  abbrev pub in_group :
      (WorkerGroup J → Option (ThreadPool J)) → Option (WorkerGroup J) → Option (ThreadPool J)
  in_group f none = none
  in_group f (some w) = f w

  -- `Start` is called by one goroutine at a time.
  unfoldable pub step_start : Bool → ThreadPool J → Option (ThreadPool J)
  step_start cancelled t = elim t.workers [
    | none ↦ some (set_group t (new_group t.worker_count cancelled))
    | some w ↦ none
  ]

  -- `start` comes with whether the context that `Start` was given is cancelled already, and
  -- `cancel` is `Stop`'s `cancelFn()` or a cancellation of that context. After a panic nothing
  -- runs.
  unfoldable pub step_running : Event J → ThreadPool J → Option (ThreadPool J)
  unfolding step_dispatch step_start step_spawn step_add receive_from step_finish step_exit
      step_stop_returns
  step_running (dispatch j) t = step_dispatch j t
  step_running (start cancelled) t = step_start cancelled t
  step_running spawn t = in_group (step_spawn t) t.workers
  step_running add t = in_group (step_add t) t.workers
  step_running (receive i) t = in_group (receive_from i t.job_queue t) t.workers
  step_running (finish i) t = in_group (step_finish i t) t.workers
  step_running (exit i) t = in_group (step_exit i t) t.workers
  step_running cancel t =
      in_group (λ w. some (set_group t (record w { cancelled = true }))) t.workers
  step_running stop_returns t = in_group (step_stop_returns t) t.workers

  unfoldable pub step : Event J → ThreadPool J → Option (ThreadPool J)
  unfolding step_running
  step e t = if t.panicked then none else step_running e t

  -- The state after a list of events, if each of them could happen.
  unfoldable pub run : List (Event J) → ThreadPool J → Option (ThreadPool J)
  run [] t = some t
  run (e ∷ es) t = elim (step e t) [ none ↦ none | some t' ↦ run es t' ]
