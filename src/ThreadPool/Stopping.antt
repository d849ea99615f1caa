-- ===== src/ThreadPool/Stopping.antt =====
-- When `Stop` of threadpool/pool.go returns, and when `wg.Done` of worker.go panics.
use blueprint.Prelude.{
  Holds-some, total, ℕ, ◌%◌, ◌^◌, ◌≤◌, ℤ, Bool, true, false, Option, none, some, List, [], ◌∷◌, ◌≡◌,
  arith, Option-cases, inl, inr,
}
use blueprint.Errors.{ok}
use blueprint.ThreadPool.Workers.{new_worker, update_at, leave, alive}
use blueprint.ThreadPool.Sums.{leave-alive, busy-le-alive}
use blueprint.ThreadPool.{
  WorkerGroup, ThreadPool, Event, start, spawn, exit, step_exit, step_spawn, step_start,
  step_stop_returns, step_running, step, run, new_thread_pool, get_request_count, request_count,
}
use blueprint.ThreadPool.Invariant.{run-Inv}
use blueprint.ThreadPool.Sound.{group-IsSound, Inv, IsSound}

module _ {J : Type 0} where
  -- A pool that could be created starts with the invariant.
  pub new_thread_pool-Inv : (wc qs : ℤ) (t : ThreadPool J) → new_thread_pool wc qs ≡ ok t → Inv t
  unfolding new_thread_pool
  new_thread_pool-Inv wc qs t e = record {
    bounded = ground arith;
    fifo = ground arith;
    group = ground arith;
  }

  -- Whatever happens to a pool that could be created, it keeps the invariant `Inv`: the queue is
  -- within its capacity, jobs are started in the order in which they were dispatched, and, until a
  -- panic, each job received is finished or runs on one worker, the request counters add up to the
  -- finished jobs modulo 2 ^ 64, and the wait group counts the live goroutines, but for one that
  -- was started and is not added yet.
  pub run-new_thread_pool :
      (wc qs : ℤ) (t : ThreadPool J)
      → new_thread_pool wc qs ≡ ok t
      → (es : List (Event J)) (t' : ThreadPool J) → run es t ≡ some t'
      → Inv t'
  run-new_thread_pool wc qs t e es t' r =
      Holds-some Inv (run es t) t' r (run-Inv es t (new_thread_pool-Inv wc qs t e))

  -- In a started pool with the invariant that has not panicked, `GetRequestCount` answers the
  -- number of jobs that its workers have finished, modulo 2 ^ 64.
  get_request_count_lem :
      (t : ThreadPool J) (w : WorkerGroup J)
      → Inv t
      → t.panicked ≡ false
      → t.workers ≡ some w
      → w.to_spawn ≡ 0
      → w.adding ≡ false
      → get_request_count t ≡ w.finished % 2 ^ 64
  unfolding get_request_count request_count
  get_request_count_lem t w h p o n a =
      ground (arith, o, n, a, (group-IsSound t.panicked t.workers w p o h.group).counted)

  -- In a sound group the wait for the goroutines returns only when none is left, and then every
  -- job that the group received is finished.
  pub stop_returns-finished :
      (t : ThreadPool J) (w : WorkerGroup J) (t' : ThreadPool J)
      → IsSound w
      → step_stop_returns t w ≡ some t'
      → (w.received ≡ w.finished) × (total alive w.workers ≡ 0)
  unfolding step_stop_returns
  stop_returns-finished t w t' h e =
      (ground (arith, e, h.waited, h.served, busy-le-alive w.workers), ground (arith, e, h.waited))

  -- In a sound group whose started goroutines are all added, a goroutine's end does not panic.
  exit_keeps_running :
      (i : ℕ) (t : ThreadPool J) (w : WorkerGroup J) (t' : ThreadPool J)
      → IsSound w
      → w.adding ≡ false
      → step_exit i t w ≡ some t'
      → t'.panicked ≡ t.panicked
  unfolding step_exit
  exit_keeps_running i t w t' h a e = elim (Option-cases (update_at i leave w.workers)) [
    | inl n ↦ ground (arith, n, e)
    | inr (ws, u) ↦ ground (arith, h.waited, leave-alive i w.workers ws u, a, u, e)
  ]

  abbrev pub has_panicked : Option (ThreadPool J) → Bool
  has_panicked none = false
  has_panicked (some t) = t.panicked

  -- From every stopped pool with a worker to start, `Start` with a context that is cancelled
  -- already can panic: the first goroutine may return before `Add(1)` has counted it.
  pub early_cancel_panics :
      (t : ThreadPool J)
      → t.workers ≡ none
      → t.panicked ≡ false
      → 1 ≤ t.worker_count
      → has_panicked (run (start true ∷ spawn ∷ exit 0 ∷ []) t) ≡ true
  unfolding run step step_running step_start step_spawn step_exit update_at leave new_worker
  early_cancel_panics t e p h = ground (arith, e, p)
