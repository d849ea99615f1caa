-- ===== src/ThreadPool/Invariant.antt =====
-- Each event of threadpool/pool.go and worker.go keeps what holds of a thread pool.
use mathlib.Core.List.{append_assoc}
use blueprint.Prelude.{
  Holds, Holds-if, Holds-elim, Holds-unless, total-append, ℕ, Bool, true, false, not, ◌&&◌, Option,
  none, some, List, [], ◌∷◌, ◌++◌, ◌≡◌, refl, sym, ap, ◌∙◌, arith, length, length-append, ltb, ◌==◌,
}
use blueprint.ThreadPool.Workers.{
  new_worker, update_at, take_job, end_job, leave, counter, busy, alive,
}
use blueprint.ThreadPool.Sums.{
  take_job-busy, take_job-alive, take_job-counter, end_job-busy, end_job-alive, end_job-counter,
  leave-busy, leave-alive, leave-counter,
}
use blueprint.ThreadPool.{
  new_group, WorkerGroup, ThreadPool, Event, dispatch, start, spawn, add, receive, finish, exit,
  cancel, stop_returns, step_dispatch, step_start, step_spawn, step_add, receive_from, step_finish,
  step_exit, step_stop_returns, step_running, step, run,
}
use blueprint.ThreadPool.Sound.{
  IsSound, Inv, Holds-in_group, group-IsSound, GroupSound-none, GroupSound-some, GroupSound-or,
}

module _ {J : Type 0} where
  step_dispatch-Inv : (j : J) (t : ThreadPool J) → Inv t → Holds Inv (step_dispatch j t)
  unfolding step_dispatch
  step_dispatch-Inv j t h = Holds-if Inv (ltb (length t.job_queue) t.queue_size) _ (λ e. record {
    bounded = ground (arith, length-append t.job_queue (j ∷ []), e);
    fifo = ap (λ l. l ++ j ∷ []) h.fifo ∙ append_assoc t.started t.job_queue (j ∷ []);
    group = h.group;
  })

  new_group-IsSound : (n : ℕ) (b : Bool) → IsSound (new_group {J = J} n b)
  new_group-IsSound n b = record { served = refl; counted = refl; waited = refl }

  start_group : ThreadPool J → Bool → Option (WorkerGroup J) → Option (ThreadPool J)
  start_group t b o = elim o [
    | none ↦ some (record t { workers = some (new_group t.worker_count b) })
    | some w ↦ none
  ]

  start_group-Inv :
      (t : ThreadPool J) (b : Bool)
      → Inv t
      → (o : Option (WorkerGroup J)) → Holds Inv (start_group t b o)
  unfolding start_group
  start_group-Inv t b h none = record {
    bounded = h.bounded;
    fifo = h.fifo;
    group = GroupSound-some t.panicked _ (new_group-IsSound t.worker_count b);
  }
  start_group-Inv t b h (some w) = tt

  step_start-Inv : (b : Bool) (t : ThreadPool J) → Inv t → Holds Inv (step_start b t)
  unfolding step_start start_group
  step_start-Inv b t h = start_group-Inv t b h t.workers

  module _ (t : ThreadPool J) (w : WorkerGroup J) (h : Inv t) (s : IsSound w) where
    step_spawn-Inv : Holds Inv (step_spawn t w)
    unfolding step_spawn new_worker
    step_spawn-Inv = Holds-if Inv (ltb 0 w.to_spawn && not w.adding) _ (λ e. record {
      bounded = h.bounded;
      fifo = h.fifo;
      group = GroupSound-some t.panicked _ (record {
        served = ground (arith, total-append busy w.workers (new_worker ∷ []), s.served);
        counted = ground (arith, total-append counter w.workers (new_worker ∷ []), s.counted);
        waited = ground (arith, total-append alive w.workers (new_worker ∷ []), s.waited, e);
      });
    })

    step_add-Inv : Holds Inv (step_add t w)
    unfolding step_add
    step_add-Inv = Holds-if Inv w.adding _ (λ e. record {
      bounded = h.bounded;
      fifo = h.fifo;
      group =
          GroupSound-some t.panicked _ (record {
            served = s.served;
            counted = s.counted;
            waited = ground (arith, s.waited, e);
          });
    })

    step_finish-Inv : (i : ℕ) → Holds Inv (step_finish i t w)
    unfolding step_finish
    step_finish-Inv i = Holds-elim Inv (update_at i end_job w.workers) _ (λ ws e. record {
      bounded = h.bounded;
      fifo = h.fifo;
      group = GroupSound-some t.panicked _ (record {
        served = omega (arith, s.served, end_job-busy i w.workers ws e);
        counted = omega (arith, s.counted, end_job-counter i w.workers ws e);
        waited = omega (arith, s.waited, end_job-alive i w.workers ws e);
      });
    })

    step_exit-Inv : (i : ℕ) → Holds Inv (step_exit i t w)
    unfolding step_exit
    step_exit-Inv i = Holds-elim Inv (update_at i leave w.workers) _ (λ ws e.
        Holds-if Inv w.cancelled _ (λ c. record {
          bounded = h.bounded;
          fifo = h.fifo;
          group = GroupSound-or t.panicked (w.wg == 0) _ (λ z. record {
            served = omega (arith, s.served, leave-busy i w.workers ws e);
            counted = omega (arith, s.counted, leave-counter i w.workers ws e);
            waited = ground (arith, s.waited, leave-alive i w.workers ws e, z);
          });
        }))

    step_stop_returns-Inv : Holds Inv (step_stop_returns t w)
    unfolding step_stop_returns
    step_stop_returns-Inv =
        Holds-if Inv (w.cancelled && w.wg == 0 && w.to_spawn == 0 && not w.adding) _
          (λ e. record { bounded = h.bounded; fifo = h.fifo; group = GroupSound-none J t.panicked })

    receive_from-Inv : (i : ℕ) (q : List J) → t.job_queue ≡ q → Holds Inv (receive_from i q t w)
    unfolding receive_from
    receive_from-Inv i [] e = tt
    receive_from-Inv i (j ∷ rest) e = Holds-elim Inv (update_at i (take_job j) w.workers) _ (λ ws u.
        record {
          bounded = ground (arith, ap length e, h.bounded);
          fifo = h.fifo ∙ ap (λ l. t.started ++ l) e ∙ sym (append_assoc t.started (j ∷ []) rest);
          group = GroupSound-some t.panicked _ (record {
            served = omega (arith, s.served, take_job-busy j i w.workers ws u);
            counted = omega (arith, s.counted, take_job-counter j i w.workers ws u);
            waited = omega (arith, s.waited, take_job-alive j i w.workers ws u);
          });
        })

  step_cancel-Inv :
      (t : ThreadPool J) (w : WorkerGroup J)
      → Inv t
      → IsSound w
      → Inv (record t { workers = some (record w { cancelled = true }) })
  step_cancel-Inv t w h s = record {
    bounded = h.bounded;
    fifo = h.fifo;
    group =
        GroupSound-some t.panicked _
          (record { served = s.served; counted = s.counted; waited = s.waited });
  }

  step_running-Inv :
      (e : Event J) (t : ThreadPool J) → t.panicked ≡ false → Inv t → Holds Inv (step_running e t)
  unfolding step_running
  step_running-Inv e t p h = by_event e
    where
      sound : (w : WorkerGroup J) → t.workers ≡ some w → IsSound w
      sound w o = group-IsSound t.panicked t.workers w p o h.group

      by_event : (e : Event J) → Holds Inv (step_running e t)
      by_event (dispatch j) = step_dispatch-Inv j t h
      by_event (start b) = step_start-Inv b t h
      by_event spawn = Holds-in_group Inv _ t.workers (λ w o. step_spawn-Inv t w h (sound w o))
      by_event add = Holds-in_group Inv _ t.workers (λ w o. step_add-Inv t w h (sound w o))
      by_event (receive i) =
          Holds-in_group Inv _ t.workers
            (λ w o. receive_from-Inv t w h (sound w o) i t.job_queue refl)
      by_event (finish i) =
          Holds-in_group Inv _ t.workers (λ w o. step_finish-Inv t w h (sound w o) i)
      by_event (exit i) = Holds-in_group Inv _ t.workers (λ w o. step_exit-Inv t w h (sound w o) i)
      by_event cancel = Holds-in_group Inv _ t.workers (λ w o. step_cancel-Inv t w h (sound w o))
      by_event stop_returns =
          Holds-in_group Inv _ t.workers (λ w o. step_stop_returns-Inv t w h (sound w o))

  pub step-Inv : (e : Event J) (t : ThreadPool J) → Inv t → Holds Inv (step e t)
  unfolding step
  step-Inv e t h = Holds-unless Inv t.panicked (step_running e t) (λ p. step_running-Inv e t p h)

  Holds-next :
      (es : List (Event J))
      → ((t : ThreadPool J) → Inv t → Holds Inv (run es t))
      → (o : Option (ThreadPool J)) → Holds Inv o
      → Holds Inv (elim o [ none ↦ none | some t ↦ run es t ])
  Holds-next es next none q = tt
  Holds-next es next (some t) q = next t q

  pub run-Inv : (es : List (Event J)) (t : ThreadPool J) → Inv t → Holds Inv (run es t)
  unfolding run
  run-Inv [] t h = h
  run-Inv (e ∷ es) t h = Holds-next es (run-Inv es) (step e t) (step-Inv e t h)
