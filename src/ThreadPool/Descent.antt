-- ===== src/ThreadPool/Descent.antt =====
-- What the goroutines of a pool of threadpool/pool.go take off what is left to do, once `Stop` has
-- cancelled the context.
use blueprint.Prelude.{
  Holds, Holds-if, Holds-elim, Holds-some, Holds-unless, total, ℕ, ◌+◌, ◌*◌, ◌≤◌, ◌<◌, true, false,
  Option, none, some, List, [], ◌∷◌, ◌≡◌, refl, ap, arith, length, All,
}
use blueprint.ThreadPool.Workers.{update_at, take_job, end_job, leave, busy, alive}
use blueprint.ThreadPool.Sums.{
  take_job-busy, take_job-alive, end_job-busy, end_job-alive, leave-busy, leave-alive,
}
use blueprint.ThreadPool.{
  WorkerGroup, ThreadPool, Event, receive, finish, exit, receive_from, step_finish, step_exit,
  step_running, step, run, in_group,
}
use blueprint.ThreadPool.Sound.{IsSound, Inv, Holds-in_group, group-IsSound}
use blueprint.ThreadPool.Invariant.{step-Inv}

-- What the goroutines do by themselves.
abbrev pub IsWorkerEvent : {J : Type 0} → Event J → Type 0
IsWorkerEvent (receive i) = Unit
IsWorkerEvent (finish i) = Unit
IsWorkerEvent (exit i) = Unit
IsWorkerEvent _ = ⊥

-- The group is started, and its context is cancelled.
abbrev pub IsStopping : {J : Type 0} → Option (WorkerGroup J) → Type 0
IsStopping none = ⊥
IsStopping (some w) = (w.cancelled ≡ true) × (w.to_spawn ≡ 0) × (w.adding ≡ false)

pub record IsDraining {J : Type 0} (t : ThreadPool J) : Type 0 where
  pub inv : Inv t
  pub runs : t.panicked ≡ false
  pub stopping : IsStopping t.workers

-- What there is left to do: to receive and to finish each queued job, to finish each running one,
-- and to return from each goroutine.
abbrev pub group_load : {J : Type 0} → ℕ → Option (WorkerGroup J) → ℕ
group_load n none = 0
group_load n (some w) = 2 * n + total busy w.workers + total alive w.workers

abbrev pub work_left : {J : Type 0} → ThreadPool J → ℕ
work_left t = group_load (length t.job_queue) t.workers

module _ {J : Type 0} where
  -- What a worker's step keeps and what it takes off the load `n`.
  abbrev Lowers : ℕ → ThreadPool J → Type 0
  Lowers n t = (t.panicked ≡ false) × IsStopping t.workers × (work_left t < n)

  module _ (t : ThreadPool J) (w : WorkerGroup J) (p : t.panicked ≡ false) (g : IsStopping (some w))
      (s : IsSound w) where
    receive_from-Lowers :
        (i : ℕ) (q : List J)
        → Holds (Lowers (group_load (length q) (some w))) (receive_from i q t w)
    unfolding receive_from
    receive_from-Lowers i [] = tt
    receive_from-Lowers i (j ∷ q) =
        Holds-elim (Lowers (group_load (length (j ∷ q)) (some w)))
          (update_at i (take_job j) w.workers) _
          λ ws u. (
            p,
            g,
            omega (arith, take_job-busy j i w.workers ws u, take_job-alive j i w.workers ws u),
          )

    step_finish-Lowers :
        (i : ℕ) → Holds (Lowers (group_load (length t.job_queue) (some w))) (step_finish i t w)
    unfolding step_finish
    step_finish-Lowers i =
        Holds-elim (Lowers (group_load (length t.job_queue) (some w)))
          (update_at i end_job w.workers) _
          λ ws u.
            (p, g, omega (arith, end_job-busy i w.workers ws u, end_job-alive i w.workers ws u))

    step_exit-Lowers :
        (i : ℕ) → Holds (Lowers (group_load (length t.job_queue) (some w))) (step_exit i t w)
    unfolding step_exit
    step_exit-Lowers i =
        Holds-elim (Lowers (group_load (length t.job_queue) (some w))) (update_at i leave w.workers)
          _
          λ ws u. Holds-if (Lowers (group_load (length t.job_queue) (some w))) w.cancelled _ λ c. (
            ground (arith, p, s.waited, g, leave-alive i w.workers ws u),
            g,
            omega (arith, leave-busy i w.workers ws u, leave-alive i w.workers ws u),
          )

  IsStopping-some :
      (g : Option (WorkerGroup J)) (w : WorkerGroup J)
      → g ≡ some w
      → IsStopping g
      → IsStopping (some w)
  IsStopping-some none w e h = absurd h
  IsStopping-some (some v) w e h = ground (arith, e)

  Holds-of_load :
      (m n : ℕ) (o : Option (ThreadPool J)) → n ≡ m → Holds (Lowers m) o → Holds (Lowers n) o
  Holds-of_load m n o e h = rw e h

  -- A worker's step is one of the group.
  in_group-Lowers :
      (t : ThreadPool J) (f : WorkerGroup J → Option (ThreadPool J))
      → IsDraining t
      → ((w : WorkerGroup J)
          → IsStopping (some w)
          → IsSound w
          → Holds (Lowers (group_load (length t.job_queue) (some w))) (f w))
      → Holds (Lowers (work_left t)) (in_group f t.workers)
  in_group-Lowers t f h each = Holds-in_group (Lowers (work_left t)) f t.workers λ w o.
      Holds-of_load (group_load (length t.job_queue) (some w)) (work_left t) (f w)
        (ap (group_load (length t.job_queue)) o)
        (each w (IsStopping-some t.workers w o h.stopping)
          (group-IsSound t.panicked t.workers w h.runs o h.inv.group))

  step_running-Lowers :
      (e : Event J) (t : ThreadPool J)
      → IsDraining t
      → IsWorkerEvent e
      → Holds (Lowers (work_left t)) (step_running e t)
  unfolding step_running
  step_running-Lowers (receive i) t h k =
      in_group-Lowers t _ h λ w g s. receive_from-Lowers t w h.runs g s i t.job_queue
  step_running-Lowers (finish i) t h k =
      in_group-Lowers t _ h λ w g s. step_finish-Lowers t w h.runs g s i
  step_running-Lowers (exit i) t h k =
      in_group-Lowers t _ h λ w g s. step_exit-Lowers t w h.runs g s i
  step_running-Lowers _ t h k = absurd k

  -- What a step of a worker leads to.
  IsLess : ThreadPool J → ThreadPool J → Type 0
  IsLess t t' = IsDraining t' × (work_left t' < work_left t)

  Holds-IsLess :
      (t : ThreadPool J) (o : Option (ThreadPool J))
      → Holds Inv o
      → Holds (Lowers (work_left t)) o
      → Holds (IsLess t) o
  unfolding IsLess
  Holds-IsLess t none h l = tt
  Holds-IsLess t (some t') h (p, g, l) = (record { inv = h; runs = p; stopping = g }, l)

  step-IsLess :
      (e : Event J) (t : ThreadPool J)
      → IsDraining t
      → IsWorkerEvent e
      → Holds (IsLess t) (step e t)
  step-IsLess e t h k = Holds-IsLess t (step e t) (step-Inv e t h.inv) (
      unfold step in
      Holds-unless (Lowers (work_left t)) t.panicked _ (λ p. step_running-Lowers e t h k))

  after : List (Event J) → Option (ThreadPool J) → Option (ThreadPool J)
  after es o = elim o [ none ↦ none | some t ↦ run es t ]

  after-some :
      (es : List (Event J)) (o : Option (ThreadPool J)) (t' : ThreadPool J)
      → after es o ≡ some t'
      → (u : ThreadPool J) × (o ≡ some u) × (run es u ≡ some t')
  unfolding after
  after-some es none t' r = ground arith
  after-some es (some u) t' r = (u, refl, r)

  run-next :
      (e : Event J) (es : List (Event J)) (t t' : ThreadPool J)
      → run (e ∷ es) t ≡ some t'
      → (u : ThreadPool J) × (step e t ≡ some u) × (run es u ≡ some t')
  unfolding run after
  run-next e es t t' r = after-some es (step e t) t' r

  pub run-IsDraining :
      (es : List (Event J)) (t t' : ThreadPool J)
      → IsDraining t
      → All IsWorkerEvent es
      → run es t ≡ some t'
      → IsDraining t' × (length es + work_left t' ≤ work_left t)
  unfolding run IsLess
  run-IsDraining [] t t' h k r = (ground arith, ground arith)
  run-IsDraining (e ∷ es) t t' h k r =
      let (u, stepped, ran) = run-next e es t t' r in
      let (d, less) = Holds-some (IsLess t) (step e t) u stepped (step-IsLess e t h k.0) in
      let (d', bound) = run-IsDraining es u t' d k.1 ran in (d', omega arith)
