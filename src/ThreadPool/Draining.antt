-- ===== src/ThreadPool/Draining.antt =====
-- The end of a pool of threadpool/pool.go: after `Stop` has cancelled the context, the goroutines
-- run out of things to do, and `Stop` returns.
use blueprint.Prelude.{
  total, ℕ, zero, suc, ◌+◌, ◌≤◌, true, false, Option, none, some, List, [], ◌∷◌, ◌≡◌, ◌≢◌, refl,
  ◌⊎◌, inl, inr, arith, length, All,
}
use blueprint.ThreadPool.Workers.{
  Worker, Status, idle, running, stopped, update_at, end_job, leave, alive,
}
use blueprint.ThreadPool.{
  WorkerGroup, ThreadPool, Event, finish, exit, stop_returns, step_finish, step_exit,
  step_stop_returns, step_running, step, run,
}
use blueprint.ThreadPool.Sound.{IsSound, GroupSound, group-IsSound}
use blueprint.ThreadPool.Descent.{IsWorkerEvent, IsStopping, IsDraining, work_left, run-IsDraining}

dec_live : (n : ℕ) → (1 ≤ n) ⊎ (n ≡ 0)
dec_live zero = inr refl
dec_live (suc n) = inl (omega arith)

module _ {J : Type 0} where
  -- Somebody in the list can return or finish a job.
  CanMove : List (Worker J) → Type 0
  CanMove ws =
      (i : ℕ) × (vs : List (Worker J)) × ((update_at i leave ws ≡ some vs)
        ⊎ (update_at i end_job ws ≡ some vs))

  CanMove-here :
      (s : Status J) (n : ℕ) (ws : List (Worker J))
      → (CanMove (record { status = s; request_counter = n } ∷ ws)) ⊎ (s ≡ stopped)
  unfolding CanMove update_at leave end_job
  CanMove-here idle n ws = inl (0, _, inl refl)
  CanMove-here (running j) n ws = inl (0, _, inr refl)
  CanMove-here stopped n ws = inr refl

  CanMove-there : (w : Worker J) (ws : List (Worker J)) → CanMove ws → CanMove (w ∷ ws)
  unfolding CanMove update_at
  CanMove-there w ws (i, vs, inl e) = (suc i, w ∷ vs, inl (ground (arith, e)))
  CanMove-there w ws (i, vs, inr e) = (suc i, w ∷ vs, inr (ground (arith, e)))

  alive-CanMove : (ws : List (Worker J)) → 1 ≤ total alive ws → CanMove ws
  alive-CanMove [] h = absurd (omega arith)
  alive-CanMove (w ∷ ws) h = elim (CanMove-here w.status w.request_counter ws) [
    | inl m ↦ m
    | inr e ↦ CanMove-there w ws (alive-CanMove ws (ground (arith, e)))
  ]

  -- A worker's event that can happen now.
  abbrev pub MovesOn : ThreadPool J → Type 0
  MovesOn t = (e : Event J) × IsWorkerEvent e × (step e t ≢ none)

  group_moves :
      (t : ThreadPool J) (w : WorkerGroup J)
      → t.panicked ≡ false
      → t.workers ≡ some w
      → w.cancelled ≡ true
      → CanMove w.workers
      → MovesOn t
  unfolding CanMove step step_running step_exit step_finish
  group_moves t w p o c (i, vs, inl u) = (exit i, tt, λ n. ground (arith, p, o, c, u, n))
  group_moves t w p o c (i, vs, inr u) = (finish i, tt, λ n. ground (arith, p, o, c, u, n))

  group_stops :
      (t : ThreadPool J) (w : WorkerGroup J)
      → t.panicked ≡ false
      → t.workers ≡ some w
      → w.cancelled ≡ true
      → w.to_spawn ≡ 0
      → w.adding ≡ false
      → w.wg ≡ 0
      → step stop_returns t ≡ some (record t { workers = none })
  unfolding step step_running step_stop_returns
  group_stops t w p o c n a z = ground (arith, p, o, c, n, a, z)

  -- A draining pool can go on, or `Stop` can return.
  drains :
      (t : ThreadPool J) (o : Option (WorkerGroup J))
      → t.panicked ≡ false
      → t.workers ≡ o
      → IsStopping o
      → GroupSound t.panicked o
      → MovesOn t ⊎ (step stop_returns t ≡ some (record t { workers = none }))
  drains t none p o h s = absurd h
  drains t (some w) p o (c, n, a) s =
      let sound : IsSound w = group-IsSound t.panicked (some w) w p refl s in
      elim (dec_live (total alive w.workers)) [
        | inl m ↦ inl (group_moves t w p o c (alive-CanMove w.workers m))
        | inr z ↦ inr (group_stops t w p o c n a (ground (arith, sound.waited, a, z)))
      ]

  -- In a pool that has not panicked, whose state is well-formed (`Inv`) and whose group is started
  -- and cancelled, the goroutines cannot go on for ever: any sequence of their steps is at most as
  -- long as what was left to do, the steps still to come included; after it either a goroutine can
  -- make a step, or `Stop` returns and leaves the pool without its group.
  pub stop_returns_at_last :
      (t : ThreadPool J)
      → IsDraining t
      → (es : List (Event J)) (t' : ThreadPool J) → All IsWorkerEvent es
      → run es t ≡ some t'
      → (length es + work_left t' ≤ work_left t)
        × (MovesOn t' ⊎ (step stop_returns t' ≡ some (record t' { workers = none })))
  stop_returns_at_last t h es t' k r =
      let (d, bound) = run-IsDraining es t t' h k r in
      (bound, drains t' t'.workers d.runs refl d.stopping d.inv.group)
