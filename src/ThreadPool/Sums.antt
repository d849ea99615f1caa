-- ===== src/ThreadPool/Sums.antt =====
-- What each act of a goroutine of threadpool/worker.go does to the sums over the workers.
use blueprint.Prelude.{
  total, ℕ, zero, suc, ◌≤◌, ◌+◌, ◌%◌, ◌^◌, some, List, [], ◌∷◌, ◌≡◌, arith, Option-cases, inl, inr,
}
use blueprint.ThreadPool.Workers.{
  Worker, update_at, take_job, end_job, leave, counter, busy, alive, total-update_at,
}

module _ {J : Type 0} where
  module _ (j : J) (i : ℕ) (xs ys : List (Worker J))
      (e : update_at i (take_job j) xs ≡ some ys) where
    pub take_job-busy : total busy ys ≡ total busy xs + 1
    unfolding take_job
    take_job-busy =
        omega (arith, total-update_at busy (take_job j) 0 1 (λ x y h. ground arith) i xs ys e)

    pub take_job-alive : total alive ys ≡ total alive xs
    unfolding take_job
    take_job-alive =
        omega (arith, total-update_at alive (take_job j) 0 0 (λ x y h. ground arith) i xs ys e)

    pub take_job-counter : total counter ys ≡ total counter xs
    unfolding take_job
    take_job-counter =
        omega (arith, total-update_at counter (take_job j) 0 0 (λ x y h. ground arith) i xs ys e)

  module _ (i : ℕ) (xs ys : List (Worker J)) (e : update_at i end_job xs ≡ some ys) where
    pub end_job-busy : total busy ys + 1 ≡ total busy xs
    unfolding end_job
    end_job-busy = omega (arith, total-update_at busy end_job 1 0 (λ x y h. ground arith) i xs ys e)

    pub end_job-alive : total alive ys ≡ total alive xs
    unfolding end_job
    end_job-alive =
        omega (arith, total-update_at alive end_job 0 0 (λ x y h. ground arith) i xs ys e)

  module _ (i : ℕ) (xs ys : List (Worker J)) (e : update_at i leave xs ≡ some ys) where
    pub leave-busy : total busy ys ≡ total busy xs
    unfolding leave
    leave-busy = omega (arith, total-update_at busy leave 0 0 (λ x y h. ground arith) i xs ys e)

    pub leave-alive : total alive ys + 1 ≡ total alive xs
    unfolding leave
    leave-alive = omega (arith, total-update_at alive leave 1 0 (λ x y h. ground arith) i xs ys e)

    pub leave-counter : total counter ys ≡ total counter xs
    unfolding leave
    leave-counter =
        omega (arith, total-update_at counter leave 0 0 (λ x y h. ground arith) i xs ys e)

  end_job_counter :
      (x y : Worker J) → end_job x ≡ some y → y.request_counter ≡ (x.request_counter + 1) % 2 ^ 64
  unfolding end_job
  end_job_counter x y h = ground arith

  -- One counter goes up by one, in 64 bits, and so does the sum.
  pub end_job-counter :
      (i : ℕ) (xs ys : List (Worker J))
      → update_at i end_job xs ≡ some ys
      → total counter ys % 2 ^ 64 ≡ (total counter xs + 1) % 2 ^ 64
  unfolding update_at
  end_job-counter i [] ys e = ground arith
  end_job-counter zero (x ∷ xs) ys e = elim (Option-cases (end_job x)) [
    | inl n ↦ ground (arith, n)
    | inr (y, s) ↦ ground (arith, end_job_counter x y s, s)
  ]
  end_job-counter (suc i) (x ∷ xs) ys e = elim (Option-cases (update_at i end_job xs)) [
    | inl n ↦ ground (arith, n)
    | inr (zs, s) ↦ ground (arith, end_job-counter i xs zs s, s)
  ]

pub busy-le-alive : {J : Type 0} (xs : List (Worker J)) → total busy xs ≤ total alive xs
busy-le-alive [] = omega arith
busy-le-alive (x ∷ xs) = ground (arith, busy-le-alive xs)
