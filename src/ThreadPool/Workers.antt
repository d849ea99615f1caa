-- ===== src/ThreadPool/Workers.antt =====
-- The workers of threadpool/worker.go, and sums over them.
use blueprint.Prelude.{
  total, ℕ, zero, suc, ◌+◌, ◌%◌, ◌^◌, Option, none, some, List, [], ◌∷◌, ◌≡◌, arith, Option-cases,
  inl, inr,
}

-- A goroutine waits in its `select`, runs a job, or has returned.
pub data Status (J : Type 0) : Type 0 where
  idle : Status J
  running : J → Status J
  stopped : Status J

pub record Worker (J : Type 0) : Type 0 where
  pub status : Status J
  pub request_counter : ℕ

-- Change the element at an index, where there is one and it can be changed.
unfoldable pub update_at : {A : Type 0} → ℕ → (A → Option A) → List A → Option (List A)
update_at i f [] = none
update_at zero f (x ∷ xs) = elim (f x) [ none ↦ none | some y ↦ some (y ∷ xs) ]
update_at (suc i) f (x ∷ xs) = elim (update_at i f xs) [ none ↦ none | some ys ↦ some (x ∷ ys) ]

module _ {J : Type 0} where
  unfoldable pub new_worker : Worker J
  new_worker = record { status = idle; request_counter = 0 }

  abbrev with_status : Worker J → Status J → Worker J
  with_status w s = record w { status = s }

  unfoldable pub take_job : J → Worker J → Option (Worker J)
  take_job j w = elim w.status [
    | idle ↦ some (with_status w (running j))
    | running k ↦ none
    | stopped ↦ none
  ]

  unfoldable pub end_job : Worker J → Option (Worker J)
  end_job w = elim w.status [
    | idle ↦ none
    | running k ↦
        some (record { status = idle; request_counter = (w.request_counter + 1) % 2 ^ 64 })
    | stopped ↦ none
  ]

  unfoldable pub leave : Worker J → Option (Worker J)
  leave w = elim w.status [
    | idle ↦ some (with_status w stopped)
    | running k ↦ none
    | stopped ↦ none
  ]

  abbrev pub counter : Worker J → ℕ
  counter w = w.request_counter

  abbrev pub busy : Worker J → ℕ
  busy w = elim w.status [ idle ↦ 0 | running k ↦ 1 | stopped ↦ 0 ]

  abbrev pub alive : Worker J → ℕ
  alive w = elim w.status [ idle ↦ 1 | running k ↦ 1 | stopped ↦ 0 ]

-- Where a change of one element moves a measure by fixed amounts, it moves the sum by them.
pub total-update_at :
    {A : Type 0} (f : A → ℕ) (h : A → Option A) (p q : ℕ)
    → ((x y : A) → h x ≡ some y → f y + p ≡ f x + q)
    → (i : ℕ) (xs ys : List A) → update_at i h xs ≡ some ys
    → total f ys + p ≡ total f xs + q
unfolding update_at
total-update_at f h p q moves i [] ys e = ground arith
total-update_at f h p q moves zero (x ∷ xs) ys e = elim (Option-cases (h x)) [
  | inl n ↦ ground (arith, n)
  | inr (y, s) ↦ ground (arith, moves x y s, s)
]
total-update_at f h p q moves (suc i) (x ∷ xs) ys e = elim (Option-cases (update_at i h xs)) [
  | inl n ↦ ground (arith, n)
  | inr (zs, s) ↦ ground (arith, total-update_at f h p q moves i xs zs s, s)
]
