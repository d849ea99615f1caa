-- ===== src/ThreadPool/Sound.antt =====
-- What holds of a thread pool at every moment, as a predicate on its state, and how it is shown of
-- the outcome of a step.
use blueprint.Prelude.{
  Holds, total, ℕ, ◌+◌, ◌%◌, ◌^◌, ◌≤◌, Bool, true, false, ◌||◌, Option, none, some, ◌++◌, ◌≡◌, refl,
  arith, length,
}
use blueprint.ThreadPool.Workers.{counter, busy, alive}
use blueprint.ThreadPool.{WorkerGroup, ThreadPool, in_group}

abbrev pub one_if : Bool → ℕ
one_if true = 1
one_if false = 0

-- A job that was received is finished or runs; the counters add up to the jobs finished, in 64
-- bits; and the wait group counts the goroutines that have not returned, but for one that was
-- started and not yet added.
pub record IsSound {J : Type 0} (w : WorkerGroup J) : Type 0 where
  pub served : w.received ≡ w.finished + total busy w.workers
  pub counted : total counter w.workers % 2 ^ 64 ≡ w.finished % 2 ^ 64
  pub waited : w.wg + one_if w.adding ≡ total alive w.workers

-- After a panic the process is gone, and nothing is said of the group.
abbrev pub GroupSound : {J : Type 0} → Bool → Option (WorkerGroup J) → Type 0
GroupSound true w = Unit
GroupSound false none = Unit
GroupSound false (some w) = IsSound w

pub record Inv {J : Type 0} (t : ThreadPool J) : Type 0 where
  pub bounded : length t.job_queue ≤ t.queue_size
  pub fifo : t.dispatched ≡ t.started ++ t.job_queue
  pub group : GroupSound t.panicked t.workers

pub GroupSound-none : (J : Type 0) (b : Bool) → GroupSound {J = J} b none
GroupSound-none J true = tt
GroupSound-none J false = tt

module _ {J : Type 0} where
  pub Holds-in_group :
      (P : ThreadPool J → Type 0) (f : WorkerGroup J → Option (ThreadPool J))
      (o : Option (WorkerGroup J))
      → ((w : WorkerGroup J) → o ≡ some w → Holds P (f w))
      → Holds P (in_group f o)
  Holds-in_group P f none h = tt
  Holds-in_group P f (some w) h = h w refl

  pub group-IsSound :
      (b : Bool) (o : Option (WorkerGroup J)) (w : WorkerGroup J)
      → b ≡ false
      → o ≡ some w
      → GroupSound b o
      → IsSound w
  group-IsSound true o w p e h = ground arith
  group-IsSound false none w p e h = ground arith
  group-IsSound false (some v) w p e h = ground arith

  pub GroupSound-some : (b : Bool) (w : WorkerGroup J) → IsSound w → GroupSound b (some w)
  GroupSound-some true w h = tt
  GroupSound-some false w h = h

  pub GroupSound-or :
      (b c : Bool) (w : WorkerGroup J) → (c ≡ false → IsSound w) → GroupSound (b || c) (some w)
  GroupSound-or true c w h = tt
  GroupSound-or false true w h = tt
  GroupSound-or false false w h = h refl
