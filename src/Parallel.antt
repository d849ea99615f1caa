-- ===== src/Parallel.antt =====
-- utils/parallel/for.go: a loop whose rounds are goroutines. What the goroutines and the caller do
-- is a sequence of events; `step` says what an event does where it can happen.
pub mod Joined
pub mod Finished
use blueprint.Prelude.{
  ℕ, ℤ, pos, negsuc, zero, suc, ◌+◌, Option, none, some, List, [], ◌∷◌, ◌++◌, length, ltb, ◌==◌,
  if◌then◌else◌,
}
use blueprint.Errors.{Err}

-- The goroutines that have not sent their error yet, by their index; the buffered channel; how many
-- errors the caller has received; and what it has returned, if it has.
pub record State : Type 0 where
  pub running : List ℕ
  pub err_chan : List Err
  pub received : ℕ
  pub returned : Option Err

-- A goroutine is named by its place among those that run.
pub data Event : Type 0 where
  send : ℕ → Event
  receive : Event

-- One element of a list, and the others.
unfoldable pub take_at : {A : Type 0} → ℕ → List A → Option (A × List A)
take_at k [] = none
take_at zero (x ∷ xs) = some (x, xs)
take_at (suc k) (x ∷ xs) = elim (take_at k xs) [ none ↦ none | some (y, ys) ↦ some (y, x ∷ ys) ]

-- from, from + 1, ...
abbrev pub indices : ℕ → ℕ → List ℕ
indices from zero = []
indices from (suc n) = from ∷ indices (suc from) n

module _ (to : ℕ) (fn : ℕ → Err) where
  -- All goroutines are started before the caller receives.
  unfoldable pub started : State
  started = record {
    running = indices 0 to;
    err_chan = [];
    received = 0;
    returned = if to == 0 then some none else none;
  }

  -- `errChan <- fn(i)`, which waits while the channel is full.
  unfoldable pub step_send : ℕ → State → Option State
  unfolding take_at
  step_send k s = elim (take_at k s.running) [
    | none ↦ none
    | some (i, rest) ↦
        if ltb (length s.err_chan) to
        then some (record s { running = rest; err_chan = s.err_chan ++ fn i ∷ [] })
        else none
  ]

  abbrev pub receive_from : List Err → State → Option State
  receive_from [] s = none
  receive_from (some e ∷ rest) s = some (record s { err_chan = rest; returned = some (some e) })
  receive_from (none ∷ rest) s = some (record s {
    err_chan = rest;
    received = s.received + 1;
    returned = if s.received + 1 == to then some none else none;
  })

  -- One round of the second loop, with the test that ends it.
  unfoldable pub step_receive : State → Option State
  step_receive s = elim s.returned [ some r ↦ none | none ↦ receive_from s.err_chan s ]

  unfoldable pub step : Event → State → Option State
  unfolding step_send step_receive
  step (send k) s = step_send k s
  step receive s = step_receive s

  unfoldable pub run : List Event → State → Option State
  unfolding step
  run [] s = some s
  run (e ∷ es) s = elim (step e s) [ none ↦ none | some t ↦ run es t ]

-- `ForInt` up to where it receives. `none` is the panic of `make(chan error, to)` on a negative
-- size.
unfoldable pub for_int : ℤ → (ℕ → Err) → Option State
unfolding started
for_int (pos to) fn = some (started to fn)
for_int (negsuc n) fn = none
