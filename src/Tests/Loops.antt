-- ===== src/Tests/Loops.antt =====
-- The loop of utils/parallel/for.go over two calls, of which the second fails and finishes first.
use blueprint.Prelude.{pos, ℕ, zero, suc, ◌*◌, ◌≤◌, none, some, List, [], ◌∷◌, length, ◌≡◌, refl}
use blueprint.Errors.{Err, err_no_key}
use blueprint.Parallel.{
  State, Event, send, receive, take_at, for_int, started, step_send, step_receive, step, run,
}
use blueprint.Parallel.Finished.{Outcome, for_int_lem}

abbrev call : ℕ → Err
call zero = none
call (suc i) = some err_no_key

abbrev events : List Event
events = send 1 ∷ receive ∷ []

abbrev failed_early : State
failed_early = record {
  running = 0 ∷ [];
  err_chan = [];
  received = 0;
  returned = some (some err_no_key);
}

events_happen : run 2 call events (started 2 call) ≡ some failed_early
unfolding run step step_send step_receive take_at started
events_happen = refl

for_int_lem_example :
    (for_int (pos 2) call ≡ some (started 2 call))
    × (length events ≤ 2 * 2)
    × Outcome 2 call (some (some err_no_key)) failed_early
for_int_lem_example = for_int_lem 2 call events failed_early events_happen
