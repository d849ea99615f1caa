-- ===== src/Tests/Callbacks.antt =====
-- Callbacks and shutdowns of types/callstack/callstack.go, shutdown.go and container.go.
use blueprint.Prelude.{ℕ, true, false, none, some, List, [], ◌∷◌, ◌++◌, ◌≡◌, refl, pos}
use blueprint.Errors.{Err, foreign}
use blueprint.CallStack.{CallableFn, CallStack, run, run_linear, run_up}
use blueprint.CallStack.Order.{run-run_linear, run_aborts}
use blueprint.Runtime.{
  Process, Outcome, done, exited, Container, os_signal, context_done, run_container, run_main,
  panicked, init, shutdown, register_destructor, ◌>>=◌,
}
use blueprint.Runtime.Exit.{graceful_exit, register_all, shutdown-register_all}

-- A callback that leaves its number in the log, and one that fails after that.
abbrev note : ℕ → CallableFn (List ℕ)
note n flag log = (none, log ++ n ∷ [])

abbrev note_failing : ℕ → CallableFn (List ℕ)
note_failing n flag log = (some (foreign n), log ++ n ∷ [])

abbrev stack : CallStack (List ℕ)
stack = record { calling = 0; handlers = note 1 ∷ note_failing 2 ∷ note 3 ∷ [] }

run-run_linear_example : run stack true [] ≡ some (some (foreign 2), stack, 3 ∷ 2 ∷ [])
unfolding run_linear run_up
run-run_linear_example = run-run_linear stack true []

run_aborts_example : run stack true [] ≡ some (some (foreign 2), stack, 3 ∷ 2 ∷ [])
run_aborts_example =
    run_aborts stack (note 3 ∷ []) (note_failing 2) (note 1 ∷ []) (foreign 2) [] refl (refl, tt)
      refl

abbrev log_fatal : Err → Process (List ℕ) → Outcome (List ℕ) (Unit {0})
log_fatal arg p = exited (pos 1) p

abbrev process : Process (List ℕ)
process = record { app_destructors = some stack; cancelled = false; world = [] }

abbrev app : Container ℕ
app = record { config = 8080; has_context = true; has_cancel = true }

abbrev start_ok : Process (List ℕ) → Outcome (List ℕ) Err
start_ok p = done none p

started : run_main log_fatal app (start_ok ∷ []) process ≡ done tt process
unfolding run_main
started = refl

graceful_exit_example :
    run_container log_fatal app (start_ok ∷ []) (os_signal ∷ os_signal ∷ context_done ∷ []) process
    ≡ exited (pos 0) (record { app_destructors = none; cancelled = true; world = 3 ∷ 2 ∷ 1 ∷ [] })
graceful_exit_example =
    graceful_exit log_fatal app (start_ok ∷ []) 1 [] process process stack started refl refl refl

shutdown-register_all_example :
    let s : Process (List ℕ) = record {
      app_destructors = none;
      cancelled = false;
      world = 2 ∷ 1 ∷ [];
    } in
    ((register_all (note 1 ∷ note_failing 2 ∷ []) (init []) >>= λ _ p. shutdown log_fatal none p)
      ≡ done tt s)
    × (shutdown log_fatal (some (foreign 4)) s ≡ done tt s)
    × (register_destructor (note 3) s ≡ panicked)
shutdown-register_all_example =
    shutdown-register_all log_fatal (note 1 ∷ note_failing 2 ∷ []) (some (foreign 4)) (note 3) []
