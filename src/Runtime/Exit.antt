-- ===== src/Runtime/Exit.antt =====
-- How an application of shutdown.go and container.go ends.
use mathlib.Core.Path.{ap₂}
use mathlib.Core.List.{append-nil, append_assoc}
use blueprint.Prelude.{
  ℕ, zero, suc, ◌≡◌, refl, ap, ◌∙◌, Bool, true, false, none, some, List, [], ◌∷◌, ◌++◌, reverse,
  arith, pos,
}
use blueprint.Errors.{Error, Err}
use blueprint.CallStack.{CallableFn, CallStack, add, new_call_stack}
use blueprint.CallStack.Order.{call_all, run_all}
use blueprint.Runtime.{
  Process, Outcome, done, exited, panicked, Container, Event, os_signal, context_done, ◌>>=◌,
  register_destructor, shutdown, abort_fatal, run_main, main_loop, run_container, terminate, init,
  run_destructors, new_container,
}

-- More signals, as many as `n`, before what follows.
abbrev pub signals : ℕ → List Event → List Event
signals zero events = events
signals (suc n) events = os_signal ∷ signals n events

-- The program after every destructor has run once, and the context has been cancelled.
abbrev pub closed {ℓ} : {W : Type ℓ} → CallStack W → Process W → Process W
closed s p = record p { app_destructors = none; world = call_all (reverse s.handlers) 1 p.world }

module _ {ℓ} {W : Type ℓ} (log_fatal : Err → Process W → Outcome W (Unit {0})) where
  run_destructors_lem :
      (s : CallStack W) (p : Process W) → run_destructors log_fatal s none p ≡ done tt (closed s p)
  unfolding run_destructors
  run_destructors_lem s p = rw (run_all s p.world, run_destructors)

  -- `Shutdown(nil)` runs every destructor once, the last one registered first, whatever they
  -- return, and it returns; the stack of destructors is nil afterwards.
  pub shutdown_nil :
      (p : Process W) (s : CallStack W)
      → p.app_destructors ≡ some s
      → shutdown log_fatal none p ≡ done tt (closed s p)
  unfolding shutdown
  shutdown_nil p s e = rw (e, shutdown) (run_destructors_lem s p)

  -- After a shutdown the process has no destructors.
  abbrev stopped : Process W → Process W
  stopped p = record p { app_destructors = none; cancelled = true }

  main_loop-signals {κ} :
      {C : Type κ} (config : C) (n : ℕ) (rest : List Event) (p : Process W)
      → main_loop log_fatal (new_container config) (signals n (context_done ∷ rest)) (stopped p)
        ≡ exited (pos 0) (stopped p)
  unfolding main_loop new_container
  main_loop-signals config zero rest p = ground arith
  main_loop-signals config (suc n) rest p = main_loop-signals config n rest p

  -- A signal that comes first.
  main_loop-signal {κ} :
      {C : Type κ} (config : C) (events : List Event) (p : Process W) (s : CallStack W)
      → p.app_destructors ≡ some s
      → main_loop log_fatal (new_container config) (os_signal ∷ events) p
        ≡ main_loop log_fatal (new_container config) events (stopped (closed s p))
  unfolding main_loop new_container
  main_loop-signal config events p s e =
      ap
        (λ o. o >>= λ _ q.
          main_loop log_fatal (new_container config) events (record q { cancelled = true }))
        (shutdown_nil p s e)

  main_loop-new_container {κ} :
      {C : Type κ} (c : Container C) (events : List Event) (p : Process W)
      → c.has_context ≡ true
      → c.has_cancel ≡ true
      → main_loop log_fatal c events p ≡ main_loop log_fatal (new_container c.config) events p
  unfolding new_container
  main_loop-new_container c events p context cancel =
      ap₂
        (λ a b.
          main_loop log_fatal (record { config = c.config; has_context = a; has_cancel = b }) events
            p)
        context cancel

  -- A container with a context and its cancel function, whose start functions all return nil: at
  -- the first signal it runs every destructor
  -- once, the last one registered first, then ignores any number of further signals, and exits with
  -- code 0 as soon as the loop sees that the context is cancelled.
  pub graceful_exit {κ} :
      {C : Type κ} (c : Container C) (main_fn : List (Process W → Outcome W Err)) (n : ℕ)
      (rest : List Event) (p q : Process W) (s : CallStack W)
      → run_main log_fatal c main_fn p ≡ done tt q
      → q.app_destructors ≡ some s
      → c.has_context ≡ true
      → c.has_cancel ≡ true
      → run_container log_fatal c main_fn (os_signal ∷ signals n (context_done ∷ rest)) p
        ≡ exited (pos 0) (stopped (closed s q))
  unfolding run_container
  graceful_exit c main_fn n rest p q s started e context cancel =
      rw (started, run_container)
        (main_loop-new_container c (os_signal ∷ signals n (context_done ∷ rest)) q context cancel
          ∙ main_loop-signal c.config (signals n (context_done ∷ rest)) q s e
          ∙ main_loop-signals c.config n rest (closed s q))

  -- A container without a context panics when it comes to wait.
  main_loop-panicked {κ} :
      {C : Type κ} (c : Container C) (events : List Event) (p : Process W)
      → c.has_context ≡ false
      → main_loop log_fatal c events p ≡ panicked
  unfolding main_loop
  main_loop-panicked c [] p h = rw h refl
  main_loop-panicked c (os_signal ∷ events) p h = rw h refl
  main_loop-panicked c (context_done ∷ events) p h = rw h refl

  -- Where the log's fatal level ends the process with status 1, `AbortFatal` of an error ends it
  -- so and runs no destructor; only if a shutdown came before it is the exit code -1.
  pub abort_fatal_lem {κ} :
      {C : Type κ} (c : Container C) (e : Error) (p : Process W)
      → ((arg : Err) (q : Process W) → log_fatal arg q ≡ exited (pos 1) q)
      → abort_fatal log_fatal c (some e) p
        ≡ (elim p.app_destructors [ none ↦ terminate c (some e) p | some s ↦ exited (pos 1) p ])
  unfolding abort_fatal
  abort_fatal_lem c e p fatal = ground (arith, fatal (some e) p)

-- Registers the callbacks one after the other.
abbrev pub register_all {ℓ} : {W : Type ℓ} → List (CallableFn W) → Process W → Outcome W (Unit {0})
register_all [] p = done tt p
register_all (fn ∷ fns) p = register_destructor fn p >>= λ _ q. register_all fns q

register_all_lem {ℓ} :
    {W : Type ℓ} (fns hs : List (CallableFn W)) (k : ℕ) (d : Bool) (w : W)
    → register_all fns (record {
      app_destructors = some (record { calling = k; handlers = hs });
      cancelled = d;
      world = w;
    })
      ≡ done tt (record {
        app_destructors = some (record { calling = k; handlers = hs ++ fns });
        cancelled = d;
        world = w;
      })
unfolding register_destructor add
register_all_lem [] hs k d w = rw (append-nil hs)
register_all_lem (fn ∷ fns) hs k d w =
    register_all_lem fns (hs ++ fn ∷ []) k d w ∙ rw (append_assoc hs (fn ∷ []) fns)

-- The callbacks registered with a new process run at `Shutdown(nil)` in the reverse order of their
-- registration, each once; a second `Shutdown` does nothing, and a registration after it panics.
pub shutdown-register_all {ℓ} :
    {W : Type ℓ} (log_fatal : Err → Process W → Outcome W (Unit {0})) (fns : List (CallableFn W))
    (arg : Err) (fn : CallableFn W) (w : W)
    → let s : Process W = record {
      app_destructors = none;
      cancelled = false;
      world = call_all (reverse fns) 1 w;
    } in
      ((register_all fns (init w) >>= λ _ p. shutdown log_fatal none p) ≡ done tt s)
      × (shutdown log_fatal arg s ≡ done tt s)
      × (register_destructor fn s ≡ panicked)
unfolding init register_destructor shutdown new_call_stack
shutdown-register_all log_fatal fns arg fn w =
    (rw (register_all_lem fns [] 0 false w) (shutdown_nil log_fatal _ _ refl), refl, refl)
