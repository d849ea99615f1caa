-- ===== src/Runtime.antt =====
-- shutdown.go and container.go: the destructors of an application, and its main loop.
-- The state of the process is `appDestructors` (nil after a shutdown), whether the container's
-- context is cancelled, and the rest of the program. `log.Fatal().Msg` is zerolog's, and is the
-- parameter `log_fatal`; that it exits with status 1 is a hypothesis of the theorems.
pub mod Exit
use blueprint.Prelude.{
  Bool, true, false, not, ◌&&◌, Option, none, some, List, [], ◌∷◌, ℤ, pos, negsuc, if◌then◌else◌,
}
use blueprint.Errors.{Err}
use blueprint.CallStack.{CallableFn, CallStack, run, add, failed, new_call_stack}

pub record Process {ℓ} (W : Type ℓ) : Type ℓ where
  pub app_destructors : Option (CallStack W)
  pub cancelled : Bool
  pub world : W

-- A call returns, ends the process with an exit code, or panics.
pub data Outcome {ℓ κ} (W : Type ℓ) (A : Type κ) : Type (ℓ ⊔ κ) where
  done : A → Process W → Outcome W A
  exited : ℤ → Process W → Outcome W A
  panicked : Outcome W A

-- A container with its configuration. A zero `Container` has no context and no cancel function.
pub record Container {ℓ} (C : Type ℓ) : Type ℓ where
  pub config : C
  pub has_context : Bool
  pub has_cancel : Bool

-- What the main loop waits for. The second is possible only once the context is cancelled.
pub data Event : Type 0 where
  os_signal : Event
  context_done : Event

module _ {ℓ} {W : Type ℓ} where
  infixl 5 ◌>>=◌ ◌>>◌
  abbrev pub ◌>>=◌ {κ μ} :
      {A : Type κ} {B : Type μ} → Outcome W A → (A → Process W → Outcome W B) → Outcome W B
  done a p >>= f = f a p
  exited n p >>= f = exited n p
  panicked >>= f = panicked

  abbrev ◌>>◌ {κ μ} :
      {A : Type κ} {B : Type μ} → Outcome W A → (Process W → Outcome W B) → Outcome W B
  m >> k = m >>= λ _. k

  -- init()
  unfoldable pub init : W → Process W
  init w = record { app_destructors = some new_call_stack; cancelled = false; world = w }

  -- Adding to a nil stack locks a mutex at a nil pointer.
  unfoldable pub register_destructor : CallableFn W → Process W → Outcome W (Unit {0})
  register_destructor fn p = elim p.app_destructors [
    | none ↦ panicked
    | some c ↦ done tt (record p { app_destructors = some (add c fn) })
  ]

  unfoldable pub get_destructor_manager : Process W → Option (CallStack W)
  get_destructor_manager p = p.app_destructors

  unfoldable pub cancel_ctx : Process W → Process W
  cancel_ctx p = record p { cancelled = true }

  unfoldable pub terminate {κ} : {C : Type κ} → Container C → Err → Process W → Outcome W (Unit {0})
  unfolding cancel_ctx
  terminate c err p =
      let ret_code = if failed err then negsuc 0 else pos 0 in
      let p' = if c.has_context && c.has_cancel && not p.cancelled then cancel_ctx p else p in
      exited ret_code p'

unfoldable pub new_container {κ} : {C : Type κ} → C → Container C
new_container config = record { config = config; has_context = true; has_cancel = true }

module _ {ℓ} {W : Type ℓ} (log_fatal : Err → Process W → Outcome W (Unit {0})) where
  -- `if arg != nil { log.Fatal()… }`
  unfoldable pub fatal_if : Bool → Err → Process W → Outcome W (Unit {0})
  fatal_if true arg p = log_fatal arg p
  fatal_if false arg p = done tt p

  -- The destructors of a stack, and what follows in `Shutdown`.
  unfoldable pub run_destructors : CallStack W → Err → Process W → Outcome W (Unit {0})
  unfolding fatal_if
  run_destructors c arg p = elim (run c false p.world) [
    | none ↦ panicked
    | some (err, c', w) ↦
        fatal_if (failed err) arg (record p { app_destructors = some c'; world = w }) >> λ q.
        done tt (record q { app_destructors = none })
  ]

  unfoldable pub shutdown : Err → Process W → Outcome W (Unit {0})
  unfolding run_destructors
  shutdown arg p = elim p.app_destructors [
    | none ↦ done tt p
    | some c ↦ fatal_if (failed arg) arg p >> λ q. run_destructors c arg q
  ]

  unfoldable pub abort_fatal {κ} :
      {C : Type κ} → Container C → Err → Process W → Outcome W (Unit {0})
  unfolding shutdown terminate
  abort_fatal c err p = if failed err then (shutdown err p >> λ q. terminate c err q) else done tt p

  -- The functions that `Run` is given, in order.
  unfoldable pub run_main {κ} :
      {C : Type κ}
      → Container C
      → List (Process W → Outcome W Err)
      → Process W
      → Outcome W (Unit {0})
  unfolding terminate
  run_main c [] p = done tt p
  run_main c (fn ∷ fns) p = fn p >>= λ err q.
      (if failed err then terminate c err q else done tt q) >> λ q. run_main c fns q

  -- `<-c.Context.Done()` in the `select` is evaluated before anything is waited for.
  abbrev pub waiting {κ} : {C : Type κ} → Container C → Process W → Outcome W (Unit {0})
  waiting c p = if c.has_context then done tt p else panicked

  -- `c.CancelCtx()`
  abbrev pub cancelling {κ} : {C : Type κ} → Container C → Process W → Outcome W (Unit {0})
  cancelling c p = if c.has_cancel then done tt (cancel_ctx p) else panicked

  -- The endless `for` over what happens; at the end of the list the loop still waits.
  unfoldable pub main_loop {κ} :
      {C : Type κ} → Container C → List Event → Process W → Outcome W (Unit {0})
  unfolding shutdown terminate cancel_ctx
  main_loop c [] p = waiting c p
  main_loop c (os_signal ∷ events) p =
      waiting c p >> λ q. shutdown none q >> λ r. cancelling c r >> λ t. main_loop c events t
  main_loop c (context_done ∷ events) p = waiting c p >> λ q.
      (if q.cancelled then terminate c none q else done tt q) >> λ r. main_loop c events r

  unfoldable pub run_container {κ} :
      {C : Type κ}
      → Container C
      → List (Process W → Outcome W Err)
      → List Event
      → Process W
      → Outcome W (Unit {0})
  unfolding run_main main_loop
  run_container c main_fn events p = run_main c main_fn p >> λ q. main_loop c events q
