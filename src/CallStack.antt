-- ===== src/CallStack.antt =====
-- types/callstack/callstack.go: the list of shutdown callbacks. A callback acts on the rest of the
-- program, a value of `W`; it can read the `calling` flag through `IsCalling`, which takes no lock,
-- so it gets the flag too. The mutex makes each method one step; a callback that calls a locking
-- method of its own stack would block for ever, and is not modelled.
pub mod Order
use blueprint.Prelude.{
  ℕ, zero, suc, Bool, true, false, ◌&&◌, Option, none, some, List, [], ◌∷◌, ◌++◌, length, get_elem?,
  ◌==◌, if◌then◌else◌,
}
use blueprint.Errors.{Err}

-- func() error
abbrev pub CallableFn {ℓ} : Type ℓ → Type ℓ
CallableFn W = ℕ → W → Err × W

pub record CallStack {ℓ} (W : Type ℓ) : Type ℓ where
  pub calling : ℕ
  pub handlers : List (CallableFn W)

-- err != nil
abbrev pub failed : Err → Bool
failed none = false
failed (some e) = true

module _ {ℓ} {W : Type ℓ} where
  unfoldable pub new_call_stack : CallStack W
  new_call_stack = record { calling = 0; handlers = [] }

  unfoldable pub add : CallStack W → CallableFn W → CallStack W
  add c fn = record c { handlers = c.handlers ++ fn ∷ [] }

  -- The loop of `Run` with `i + 1` rounds left: `i` counts down to 0. `none` is Go's panic on an
  -- index out of range.
  unfoldable pub run_down : List (CallableFn W) → Bool → ℕ → ℕ → W → Option (Err × W)
  run_down hs abort flag zero w = some (none, w)
  run_down hs abort flag (suc i) w = elim (get_elem? hs i) [
    | none ↦ none
    | some h ↦
        let (e, w') = h flag w in
        let rest = run_down hs abort flag i w' in if failed e && abort then some (e, w') else rest
  ]

  -- The loop of `RunLinear`.
  unfoldable pub run_up : List (CallableFn W) → Bool → ℕ → W → Err × W
  run_up [] abort flag w = (none, w)
  run_up (h ∷ hs) abort flag w =
      let (e, w') = h flag w in
      let rest = run_up hs abort flag w' in if failed e && abort then (e, w') else rest

  -- The result, and the stack and the program after the call.
  unfoldable pub run : CallStack W → Bool → W → Option (Err × CallStack W × W)
  run c abort w =
      let c' : CallStack W = record c { calling = 1 } in
      if length c'.handlers == 0
      then some (none, record c' { calling = 0 }, w)
      else (elim (run_down c'.handlers abort c'.calling (length c'.handlers) w) [
        | none ↦ none
        | some (e, w') ↦ some (e, record c' { calling = 0 }, w')
      ])

  unfoldable pub run_linear : CallStack W → Bool → W → Err × CallStack W × W
  run_linear c abort w =
      let c' : CallStack W = record c { calling = 1 } in
      let (e, w') = run_up c'.handlers abort c'.calling w in (e, record c' { calling = 0 }, w')

  unfoldable pub is_calling : CallStack W → Bool
  is_calling c = c.calling == 1
