-- ===== src/CallStack/Order.antt =====
-- The order in which types/callstack/callstack.go calls its callbacks, and when it stops.
use mathlib.Core.List.{reverse-cons, reverse-reverse}
use blueprint.Prelude.{
  ℕ, zero, suc, ◌≤◌, ◌≡◌, refl, sym, ap, ◌∙◌, Bool, true, false, none, some, List, [], ◌∷◌, ◌++◌,
  reverse, arith, length, get_elem?, length-append, get_elem?-append_left, inl, inr,
  get_elem?-append_mid, Option-cases, if◌then◌else◌, ◌&&◌,
}
use blueprint.Errors.{Error, Err}
use blueprint.CallStack.{CallableFn, CallStack, run_down, run_up, run, run_linear, failed}

length-reverse {ℓ} : {A : Type ℓ} (xs : List A) → length (reverse xs) ≡ length xs
length-reverse [] = refl
length-reverse (x ∷ xs) =
    omega
      (arith, ap length (reverse-cons x xs), length-append (reverse xs) (x ∷ []), length-reverse xs)

module _ {ℓ} {W : Type ℓ} where
  -- One round of `Run`.
  run_down-step :
      (hs : List (CallableFn W)) (h : CallableFn W) (abort : Bool) (flag i : ℕ) (w : W)
      → get_elem? hs i ≡ some h
      → run_down hs abort flag (suc i) w ≡ (
          if failed (h flag w).0 && abort
          then some ((h flag w).0, (h flag w).1)
          else run_down hs abort flag i (h flag w).1)
  unfolding run_down
  run_down-step hs h abort flag i w e = rw (e, run_down)

  run_down-missing :
      (hs : List (CallableFn W)) (abort : Bool) (flag i : ℕ) (w : W)
      → get_elem? hs i ≡ none
      → run_down hs abort flag (suc i) w ≡ none
  unfolding run_down
  run_down-missing hs abort flag i w e = rw (e, run_down)

  -- Handlers above the index are not looked at.
  run_down-append :
      (hs ks : List (CallableFn W)) (abort : Bool) (flag i : ℕ) (w : W)
      → i ≤ length hs
      → run_down (hs ++ ks) abort flag i w ≡ run_down hs abort flag i w
  run_down-append hs ks abort flag zero w le = unfold run_down in refl
  run_down-append hs ks abort flag (suc i) w le = elim (Option-cases (get_elem? hs i)) [
    | inl e ↦
        run_down-missing (hs ++ ks) abort flag i w (get_elem?-append_left hs ks i le ∙ e)
        ∙ sym (run_down-missing hs abort flag i w e)
    | inr (h, e) ↦
        run_down-step (hs ++ ks) h abort flag i w (get_elem?-append_left hs ks i le ∙ e)
        ∙ rw (run_down-append hs ks abort flag i (h flag w).1 (omega arith))
            (sym (run_down-step hs h abort flag i w e))
  ]

  run_down-reverse :
      (hs : List (CallableFn W)) (abort : Bool) (flag : ℕ) (w : W)
      → run_down (reverse hs) abort flag (length hs) w ≡ some (run_up hs abort flag w)
  run_down-reverse [] abort flag w = unfold run_down run_up in refl
  run_down-reverse (h ∷ hs) abort flag w = rw (reverse-cons h hs) (
      run_down-step (reverse hs ++ h ∷ []) h abort flag (length hs) w at
      ∙ rw
          (
            run_down-append (reverse hs) (h ∷ []) abort flag (length hs) (h flag w).1
                (omega (arith, length-reverse hs)),
            run_down-reverse hs abort flag (h flag w).1,
          )
          (unfold run_up in ground arith))
    where
      at : get_elem? (reverse hs ++ h ∷ []) (length hs) ≡ some h
      at = rw (← length-reverse hs) (get_elem?-append_mid (reverse hs) h [])

  run_down_lem :
      (hs : List (CallableFn W)) (abort : Bool) (flag : ℕ) (w : W)
      → run_down hs abort flag (length hs) w ≡ some (run_up (reverse hs) abort flag w)
  run_down_lem hs abort flag w =
      rw (reverse-reverse hs, length-reverse hs) at (run_down-reverse (reverse hs) abort flag w)

  -- The stack after a call, the program after it and the result.
  abbrev after : CallStack W → Err × W → Err × CallStack W × W
  after c (e, w) = (e, record c { calling = 0 }, w)

  run_cases :
      (k : ℕ) (hs : List (CallableFn W)) (abort : Bool) (w : W)
      → run (record { calling = k; handlers = hs }) abort w
        ≡ some (after (record { calling = k; handlers = hs }) (run_up (reverse hs) abort 1 w))
  unfolding run
  run_cases k [] abort w = unfold run_up in refl
  run_cases k (h ∷ hs) abort w = ground (arith, run_down_lem (h ∷ hs) abort 1 w)

  -- `Run` never indexes out of range: it calls the callbacks in the order in which `RunLinear`
  -- would on the reversed list, with the same result and the same effect, and leaves the stack as
  -- it was but for the `calling` flag, which is 0 afterwards.
  pub run-run_linear :
      (c : CallStack W) (abort : Bool) (w : W)
      → run c abort w ≡ (
          let (e, c', w') = run_linear (record c { handlers = reverse c.handlers }) abort w in
          some (e, record c { calling = 0 }, w'))
  unfolding run_linear
  run-run_linear c abort w = run_cases c.calling c.handlers abort w

  -- All the callbacks, in the order of the list, whatever they return.
  abbrev pub call_all : List (CallableFn W) → ℕ → W → W
  call_all [] flag w = w
  call_all (h ∷ hs) flag w = call_all hs flag (h flag w).1

  -- None of them fails when they are called in this order.
  abbrev pub AllSucceed : List (CallableFn W) → ℕ → W → Type 0
  AllSucceed [] flag w = Unit
  AllSucceed (h ∷ hs) flag w = ((h flag w).0 ≡ none) × AllSucceed hs flag (h flag w).1

  run_up-false :
      (hs : List (CallableFn W)) (flag : ℕ) (w : W)
      → run_up hs false flag w ≡ (none, call_all hs flag w)
  unfolding run_up
  run_up-false [] flag w = refl
  run_up-false (h ∷ hs) flag w = ground (arith, run_up-false hs flag (h flag w).1)

  run_up-true :
      (pre : List (CallableFn W)) (h : CallableFn W) (post : List (CallableFn W)) (flag : ℕ) (w : W)
      (e : Error)
      → AllSucceed pre flag w
      → (h flag (call_all pre flag w)).0 ≡ some e
      → run_up (pre ++ h ∷ post) true flag w ≡ (some e, (h flag (call_all pre flag w)).1)
  unfolding run_up
  run_up-true [] h post flag w e s f = ground arith
  run_up-true (g ∷ pre) h post flag w e s f =
      ground (arith, run_up-true pre h post flag (g flag w).1 e s.1)

  -- Without `abortOnError`, `Run` returns nil, and has called every callback, the last one added
  -- first, whatever they returned.
  pub run_all :
      (c : CallStack W) (w : W)
      → run c false w ≡ some (none, record c { calling = 0 }, call_all (reverse c.handlers) 1 w)
  run_all c w =
      run_cases c.calling c.handlers false w
      ∙ ap (λ r. some (after c r)) (run_up-false (reverse c.handlers) 1 w)

  -- With `abortOnError`, `Run` returns the error of the first callback that fails, in the reverse
  -- order of the additions, and calls none of those added before it.
  pub run_aborts :
      (c : CallStack W) (pre : List (CallableFn W)) (h : CallableFn W) (post : List (CallableFn W))
      (e : Error) (w : W)
      → reverse c.handlers ≡ pre ++ h ∷ post
      → AllSucceed pre 1 w
      → (h 1 (call_all pre 1 w)).0 ≡ some e
      → run c true w ≡ some (some e, record c { calling = 0 }, (h 1 (call_all pre 1 w)).1)
  run_aborts c pre h post e w order good bad =
      run_cases c.calling c.handlers true w
      ∙ ap (λ r. some (after c r)) (rw order (run_up-true pre h post 1 w e good bad))
