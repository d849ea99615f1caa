-- ===== src/Parallel/Finished.antt =====
-- How the loop of utils/parallel/for.go comes to its end.
use blueprint.Prelude.{
  pos, Holds, Holds-if, Holds-elim, Holds-some, ℕ, suc, ◌+◌, ◌*◌, ◌≤◌, ◌<◌, Option, none, some,
  List, [], ◌∷◌, length, length-append, ltb, ◌≡◌, ◌≢◌, ◌↔◌, refl, ap, ◌⊎◌, inl, inr, arith,
}
use blueprint.Errors.{Err}
use blueprint.Parallel.{
  State, Event, send, receive, take_at, for_int, started, step_send, step_receive, receive_from,
  step, run,
}
use blueprint.Parallel.Joined.{
  failure, all_failures, total-take_at, length-indices, Inv, run-Inv, started-Inv,
}

module _ (to : ℕ) (fn : ℕ → Err) where
  -- What the goroutines and the channel still have to do.
  abbrev pub load : State → ℕ
  load s = 2 * length s.running + length s.err_chan

  IsLess : State → State → Type 0
  IsLess s t = load t < load s

  step_send-IsLess : (k : ℕ) (s : State) → Holds (IsLess s) (step_send to fn k s)
  unfolding step_send IsLess
  step_send-IsLess k s = Holds-elim (IsLess s) (take_at k s.running) _ λ t u.
      Holds-if (IsLess s) (ltb (length s.err_chan) to) _ λ b. omega (
        arith,
        (total-take_at (λ i. failure (fn i)) k s.running t.0 t.1 u).1,
        length-append s.err_chan (fn t.0 ∷ []),
      )

  received-IsLess :
      (c : List Err) (s : State) → s.err_chan ≡ c → Holds (IsLess s) (receive_from to fn c s)
  unfolding IsLess
  received-IsLess [] s e = tt
  received-IsLess (some d ∷ rest) s e = omega (arith, ap length e)
  received-IsLess (none ∷ rest) s e = omega (arith, ap length e)

  step_receive-IsLess :
      (o : Option Err) (s : State)
      → Holds (IsLess s) (elim o [ some r ↦ none | none ↦ receive_from to fn s.err_chan s ])
  step_receive-IsLess (some r) s = tt
  step_receive-IsLess none s = received-IsLess s.err_chan s refl

  step-IsLess : (e : Event) (s : State) → Holds (IsLess s) (step to fn e s)
  unfolding step step_receive
  step-IsLess (send k) s = step_send-IsLess k s
  step-IsLess receive s = step_receive-IsLess s.returned s

  IsBounded : ℕ → State → State → Type 0
  IsBounded n s t = n + load t ≤ load s

  further :
      (n : ℕ) (s t : State) (o : Option State)
      → load t < load s
      → Holds (IsBounded n t) o
      → Holds (IsBounded (suc n) s) o
  unfolding IsBounded
  further n s t none l h = tt
  further n s t (some u) l h = omega (arith, l, h)

  run-IsBounded : (es : List Event) (s : State) → Holds (IsBounded (length es) s) (run to fn es s)
  unfolding run IsBounded IsLess
  run-IsBounded [] s = omega arith
  run-IsBounded (e ∷ es) s = Holds-elim (IsBounded (length (e ∷ es)) s) (step to fn e s) _ λ t u.
      further (length es) s t (run to fn es t)
        (Holds-some (IsLess s) (step to fn e s) t u (step-IsLess e s)) (run-IsBounded es t)

  first_of : {A : Type 0} (xs : List A) → (xs ≡ []) ⊎ ((x : A) × (ys : List A) × (xs ≡ x ∷ ys))
  first_of [] = inl refl
  first_of (x ∷ xs) = inr (x, xs, refl)

  take_first :
      {A : Type 0} (xs : List A) (x : A) (ys : List A) → xs ≡ x ∷ ys → take_at 0 xs ≡ some (x, ys)
  unfolding take_at
  take_first xs x ys e = ap (take_at 0) e

  send_first : (s : State) → Inv to fn s → (s.running ≡ []) ⊎ (step to fn (send 0) s ≢ none)
  unfolding step step_send
  send_first s h = elim (first_of s.running) [
    | inl e ↦ inl e
    | inr (i, rest, e) ↦
        inr λ n. ground (arith, n, h.room, ap length e, take_first s.running i rest e)
  ]

  receives :
      (s : State) → Inv to fn s → s.returned ≡ none → s.running ≡ [] → step to fn receive s ≢ none
  unfolding step step_receive
  receives s h w e = λ n.
      let (count, l, f) = h.waits w in
      elim (first_of s.err_chan) [
        | inl c ↦ omega (arith, count, l, ap length e, ap length c)
        | inr (d, rest, c) ↦ ground (arith, n, w, c)
      ]

  step_somewhere :
      (s : State) → Inv to fn s → s.returned ≡ none → (e : Event) × (step to fn e s ≢ none)
  step_somewhere s h w = elim (send_first s h) [
    | inl idle ↦ (receive, receives s h w idle)
    | inr moves ↦ (send 0, moves)
  ]

  -- While the caller waits, something can happen. Once it has returned, it returned nil exactly if
  -- no call fails, and no goroutine is stuck.
  abbrev pub Outcome : Option Err → State → Type 0
  Outcome none s = (e : Event) × (step to fn e s ≢ none)
  Outcome (some r) s =
      ((failure r ≡ 0) ↔ (all_failures to fn ≡ 0))
      × ((s.running ≡ []) ⊎ (step to fn (send 0) s ≢ none))

  outcome_of : (o : Option Err) (s : State) → Inv to fn s → s.returned ≡ o → Outcome o s
  outcome_of none s h e = step_somewhere s h e
  outcome_of (some r) s h e = (h.result r e, send_first s h)

  -- For a bound that is not negative, in whatever order the goroutines of `ForInt` send and the
  -- caller receives: `ForInt` does not panic when it starts; there are at most twice as many steps
  -- as calls; as long as the caller has not returned, a step can happen; and when it has, it has
  -- returned nil exactly if none of the calls fails, and no goroutine is left blocked on the
  -- channel.
  pub for_int_lem :
      (es : List Event) (s : State)
      → run to fn es (started to fn) ≡ some s
      → (for_int (pos to) fn ≡ some (started to fn)) × (length es ≤ 2 * to) × Outcome s.returned s
  unfolding IsBounded started for_int
  for_int_lem es s r =
      let h : Inv to fn s =
        Holds-some (Inv to fn) (run to fn es (started to fn)) s r
          (run-Inv to fn es (started to fn) (started-Inv to fn)) in
      let bound : length es + load s ≤ load (started to fn) =
        Holds-some (IsBounded (length es) (started to fn)) (run to fn es (started to fn)) s r
          (run-IsBounded es (started to fn)) in
      (refl, omega (arith, bound, length-indices 0 to), outcome_of s.returned s h refl)
