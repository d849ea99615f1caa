-- ===== src/Parallel/Joined.antt =====
-- What the loop of utils/parallel/for.go returns, in whatever order its goroutines finish.
use blueprint.Prelude.{
  Holds, Holds-if, Holds-elim, Holds-some, total, total-append, ℕ, zero, suc, ◌+◌, ◌≤◌, ◌<◌, Bool,
  true, false, Option, none, some, List, [], ◌∷◌, ◌++◌, length, length-append, ltb, ◌==◌,
  if◌then◌else◌, ◌≡◌, ◌↔◌, refl, ap, inl, inr, arith, Option-cases,
}
use blueprint.Errors.{Err}
use blueprint.Parallel.{
  State, Event, send, receive, take_at, indices, started, step_send, step_receive, receive_from,
  step, run,
}

-- 1 for an error.
abbrev pub failure : Err → ℕ
failure none = 0
failure (some e) = 1

abbrev pub failures : (ℕ → Err) → List ℕ → ℕ
failures fn is = total (λ i. failure (fn i)) is

pub total-take_at :
    {A : Type 0} (f : A → ℕ) (k : ℕ) (xs : List A) (x : A) (ys : List A)
    → ◌≡◌ {A = Option (A × List A)} (take_at k xs) (some (x, ys))
    → (total f xs ≡ f x + total f ys) × (length xs ≡ suc (length ys))
unfolding take_at
total-take_at f k [] x ys e = ground arith
total-take_at f zero (z ∷ xs) x ys e = ground arith
total-take_at f (suc k) (z ∷ xs) x ys e = elim (Option-cases (take_at k xs)) [
  | inl n ↦ ground (arith, n, e)
  | inr ((y, zs), s) ↦ ground (arith, total-take_at f k xs y zs s, s, e)
]

pub length-indices : (from n : ℕ) → length (indices from n) ≡ n
length-indices from zero = refl
length-indices from (suc n) = ap suc (length-indices (suc from) n)

module _ (to : ℕ) (fn : ℕ → Err) where
  -- How many of all the calls fail.
  abbrev pub all_failures : ℕ
  all_failures = failures fn (indices 0 to)

  -- While the caller waits, every call is running, in the channel, or received with a nil error;
  -- when it has returned, it has returned nil exactly if no call fails.
  pub record Inv (s : State) : Type 0 where
    pub room : length s.running + length s.err_chan ≤ to
    pub waits :
        s.returned ≡ none
        → (length s.running + length s.err_chan + s.received ≡ to)
          × (s.received < to)
          × (failures fn s.running + total failure s.err_chan ≡ all_failures)
    pub result : (r : Err) → s.returned ≡ some r → (failure r ≡ 0) ↔ (all_failures ≡ 0)

  sent-Inv :
      (k i : ℕ) (rest : List ℕ) (s : State)
      → Inv s
      → ◌≡◌ {A = Option (ℕ × List ℕ)} (take_at k s.running) (some (i, rest))
      → Inv (record s { running = rest; err_chan = s.err_chan ++ fn i ∷ [] })
  sent-Inv k i rest s h u =
      let (moved, shorter) = total-take_at (λ i. failure (fn i)) k s.running i rest u in
      let longer = length-append s.err_chan (fn i ∷ []) in
      let sum = total-append failure s.err_chan (fn i ∷ []) in
      record {
        room = omega (arith, h.room, shorter, longer);
        waits = λ w.
            let (n, l, f) = h.waits w in
            (omega (arith, n, shorter, longer), l, omega (arith, f, moved, sum));
        result = h.result;
      }

  step_send-Inv : (k : ℕ) (s : State) → Inv s → Holds Inv (step_send to fn k s)
  unfolding step_send
  step_send-Inv k s h =
      Holds-elim Inv (take_at k s.running) _
        λ t u. Holds-if Inv (ltb (length s.err_chan) to) _ λ b. sent-Inv k t.0 t.1 s h u

  total-nothing : {A : Type 0} (f : A → ℕ) (xs : List A) → length xs ≡ 0 → total f xs ≡ 0
  total-nothing f [] e = refl
  total-nothing f (x ∷ xs) e = absurd (omega (arith, e))

  goes_on : (b : Bool) → ◌≡◌ {A = Option Err} (if b then some none else none) none → b ≡ false
  goes_on true e = ground arith
  goes_on false e = refl

  ends :
      (b : Bool) (r : Err)
      → ◌≡◌ {A = Option Err} (if b then some none else none) (some r)
      → (b ≡ true) × (failure r ≡ 0)
  ends true none e = (refl, refl)
  ends true (some d) e = ground arith
  ends false r e = ground arith

  received-Inv :
      (c : List Err) (s : State)
      → Inv s
      → s.returned ≡ none
      → s.err_chan ≡ c
      → Holds Inv (receive_from to fn c s)
  received-Inv [] s h w e = tt
  received-Inv (some d ∷ rest) s h w e =
      let (n, l, f) = h.waits w in
      let len = ap length e in
      let sum = ap (total failure) e in
      record {
        room = omega (arith, h.room, len);
        waits = λ x. ground (arith, x);
        result = λ r x.
            let one : failure (some d) ≡ failure r =
              ap (λ o. elim o [ none ↦ 0 | some q ↦ failure q ]) x in
            (λ z. absurd (omega (arith, z, one)), λ z. absurd (omega (arith, z, f, sum)));
      }
  received-Inv (none ∷ rest) s h w e =
      let (n, l, f) = h.waits w in
      let len = ap length e in
      let sum = ap (total failure) e in
      record {
        room = omega (arith, h.room, len);
        waits = λ x.
            let no = goes_on (s.received + 1 == to) x in
            (omega (arith, n, len), ground (arith, l, no), omega (arith, f, sum));
        result = λ r x.
            let (at_end, nil) = ends (s.received + 1 == to) r x in
            let last : s.received + 1 ≡ to = ground (arith, at_end) in
            let none_run =
              total-nothing (λ i. failure (fn i)) s.running (omega (arith, n, len, last)) in
            let none_sent = total-nothing failure rest (omega (arith, n, len, last)) in
            (λ z. omega (arith, f, sum, none_run, none_sent), λ z. nil);
      }

  step_receive-Inv :
      (o : Option Err) (s : State)
      → Inv s
      → s.returned ≡ o
      → Holds Inv (elim o [ some r ↦ none | none ↦ receive_from to fn s.err_chan s ])
  step_receive-Inv (some r) s h w = tt
  step_receive-Inv none s h w = received-Inv s.err_chan s h w refl

  step-Inv : (e : Event) (s : State) → Inv s → Holds Inv (step to fn e s)
  unfolding step step_receive
  step-Inv (send k) s h = step_send-Inv k s h
  step-Inv receive s h = step_receive-Inv s.returned s h refl

  pub run-Inv : (es : List Event) (s : State) → Inv s → Holds Inv (run to fn es s)
  unfolding run
  run-Inv [] s h = h
  run-Inv (e ∷ es) s h =
      Holds-elim Inv (step to fn e s) _
        λ t u. run-Inv es t (Holds-some Inv (step to fn e s) t u (step-Inv e s h))

  pub started-Inv : Inv (started to fn)
  unfolding started
  started-Inv =
      let n = length-indices 0 to in
      record {
        room = omega (arith, n);
        waits = λ w.
            let some_calls = goes_on (to == 0) w in
            (omega (arith, n), ground (arith, some_calls), omega arith);
        result = λ r w.
            let (no_calls, nil) = ends (to == 0) r w in
            let zero_to : to ≡ 0 = ground (arith, no_calls) in
            (
              λ z. total-nothing (λ i. failure (fn i)) (indices 0 to) (omega (arith, n, zero_to)),
              λ z. nil,
            );
      }
