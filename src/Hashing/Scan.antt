-- ===== src/Hashing/Scan.antt =====
-- The verb %d of fmt, as crypt/hashing/argon2id.go prints and scans it, over ASCII text.
use blueprint.Prelude.{
  ℤ, pos, negsuc, ℕ, zero, suc, ◌+◌, ◌-◌, ◌*◌, ◌/◌, ◌%◌, ◌<◌, ◌^◌, ltb, leb, ◌==◌, if◌then◌else◌,
  Bool, true, false, ◌&&◌, ◌||◌, Option, none, some, [], ◌∷◌, ◌++◌, ◌≡◌, refl, ap, ◌∙◌, arith,
  Bytes, All, Bool-cases, inl, inr,
}
use mathlib.Core.List.{append_assoc}

-- The decimal digits of a number; the fuel is more than the number, so more than its digits.
unfoldable pub show_fuel : ℕ → ℕ → Bytes
show_fuel zero n = []
show_fuel (suc f) n =
    let front = show_fuel f (n / 10) in
    if ltb n 10 then (n + b'0') ∷ [] else front ++ (n % 10 + b'0') ∷ []

unfoldable pub show : ℕ → Bytes
unfolding show_fuel
show n = show_fuel (n + 1) n

abbrev pub is_digit : ℕ → Bool
is_digit c = leb b'0' c && leb c b'9'

-- As many digits as there are, after the ones that were read into `n`.
unfoldable pub scan_digits : ℕ → Bytes → ℕ × Bytes
scan_digits n [] = (n, [])
scan_digits n (c ∷ s) =
    let rest = scan_digits (n * 10 + (c - b'0')) s in if is_digit c then rest else (n, c ∷ s)

abbrev is_blank : ℕ → Bool
is_blank c = c == 32 || c == 9 || c == 11 || c == 12 || c == 13

unfoldable pub skip_blanks : Bytes → Bytes
skip_blanks [] = []
skip_blanks (c ∷ s) = let rest = skip_blanks s in if is_blank c then rest else c ∷ s

abbrev pub starts_digit : Bytes → Bool
starts_digit [] = false
starts_digit (c ∷ s) = is_digit c

-- At least one digit, and a value below the limit.
unfoldable pub scan_number : ℕ → Bytes → Option (ℕ × Bytes)
unfolding scan_digits
scan_number limit s =
    if starts_digit s
    then (let r = scan_digits 0 s in if ltb r.0 limit then some r else none)
    else none

-- %d into an unsigned variable.
unfoldable pub scan_uint : ℕ → Bytes → Option (ℕ × Bytes)
unfolding scan_number skip_blanks
scan_uint limit s = scan_number limit (skip_blanks s)

abbrev positive : Option (ℕ × Bytes) → Option (ℤ × Bytes)
positive none = none
positive (some (n, s)) = some (pos n, s)

abbrev negative : Option (ℕ × Bytes) → Option (ℤ × Bytes)
negative none = none
negative (some (zero, s)) = some (pos 0, s)
negative (some (suc n, s)) = some (negsuc n, s)

abbrev scan_signed : Bytes → Option (ℤ × Bytes)
scan_signed [] = none
scan_signed (c ∷ s) =
    if c == b'-'
    then negative (scan_number (2 ^ 63 + 1) s)
    else positive (scan_number (2 ^ 63) (if c == b'+' then s else c ∷ s))

-- %d into an `int`.
unfoldable pub scan_int : Bytes → Option (ℤ × Bytes)
unfolding scan_number skip_blanks
scan_int s = scan_signed (skip_blanks s)

-- Literal text of a format without spaces.
unfoldable pub scan_literal : Bytes → Bytes → Option Bytes
scan_literal [] s = some s
scan_literal (c ∷ l) [] = none
scan_literal (c ∷ l) (d ∷ s) = if c == d then scan_literal l s else none

scan_digits-step :
    (n d : ℕ) (s : Bytes) → d < 10 → scan_digits n ((d + b'0') ∷ s) ≡ scan_digits (n * 10 + d) s
unfolding scan_digits
scan_digits-step n d s h = ground arith

scan_digits-show_fuel :
    (f n : ℕ) (s : Bytes) → n < f → scan_digits 0 (show_fuel f n ++ s) ≡ scan_digits n s
unfolding show_fuel
scan_digits-show_fuel zero n s h = elim h [ ]
scan_digits-show_fuel (suc f) n s h = elim (Bool-cases (ltb n 10)) [
  | inl e ↦ rw e (scan_digits-step 0 n s (ground arith) ∙ ap (λ k. scan_digits k s) (omega arith))
  | inr e ↦
      rw (e, append_assoc)
        (scan_digits-show_fuel f (n / 10) ((n % 10 + b'0') ∷ s) (ground arith)
          ∙ scan_digits-step (n / 10) (n % 10) s (omega arith)
          ∙ ap (λ k. scan_digits k s) (omega arith))
]

show_fuel_starts : (f n : ℕ) (s : Bytes) → n < f → starts_digit (show_fuel f n ++ s) ≡ true
unfolding show_fuel
show_fuel_starts zero n s h = elim h [ ]
show_fuel_starts (suc f) n s h = elim (Bool-cases (ltb n 10)) [
  | inl e ↦ rw e (ground arith)
  | inr e ↦ rw (e, append_assoc) (show_fuel_starts f (n / 10) ((n % 10 + b'0') ∷ s) (ground arith))
]

skip_blanks_at_digit : (s : Bytes) → starts_digit s ≡ true → skip_blanks s ≡ s
unfolding skip_blanks
skip_blanks_at_digit [] h = refl
skip_blanks_at_digit (c ∷ s) h = ground arith

scan_digits_end : (n : ℕ) (s : Bytes) → starts_digit s ≡ false → scan_digits n s ≡ (n, s)
unfolding scan_digits
scan_digits_end n [] h = refl
scan_digits_end n (c ∷ s) h = ground arith

module _ (limit n : ℕ) (s : Bytes) (small : n < limit) (ends : starts_digit s ≡ false) where
  starts : starts_digit (show n ++ s) ≡ true
  unfolding show
  starts = show_fuel_starts (n + 1) n s (omega arith)

  digits : scan_digits 0 (show n ++ s) ≡ (n, s)
  unfolding show
  digits = scan_digits-show_fuel (n + 1) n s (omega arith) ∙ scan_digits_end n s ends

  scan_number-show : scan_number limit (show n ++ s) ≡ some (n, s)
  unfolding scan_number
  scan_number-show = ground (arith, starts, digits)

  -- A printed number is scanned back, where no digit follows.
  pub scan_uint-show : scan_uint limit (show n ++ s) ≡ some (n, s)
  unfolding scan_uint
  scan_uint-show =
      ap (scan_number limit) (skip_blanks_at_digit (show n ++ s) starts) ∙ scan_number-show

scan_signed_at_digit :
    (s : Bytes) → starts_digit s ≡ true → scan_signed s ≡ positive (scan_number (2 ^ 63) s)
scan_signed_at_digit [] h = ground arith
scan_signed_at_digit (c ∷ s) h = ground arith

pub scan_int-show :
    (n : ℕ) (s : Bytes)
    → n < 2 ^ 63
    → starts_digit s ≡ false
    → scan_int (show n ++ s) ≡ some (pos n, s)
unfolding scan_int
scan_int-show n s small ends =
    ap scan_signed (skip_blanks_at_digit (show n ++ s) (starts (2 ^ 63) n s small ends))
    ∙ scan_signed_at_digit (show n ++ s) (starts (2 ^ 63) n s small ends)
    ∙ ap positive (scan_number-show (2 ^ 63) n s small ends)

pub scan_literal-append : (l s : Bytes) → scan_literal l (l ++ s) ≡ some s
unfolding scan_literal
scan_literal-append [] s = refl
scan_literal-append (c ∷ l) s = ground (arith, scan_literal-append l s)

pub All-append : (P : ℕ → Type 0) (s t : Bytes) → All P s → All P t → All P (s ++ t)
All-append P [] t h k = k
All-append P (c ∷ s) t h k = (h.0, All-append P s t h.1 k)

show_fuel_without : (f n : ℕ) → All (λ c. (c == b'$') ≡ false) (show_fuel f n)
unfolding show_fuel
show_fuel_without zero n = tt
show_fuel_without (suc f) n = elim (Bool-cases (ltb n 10)) [
  | inl e ↦ rw e (ground arith)
  | inr e ↦
      rw e (All-append _ (show_fuel f (n / 10)) _ (show_fuel_without f (n / 10)) (ground arith))
]

pub show_without : (n : ℕ) → All (λ c. (c == b'$') ≡ false) (show n)
unfolding show
show_without n = show_fuel_without (n + 1) n

-- What is scanned into an unsigned variable is below its limit.
pub scan_uint-lt :
    (limit : ℕ) (s : Bytes) (n : ℕ) (rest : Bytes) → scan_uint limit s ≡ some (n, rest) → n < limit
unfolding scan_uint scan_number
scan_uint-lt limit s n rest e = ground arith
