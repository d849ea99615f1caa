-- ===== src/Console/Sequence.antt =====
-- How a terminal reads the escape sequences of console/ansi.go.
use blueprint.Prelude.{
  ℕ, zero, suc, ◌<◌, ◌^◌, ℤ, pos, Option, none, some, List, [], ◌∷◌, ◌++◌, map, length, Bytes, All,
  codes, arith, ◌==◌, ◌≡◌, refl, ap, ◌∙◌, if◌then◌else◌,
}
use mathlib.Core.List.{append_assoc}
use blueprint.Servers.{show_int}
use blueprint.Hashing.Scan.{
  scan_int, scan_number, skip_blanks, scan_digits, scan_literal, scan_int-show,
}
use blueprint.Config.Text.Split.{join}
use blueprint.Console.{escape, color, reset, colorize}

abbrev with_number : ℤ → Option (List ℤ × Bytes) → Option (List ℤ × Bytes)
with_number n none = none
with_number n (some (ns, s)) = some (n ∷ ns, s)

-- What comes after a number: the end, or a semicolon and what `more` reads.
abbrev after_number :
    (Bytes → Option (List ℤ × Bytes)) → Option (ℤ × Bytes) → Option (List ℤ × Bytes)
after_number more none = none
after_number more (some (n, [])) = none
after_number more (some (n, c ∷ s)) =
    if c == b'm' then some (n ∷ [], s) else if c == b';' then with_number n (more s) else none

-- At most as many numbers as there is fuel.
unfoldable pub read_numbers : ℕ → Bytes → Option (List ℤ × Bytes)
read_numbers zero s = none
read_numbers (suc k) s = after_number (read_numbers k) (scan_int s)

-- The attributes of a sequence of at most `k`, and the text after it.
unfoldable pub read_sequence : ℕ → Bytes → Option (List ℤ × Bytes)
unfolding read_numbers
read_sequence k s = elim (scan_literal (escape ∷ codes "[") s) [
  | none ↦ none
  | some rest ↦ read_numbers k rest
]

abbrev pub InRange : List ℕ → Type 0
InRange = All (λ n. n < 2 ^ 63)

read_numbers-join :
    (k n : ℕ) (ns : List ℕ) (s : Bytes)
    → length ns < k
    → InRange (n ∷ ns)
    → read_numbers k (join b';' (map show_int (map pos (n ∷ ns))) ++ (b'm' ∷ s))
      ≡ some (map pos (n ∷ ns), s)
unfolding read_numbers show_int
read_numbers-join zero n ns s h small = ground arith
read_numbers-join (suc k) n [] s h small =
    ap (after_number (read_numbers k)) (scan_int-show n (b'm' ∷ s) small.0 refl)
read_numbers-join (suc k) n (m ∷ ns) s h small = rw append_assoc (
    ap (after_number (read_numbers k)) (scan_int-show n _ small.0 refl)
    ∙ ap (with_number (pos n)) (read_numbers-join k m ns s (omega arith) small.1))

read_sequence-colorize :
    (k n : ℕ) (ns : List ℕ) (s : Bytes)
    → length ns < k
    → InRange (n ∷ ns)
    → read_sequence k (colorize (map pos (n ∷ ns)) s) ≡ some (map pos (n ∷ ns), s ++ reset)
unfolding read_sequence colorize color scan_literal
read_sequence-colorize k n ns s h small =
    rw append_assoc (read_numbers-join k n ns (s ++ reset) h small)

read_sequence-reset : (k : ℕ) → 0 < k → read_sequence k reset ≡ some (pos 0 ∷ [], [])
unfolding read_sequence read_numbers scan_literal reset scan_int scan_number skip_blanks scan_digits
read_sequence-reset zero h = ground arith
read_sequence-reset (suc k) h = refl

-- A terminal that reads sequences of at most `k` attributes: of a text that is coloured with at
-- least one and at most `k` attributes, which are natural numbers below 2 ^ 63, it reads these
-- attributes, then the text and the sequence of `Reset`, which it reads as the attribute 0.
pub colorize_lem :
    (k n : ℕ) (ns : List ℕ) (s : Bytes)
    → length ns < k
    → InRange (n ∷ ns)
    → (read_sequence k (colorize (map pos (n ∷ ns)) s) ≡ some (map pos (n ∷ ns), s ++ reset))
      × (read_sequence k reset ≡ some (pos 0 ∷ [], []))
colorize_lem k n ns s h small =
    (read_sequence-colorize k n ns s h small, read_sequence-reset k (omega arith))
