-- ===== src/Config/Text.antt =====
-- The text functions of Go's library that config/provider/env.go calls, over ASCII text.
pub mod Split
use blueprint.Prelude.{
  ℕ, zero, suc, ◌+◌, ◌-◌, ◌*◌, ◌^◌, ℤ, pos, negsuc, Bool, true, false, ◌&&◌, ◌||◌, not, Option,
  none, some, List, [], ◌∷◌, ◌++◌, reverse, map, Bytes, codes, bytes_eq, leb, ltb, ◌==◌,
  if◌then◌else◌, String,
}
use blueprint.Errors.{Error, Err, foreign}

-- strings.ToUpper
unfoldable pub to_upper : Bytes → Bytes
to_upper = map (λ c. if leb b'a' c && leb c b'z' then c - 32 else c)

-- strings.SplitN(s, "=", 2): what stands before the first `=`, and what stands after it, if any.
unfoldable pub split_pair : Bytes → Bytes × Option Bytes
split_pair [] = ([], none)
split_pair (c ∷ s) = let (k, v) = split_pair s in if c == b'=' then ([], some s) else (c ∷ k, v)

-- strings.Split(s, sep) for a separator of one byte: there is always a first piece.
unfoldable pub split_pieces : ℕ → Bytes → Bytes × List Bytes
split_pieces sep [] = ([], [])
split_pieces sep (c ∷ s) =
    let (piece, rest) = split_pieces sep s in
    if c == sep then ([], piece ∷ rest) else (c ∷ piece, rest)

unfoldable pub split : ℕ → Bytes → List Bytes
unfolding split_pieces
split sep s = let (piece, rest) = split_pieces sep s in piece ∷ rest

-- strings.TrimSpace
unfoldable pub is_space : ℕ → Bool
is_space c = c == 32 || (leb 9 c && leb c 13)

unfoldable pub trim_left : Bytes → Bytes
unfolding is_space
trim_left [] = []
trim_left (c ∷ s) = let rest = trim_left s in if is_space c then rest else c ∷ s

unfoldable pub trim_space : Bytes → Bytes
unfolding trim_left
trim_space s = reverse (trim_left (reverse (trim_left s)))

-- strconv.ParseBool
unfoldable pub parse_bool : Error → Bytes → Bool × Err
parse_bool syntax s =
    if one_of ("1" ∷ "t" ∷ "T" ∷ "true" ∷ "TRUE" ∷ "True" ∷ [])
    then (true, none)
    else if one_of ("0" ∷ "f" ∷ "F" ∷ "false" ∷ "FALSE" ∷ "False" ∷ [])
    then (false, none)
    else (false, some syntax)
  where
    one_of : List String → Bool
    one_of [] = false
    one_of (t ∷ ts) = bytes_eq s (codes t) || one_of ts

abbrev pub max_int : ℕ
max_int = 2 ^ 63 - 1

-- The digits of a decimal numeral, and `none` for any other character. What follows is not read
-- once the value is past 64 bits.
unfoldable pub parse_digits : ℕ → Bytes → Option ℕ
parse_digits n [] = some n
parse_digits n (c ∷ s) =
    let n' = n * 10 + (c - b'0') in
    let rest = parse_digits n' s in
    if not (leb b'0' c && leb c b'9') then none else if leb (2 ^ 64) n' then some n' else rest

-- The errors ErrSyntax and ErrRange of strconv.
pub record NumErrors : Type 0 where
  pub syntax : Error
  pub range : Error

-- strconv.Atoi on 64 bits: a value out of range comes back as the nearest one with ErrRange.
unfoldable pub in_range : NumErrors → Bool → Option ℕ → ℤ × Err
in_range e negative none = (pos 0, some e.syntax)
in_range e false (some n) = if leb n max_int then (pos n, none) else (pos max_int, some e.range)
in_range e true (some zero) = (pos 0, none)
in_range e true (some (suc n)) =
    if leb n max_int then (negsuc n, none) else (negsuc max_int, some e.range)

unfoldable pub parse_unsigned : Bytes → Option ℕ
unfolding parse_digits
parse_unsigned [] = none
parse_unsigned (c ∷ s) = parse_digits 0 (c ∷ s)

unfoldable pub atoi : NumErrors → Bytes → ℤ × Err
unfolding in_range parse_unsigned
atoi e [] = (pos 0, some e.syntax)
atoi e (c ∷ s) =
    if c == b'-'
    then in_range e true (parse_unsigned s)
    else if c == b'+'
    then in_range e false (parse_unsigned s)
    else in_range e false (parse_unsigned (c ∷ s))
