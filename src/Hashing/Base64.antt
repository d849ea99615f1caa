-- ===== src/Hashing/Base64.antt =====
-- The raw standard encoding of encoding/base64, whose strict decoder crypt/hashing/argon2id.go
-- uses. A text is read as sextets, four of which hold three bytes.
use blueprint.Prelude.{
  ℕ, ◌+◌, ◌-◌, ◌*◌, ◌/◌, ◌%◌, ◌<◌, ltb, leb, ◌==◌, if◌then◌else◌, Bool, true, false, not, ◌&&◌,
  ◌||◌, Option, none, some, List, [], ◌∷◌, map, keep, ◌≡◌, refl, ap, ◌∙◌, arith, Bytes, All,
}

unfoldable pub digit : ℕ → ℕ
digit n =
    if ltb n 26
    then n + 65
    else if ltb n 52
    then n + 71
    else if ltb n 62
    then n - 4
    else if n == 62
    then b'+'
    else b'/'

unfoldable pub sextet : ℕ → Option ℕ
sextet c =
    if leb b'A' c && leb c b'Z'
    then some (c - 65)
    else if leb b'a' c && leb c b'z'
    then some (c - 71)
    else if leb b'0' c && leb c b'9'
    then some (c + 4)
    else if c == b'+'
    then some 62
    else if c == b'/'
    then some 63
    else none

unfoldable pub sextets : Bytes → List ℕ
sextets [] = []
sextets (a ∷ []) = (a / 4) ∷ (a % 4 * 16) ∷ []
sextets (a ∷ b ∷ []) = (a / 4) ∷ (a % 4 * 16 + b / 16) ∷ (b % 16 * 4) ∷ []
sextets (a ∷ b ∷ c ∷ s) =
    (a / 4) ∷ (a % 4 * 16 + b / 16) ∷ (b % 16 * 4 + c / 64) ∷ (c % 64) ∷ sextets s

-- EncodeToString
unfoldable pub encode : Bytes → Bytes
unfolding digit sextets
encode s = map digit (sextets s)

abbrev cons {ℓ} : {A : Type ℓ} → Option A → Option (List A) → Option (List A)
cons none xs = none
cons (some x) none = none
cons (some x) (some xs) = some (x ∷ xs)

unfoldable pub read_sextets : Bytes → Option (List ℕ)
unfolding sextet
read_sextets [] = some []
read_sextets (c ∷ s) = cons (sextet c) (read_sextets s)

-- Bits that no byte takes have to be zero.
unfoldable pub join_sextets : List ℕ → Option Bytes
join_sextets [] = some []
join_sextets (w ∷ []) = none
join_sextets (w ∷ x ∷ []) = if x % 16 == 0 then some ((w * 4 + x / 16) ∷ []) else none
join_sextets (w ∷ x ∷ y ∷ []) =
    if y % 4 == 0 then some ((w * 4 + x / 16) ∷ (x % 16 * 16 + y / 4) ∷ []) else none
join_sextets (w ∷ x ∷ y ∷ z ∷ s) = elim (join_sextets s) [
  | none ↦ none
  | some bs ↦ some ((w * 4 + x / 16) ∷ (x % 16 * 16 + y / 4) ∷ (y % 4 * 64 + z) ∷ bs)
]

abbrev no_newline : ℕ → Bool
no_newline c = not (c == 10 || c == 13)

-- DecodeString of the strict encoding. Line ends are skipped.
unfoldable pub decode : Bytes → Option Bytes
unfolding read_sextets join_sextets
decode s = elim (read_sextets (keep no_newline s)) [ none ↦ none | some xs ↦ join_sextets xs ]

abbrev pub AreBytes : Bytes → Type 0
AreBytes = All (λ c. c < 256)

abbrev AreSextets : List ℕ → Type 0
AreSextets = All (λ c. c < 64)

sextets-AreSextets : (s : Bytes) → AreBytes s → AreSextets (sextets s)
unfolding sextets
sextets-AreSextets [] h = tt
sextets-AreSextets (a ∷ []) h = omega arith
sextets-AreSextets (a ∷ b ∷ []) h = omega arith
sextets-AreSextets (a ∷ b ∷ c ∷ s) h = ground (arith, sextets-AreSextets s)

join-sextets : (s : Bytes) → AreBytes s → join_sextets (sextets s) ≡ some s
unfolding sextets join_sextets
join-sextets [] h = refl
join-sextets (a ∷ []) h = ground arith
join-sextets (a ∷ b ∷ []) h = ground arith
join-sextets (a ∷ b ∷ c ∷ s) h = ground (arith, join-sextets s)

sextet-digit : (n : ℕ) → n < 64 → sextet (digit n) ≡ some n
unfolding sextet digit
sextet-digit n h = ground arith

no_newline-digit : (n : ℕ) → n < 64 → no_newline (digit n) ≡ true
unfolding digit
no_newline-digit n h = ground arith

keep-digits : (xs : List ℕ) → AreSextets xs → keep no_newline (map digit xs) ≡ map digit xs
unfolding keep
keep-digits [] h = refl
keep-digits (x ∷ xs) h = ground (arith, no_newline-digit x, keep-digits xs)

read_sextets-digits : (xs : List ℕ) → AreSextets xs → read_sextets (map digit xs) ≡ some xs
unfolding read_sextets
read_sextets-digits [] h = refl
read_sextets-digits (x ∷ xs) h = ground (arith, sextet-digit x, read_sextets-digits xs)

-- What was encoded is decoded to the same bytes.
pub decode-encode : (s : Bytes) → AreBytes s → decode (encode s) ≡ some s
unfolding decode encode
decode-encode s h =
    ap (λ t. elim (read_sextets t) [ none ↦ none | some xs ↦ join_sextets xs ])
      (keep-digits (sextets s) (sextets-AreSextets s h))
    ∙ ap (λ r. elim r [ none ↦ none | some xs ↦ join_sextets xs ])
        (read_sextets-digits (sextets s) (sextets-AreSextets s h))
    ∙ join-sextets s h

digits_without : (xs : List ℕ) → AreSextets xs → All (λ c. (c == b'$') ≡ false) (map digit xs)
unfolding digit
digits_without [] h = tt
digits_without (x ∷ xs) h = ground (arith, digits_without xs)

-- No dollar sign is a digit.
pub encode_without : (s : Bytes) → AreBytes s → All (λ c. (c == b'$') ≡ false) (encode s)
unfolding encode
encode_without s h = digits_without (sextets s) (sextets-AreSextets s h)
