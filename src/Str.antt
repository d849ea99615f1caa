-- ===== src/Str.antt =====
-- utils/str/strutils.go: the index of a string in a list.
use blueprint.Prelude.{
  ℕ, zero, suc, ◌+◌, ℤ, pos, negsuc, lez, false, ◌≡◌, refl, ap, inl, inr, Bool-cases, List, [], ◌∷◌,
  ◌++◌, length, Bytes, bytes_eq, bytes_eq_sound, arith, if◌then◌else◌,
}
use blueprint.Tls.{contains_name}

unfoldable pub contains_from : Bytes → List Bytes → ℕ → ℤ
contains_from needle [] i = negsuc 0
contains_from needle (v ∷ haystack) i =
    let rest = contains_from needle haystack (suc i) in if bytes_eq v needle then pos i else rest

unfoldable pub contains : Bytes → List Bytes → ℤ
unfolding contains_from
contains needle haystack = contains_from needle haystack 0

-- What an index says, where the first `k` strings are left out of the list: the needle is there and
-- not before, and -1 says that it is not in the list.
abbrev pub Indexes : ℕ → Bytes → List Bytes → ℤ → Type 0
Indexes k needle haystack (pos i) =
    (before : List Bytes) × (after : List Bytes) × (haystack ≡ before ++ needle ∷ after)
    × (k + length before ≡ i)
    × (contains_name needle before ≡ false)
Indexes k needle haystack (negsuc zero) = contains_name needle haystack ≡ false
Indexes k needle haystack (negsuc (suc n)) = ⊥

Indexes-cons :
    (k : ℕ) (needle v : Bytes) (haystack : List Bytes) (i : ℤ)
    → bytes_eq v needle ≡ false
    → Indexes (suc k) needle haystack i
    → Indexes k needle (v ∷ haystack) i
unfolding contains_name
Indexes-cons k needle v hs (pos i) e (before, after, split, at, absent) =
    (v ∷ before, after, ap (λ xs. v ∷ xs) split, omega arith, ground (arith, e, absent))
Indexes-cons k needle v hs (negsuc zero) e h = ground (arith, e, h)
Indexes-cons k needle v hs (negsuc (suc n)) e h = h

contains_from-Indexes :
    (k : ℕ) (needle : Bytes) (haystack : List Bytes)
    → Indexes k needle haystack (contains_from needle haystack k)
unfolding contains_from contains_name
contains_from-Indexes k needle [] = refl
contains_from-Indexes k needle (v ∷ hs) = elim (Bool-cases (bytes_eq v needle)) [
  | inl e ↦ rw e ([], hs, ap (λ x. x ∷ hs) (bytes_eq_sound v needle e), omega arith, refl)
  | inr n ↦ rw n (Indexes-cons k needle v hs _ n (contains_from-Indexes (suc k) needle hs))
]

contains_from-contains_name :
    (k : ℕ) (needle : Bytes) (haystack : List Bytes)
    → lez (pos 0) (contains_from needle haystack k) ≡ contains_name needle haystack
unfolding contains_from contains_name
contains_from-contains_name k needle [] = refl
contains_from-contains_name k needle (v ∷ hs) =
    ground (arith, contains_from-contains_name (suc k) needle hs)

-- `Contains` returns the index of the first string of the list that is the needle, or -1 if none
-- is; the index is at least 0 just where the membership test that stands for its uses is true.
pub contains-Indexes :
    (needle : Bytes) (haystack : List Bytes)
    → Indexes 0 needle haystack (contains needle haystack)
      × (lez (pos 0) (contains needle haystack) ≡ contains_name needle haystack)
unfolding contains
contains-Indexes needle haystack =
    (contains_from-Indexes 0 needle haystack, contains_from-contains_name 0 needle haystack)
