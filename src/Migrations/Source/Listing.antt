-- ===== src/Migrations/Source/Listing.antt =====
-- What a listing of migration names holds, and its order.
use blueprint.Prelude.{
  Bool, true, ◌&&◌, ◌||◌, List, [], ◌∷◌, ◌≡◌, refl, Bytes, leb_bytes, leb_bytes_total, bytes_eq,
  bytes_eq_sound, contains, keep, Bool-cases, inl, inr, arith, ap,
}
use blueprint.Migrations.Source.{insert_sorted, sort_strings}

-- Each name is at most the next one.
abbrev pub Sorted : List Bytes → Type 0
Sorted [] = Unit
Sorted (s ∷ []) = Unit
Sorted (s ∷ t ∷ ts) = (leb_bytes s t ≡ true) × Sorted (t ∷ ts)

insert_sorted-Sorted : (s : Bytes) (ts : List Bytes) → Sorted ts → Sorted (insert_sorted s ts)
unfolding insert_sorted
insert_sorted-Sorted s [] h = tt
insert_sorted-Sorted s (t ∷ []) h = ground (arith, leb_bytes_total s t)
insert_sorted-Sorted s (t ∷ u ∷ ts) h =
    ground (arith, leb_bytes_total s t, insert_sorted-Sorted s (u ∷ ts))

pub sort_strings-Sorted : (ss : List Bytes) → Sorted (sort_strings ss)
unfolding sort_strings
sort_strings-Sorted [] = tt
sort_strings-Sorted (s ∷ ss) = insert_sorted-Sorted s (sort_strings ss) (sort_strings-Sorted ss)

pub contains-insert_sorted :
    (s : Bytes) (ts : List Bytes) (n : Bytes)
    → contains (insert_sorted s ts) n ≡ (bytes_eq s n || contains ts n)
unfolding insert_sorted contains
contains-insert_sorted s [] n = ground arith
contains-insert_sorted s (t ∷ ts) n = ground (arith, contains-insert_sorted s ts n)

pub contains-sort_strings :
    (ss : List Bytes) (n : Bytes) → contains (sort_strings ss) n ≡ contains ss n
unfolding sort_strings contains
contains-sort_strings [] n = refl
contains-sort_strings (s ∷ ss) n =
    ground (arith, contains-sort_strings ss n, contains-insert_sorted s (sort_strings ss) n)

-- A test that picks entries picks names: the name is kept exactly if it passes and was there.
pub contains-keep :
    (p : Bytes → Bool) (ss : List Bytes) (n : Bytes)
    → contains (keep p ss) n ≡ (p n && contains ss n)
unfolding contains keep
contains-keep p [] n = ground arith
contains-keep p (s ∷ ss) n = elim (Bool-cases (bytes_eq s n)) [
  | inl e ↦ ground (arith, contains-keep p ss n, ap p (bytes_eq_sound s n e))
  | inr d ↦ ground (arith, contains-keep p ss n)
]
