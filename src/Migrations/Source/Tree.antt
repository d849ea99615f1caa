-- ===== src/Migrations/Source/Tree.antt =====
-- What the disk source of db/migrations/disk.go lists of a tree of files.
use blueprint.Prelude.{
  Bool, true, false, ◌&&◌, ◌||◌, Option, none, some, List, [], ◌∷◌, ◌++◌, ◌≡◌, refl, ap, ◌∙◌, Bytes,
  bytes_eq, contains, Bool-cases, inl, inr, arith, bytes_eq_sound, if◌then◌else◌,
}
use blueprint.Errors.{ok}
use blueprint.Migrations.Source.{is_migration, sort_strings}
use blueprint.Migrations.Source.Listing.{Sorted, sort_strings-Sorted, contains-sort_strings}
use blueprint.Migrations.Source.Disk.{
  Node, Entries, file, dir, nil, entry, broken, found, stat, append_all, walk, walk_entries,
  DiskSource, disk_list, base_name, list_from,
}

-- A file of that name is in the tree, in a directory that can be listed like those above it.
unfoldable mutual
  pub has_file : Bytes → Bytes → Node → Bool
  has_file n name (file x) = bytes_eq name n
  has_file n name (dir false es) = false
  has_file n name (dir true es) = has_file_in n es

  pub has_file_in : Bytes → Entries → Bool
  has_file_in n nil = false
  has_file_in n (entry m node es) = has_file n m node || has_file_in n es
  has_file_in n (broken m es) = has_file_in n es

-- No entry that is listed is broken.
unfoldable mutual
  pub is_whole : Node → Bool
  is_whole (file x) = true
  is_whole (dir false es) = true
  is_whole (dir true es) = is_whole_in es

  pub is_whole_in : Entries → Bool
  is_whole_in nil = true
  is_whole_in (entry m node es) = is_whole node && is_whole_in es
  is_whole_in (broken m es) = false

contains-append :
    (xs ys : List Bytes) (n : Bytes) → contains (xs ++ ys) n ≡ (contains xs n || contains ys n)
unfolding contains
contains-append [] ys n = refl
contains-append (x ∷ xs) ys n = ground (arith, contains-append xs ys n)

-- These are the migrations among the files that `has` is true of, or there is no list at all.
abbrev Lists : Bool → (Bytes → Bool) → Option (List Bytes) → Type 0
Lists whole has none = whole ≡ false
Lists whole has (some names) =
    (whole ≡ true) × ((n : Bytes) → contains names n ≡ (is_migration n && has n))

append_all-Lists :
    (v w : Bool) (f g : Bytes → Bool) (xs ys : Option (List Bytes))
    → Lists v f xs
    → Lists w g ys
    → Lists (v && w) (λ n. f n || g n) (append_all xs ys)
append_all-Lists v w f g none ys h k = ground (arith, h)
append_all-Lists v w f g (some xs) none h k = ground (arith, h, k)
append_all-Lists v w f g (some xs) (some ys) h k =
    (ground (arith, h.0, k.0), λ n. contains-append xs ys n ∙ ground (arith, h.1 n, k.1 n))

file-Lists :
    (name : Bytes)
    → Lists true (λ n. bytes_eq name n) (some (if is_migration name then name ∷ [] else []))
unfolding contains
file-Lists name = (
  refl,
  λ n. elim (Bool-cases (bytes_eq name n)) [
    | inl e ↦ ground (arith, e, ap is_migration (bytes_eq_sound name n e))
    | inr d ↦ ground (arith, d)
  ],
)

no_names : (n : Bytes) → contains [] n ≡ (is_migration n && false)
unfolding contains
no_names n = ground arith

mutual
  unfolding walk walk_entries has_file has_file_in is_whole is_whole_in

  walk-Lists :
      (name : Bytes) (node : Node)
      → Lists (is_whole node) (λ n. has_file n name node) (walk name node)
  walk-Lists name (file x) = file-Lists name
  walk-Lists name (dir false es) = (refl, no_names)
  walk-Lists name (dir true es) = walk_entries-Lists es

  walk_entries-Lists :
      (es : Entries) → Lists (is_whole_in es) (λ n. has_file_in n es) (walk_entries es)
  walk_entries-Lists nil = (refl, no_names)
  walk_entries-Lists (entry m node es) =
      append_all-Lists (is_whole node) (is_whole_in es) (λ n. has_file n m node)
        (λ n. has_file_in n es) (walk m node) (walk_entries es) (walk-Lists m node)
        (walk_entries-Lists es)
  walk_entries-Lists (broken m es) = refl

whole-Lists :
    (name : Bytes) (node : Node)
    → is_whole node ≡ true
    → Lists true (λ n. has_file n name node) (walk name node)
whole-Lists name node h = rw h at (walk-Lists name node)

listed :
    (name : Bytes) (node : Node) (o : Option (List Bytes))
    → walk name node ≡ o
    → Lists true (λ n. has_file n name node) o
    → (names : List Bytes) × (list_from name (found node) ≡ some (ok names))
      × Sorted names
      × ((n : Bytes) → contains names n ≡ (is_migration n && has_file n name node))
listed name node none e h = ground arith
listed name node (some names) e h = (
  sort_strings names,
  rw e refl,
  sort_strings-Sorted names,
  λ n. contains-sort_strings names n ∙ h.1 n,
)

-- Where the information of every entry can be had, the disk source lists, in order, exactly the
-- names with the extension `.sql` that files at any depth below its path have, but for those below
-- a directory that cannot be listed.
pub disk_list_lem :
    (d : DiskSource) (root node : Node)
    → stat d.path root ≡ found node
    → is_whole node ≡ true
    → (names : List Bytes) × (disk_list d root ≡ some (ok names))
      × Sorted names
      × ((n : Bytes) → contains names n ≡ (is_migration n && has_file n (base_name d.path) node))
unfolding disk_list
disk_list_lem d root node e whole = rw e (
    listed (base_name d.path) node (walk (base_name d.path) node) refl
      (whole-Lists (base_name d.path) node whole))
