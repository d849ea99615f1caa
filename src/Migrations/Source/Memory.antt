-- ===== src/Migrations/Source/Memory.antt =====
-- What a `MemorySource` of db/migrations/memory.go promises to the migration manager.
use blueprint.Prelude.{
  Bool, true, false, ◌&&◌, ◌||◌, Option, none, some, List, [], ◌∷◌, ◌≡◌, refl, ◌∙◌, Bytes, bytes_eq,
  contains, keep, lookup, insert, Bool-cases, inl, inr, arith, ap, bytes_eq_sound, bytes_eq_sym,
  if◌then◌else◌, lookup-insert,
}
use blueprint.Errors.{ok}
use blueprint.Migrations.Record.{Environment}
use blueprint.Migrations.Source.{
  Files, MemorySource, new_memory_source, memory_add, memory_list, memory_read, keys, is_migration,
  sort_strings, insert_sorted,
}
use blueprint.Migrations.Source.Listing.{
  Sorted, sort_strings-Sorted, contains-sort_strings, contains-keep, contains-insert_sorted,
}

abbrev pub is_some {ℓ} : {A : Type ℓ} → Option A → Bool
is_some none = false
is_some (some a) = true

-- No name is there twice.
abbrev pub Distinct : List Bytes → Type 0
Distinct [] = Unit
Distinct (s ∷ ss) = (contains ss s ≡ false) × Distinct ss

contains-keys : (m : Files) (n : Bytes) → contains (keys m) n ≡ is_some (lookup n m)
unfolding contains lookup
contains-keys [] n = refl
contains-keys ((k, v) ∷ m) n = ground (arith, contains-keys m n)

contains-keys-insert :
    (k v : Bytes) (m : Files) (n : Bytes)
    → contains (keys (insert k v m)) n ≡ (bytes_eq k n || contains (keys m) n)
contains-keys-insert k v m n =
    rw (contains-keys (insert k v m) n, lookup-insert k n v m, contains-keys m n) (ground arith)

keys-insert-Distinct :
    (k v : Bytes) (m : Files) → Distinct (keys m) → Distinct (keys (insert k v m))
unfolding insert
keys-insert-Distinct k v [] h = unfold contains in (refl, tt)
keys-insert-Distinct k v ((j, w) ∷ m) h = elim (Bool-cases (bytes_eq j k)) [
  | inl e ↦ rw (e, bytes_eq_sound k j (bytes_eq_sym k j ∙ e)) h
  | inr d ↦ rw d (
    contains-keys-insert k v m j ∙ ground (arith, bytes_eq_sym j k, h.0),
    keys-insert-Distinct k v m h.1,
  )
]

keep-Distinct : (p : Bytes → Bool) (ss : List Bytes) → Distinct ss → Distinct (keep p ss)
unfolding keep
keep-Distinct p [] h = tt
keep-Distinct p (s ∷ ss) h = ground (arith, keep-Distinct p ss h.1, contains-keep p ss s, h.0)

insert_sorted-Distinct :
    (s : Bytes) (ts : List Bytes)
    → contains ts s ≡ false
    → Distinct ts
    → Distinct (insert_sorted s ts)
unfolding insert_sorted contains
insert_sorted-Distinct s [] n h = (refl, tt)
insert_sorted-Distinct s (t ∷ ts) n h =
    ground
      (arith, insert_sorted-Distinct s ts, contains-insert_sorted s ts t, bytes_eq_sym s t, h.0, n)

sort_strings-Distinct : (ss : List Bytes) → Distinct ss → Distinct (sort_strings ss)
unfolding sort_strings
sort_strings-Distinct [] h = tt
sort_strings-Distinct (s ∷ ss) h =
    insert_sorted-Distinct s (sort_strings ss) (contains-sort_strings ss s ∙ h.0)
      (sort_strings-Distinct ss h.1)

-- The sources that `NewMemorySource` and `Add` build.
pub data Built : MemorySource → Type 0 where
  fresh : Built new_memory_source
  added : {d : MemorySource} (name content : Bytes) → Built d → Built (memory_add name content d)

Built-Distinct : {d : MemorySource} → Built d → Distinct (keys d.files)
unfolding new_memory_source memory_add
Built-Distinct fresh = tt
Built-Distinct (added {d = d} name content b) =
    keys-insert-Distinct name content d.files (Built-Distinct b)

-- The names that a source built by `Add` lists are sorted and distinct, and they are exactly the
-- names that were added and have the extension `.sql`.
memory_list_lem :
    {d : MemorySource}
    → Built d
    → (names : List Bytes) × (memory_list d ≡ ok names)
      × Sorted names
      × Distinct names
      × ((n : Bytes) → contains names n ≡ (is_migration n && is_some (lookup n d.files)))
unfolding memory_list
memory_list_lem {d} b = (
  sort_strings listed,
  refl,
  sort_strings-Sorted listed,
  sort_strings-Distinct listed (keep-Distinct is_migration (keys d.files) (Built-Distinct b)),
  λ n.
      contains-sort_strings listed n
      ∙ contains-keep is_migration (keys d.files) n
      ∙ ap (λ b. is_migration n && b) (contains-keys d.files n),
)
  where
    listed : List Bytes
    listed = keep is_migration (keys d.files)

-- After an `Add`, reading that name gives a record with that name, that content and its hash,
-- whatever was there before; reading any other name gives what it gave.
memory_read-add {ℓ} :
    {S : Type ℓ} (env : Environment S) (d : MemorySource) (name content n : Bytes) (s : S)
    → memory_read env (memory_add name content d) n s ≡ (
        if bytes_eq name n
        then (
          ok (record {
            created = (env.now s).0;
            name = n;
            sha2 = env.sha256_hex content;
            contents = content;
          }),
          (env.now s).1,
        )
        else memory_read env d n s)
unfolding memory_read memory_add
memory_read-add env d name content n s =
    rw (lookup-insert name n content d.files, memory_read) (ground arith)
