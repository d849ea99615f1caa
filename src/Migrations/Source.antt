-- ===== src/Migrations/Source.antt =====
-- db/migrations/memory.go, embed.go and disk.go: the three sources of migrations.
pub mod Listing
pub mod Memory
pub mod Disk
pub mod Tree
pub mod Reading
use blueprint.Prelude.{
  ℕ, Bool, true, false, not, ◌&&◌, Option, none, some, List, [], ◌∷◌, Bytes, codes, bytes_eq,
  leb_bytes, keep, lookup, insert, map, ◌==◌, if◌then◌else◌,
}
use blueprint.Errors.{
  Error, Err, Result, ok, err, err_file_not_found, err_path_not_found, err_invalid_path,
  err_invalid_file, err_read_migration,
}
use blueprint.Migrations.Record.{MigrationRecord, Environment, load_migration}

-- filepath.Ext: what follows the last dot of the last element of the path, with the dot.
unfoldable pub ext_from : Bytes → Bytes → Bytes
ext_from found [] = found
ext_from found (c ∷ s) = ext_from (if c == b'/' then [] else if c == b'.' then c ∷ s else found) s

unfoldable pub ext : Bytes → Bytes
unfolding ext_from
ext path = ext_from [] path

abbrev pub migration_file_extension : Bytes
migration_file_extension = codes ".sql"

unfoldable pub is_migration : Bytes → Bool
unfolding ext
is_migration name = bytes_eq (ext name) migration_file_extension

-- sort.Strings
unfoldable pub insert_sorted : Bytes → List Bytes → List Bytes
insert_sorted s [] = s ∷ []
insert_sorted s (t ∷ ts) = if leb_bytes s t then s ∷ t ∷ ts else t ∷ insert_sorted s ts

unfoldable pub sort_strings : List Bytes → List Bytes
unfolding insert_sorted
sort_strings [] = []
sort_strings (s ∷ ss) = insert_sorted s (sort_strings ss)

-- The map of a `MemorySource`.
abbrev pub Files : Type 0
Files = List (Bytes × Bytes)

pub record MemorySource : Type 0 where
  pub files : Files

unfoldable pub new_memory_source : MemorySource
new_memory_source = record { files = [] }

abbrev pub keys : Files → List Bytes
keys = map (λ kv. kv.0)

unfoldable pub memory_add : Bytes → Bytes → MemorySource → MemorySource
memory_add name content d = record { files = insert name content d.files }

unfoldable pub memory_list : MemorySource → Result (List Bytes)
unfolding sort_strings is_migration
memory_list d = ok (sort_strings (keep is_migration (keys d.files)))

module _ {ℓ} {S : Type ℓ} (env : Environment S) where
  unfoldable pub memory_read : MemorySource → Bytes → S → Result MigrationRecord × S
  unfolding load_migration
  memory_read d name s = elim (lookup name d.files) [
    | none ↦ (err err_file_not_found, s)
    | some content ↦ (let (r, s') = load_migration env name content s in (ok r, s'))
  ]

-- An entry of a directory of the embedded file system.
pub record DirEntry : Type 0 where
  pub name : Bytes
  pub is_dir : Bool

abbrev is_sql_file : DirEntry → Bool
is_sql_file f = not f.is_dir && is_migration f.name

-- An `EmbedSource`: `ReadDir` and `ReadFile` of its file system at its path.
pub record EmbedSource : Type 0 where
  pub read_dir : Result (List DirEntry)
  pub read_file : Bytes → Result Bytes

unfoldable pub embed_list : EmbedSource → Result (List Bytes)
unfolding sort_strings is_migration
embed_list d = elim d.read_dir [
  | err e ↦ err e
  | ok items ↦ ok (sort_strings (map (λ f. f.name) (keep is_sql_file items)))
]

module _ {ℓ} {S : Type ℓ} (env : Environment S) where
  unfoldable pub embed_read : EmbedSource → Bytes → S → Result MigrationRecord × S
  unfolding load_migration
  embed_read d name s = elim (d.read_file name) [
    | err e ↦ (err e, s)
    | ok content ↦ (let (r, s') = load_migration env name content s in (ok r, s'))
  ]
