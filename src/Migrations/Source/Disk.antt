-- ===== src/Migrations/Source/Disk.antt =====
-- db/migrations/disk.go over a tree of files. A path is the list of its elements from the root; a
-- panic is `none`. There are no symbolic links, and the tree does not change during a call.
use blueprint.Prelude.{
  Bool, true, false, ◌||◌, Option, none, some, List, [], ◌∷◌, ◌++◌, reverse, Bytes, codes, bytes_eq,
  if◌then◌else◌,
}
use blueprint.Errors.{
  Result, ok, err, and_then, err_path_not_found, err_invalid_path, err_invalid_file,
  err_read_migration,
}
use blueprint.Config.Text.{split}
use blueprint.Migrations.Record.{MigrationRecord, Environment, load_migration}
use blueprint.Migrations.Source.{is_migration, sort_strings}

-- A file has its content, if that can be read, and a directory its entries and whether they can be
-- listed. A `broken` entry is one that can be listed and whose information cannot be had.
mutual
  pub data Node : Type 0 where
    file : Option Bytes → Node
    dir : Bool → Entries → Node

  pub data Entries : Type 0 where
    nil : Entries
    entry : Bytes → Node → Entries → Entries
    broken : Bytes → Entries → Entries

-- What os.Stat comes to: a node, an error that os.IsNotExist is true of, or another error.
pub data Stat : Type 0 where
  found : Node → Stat
  not_exist fails : Stat

unfoldable pub find : Bytes → Entries → Stat
find c nil = not_exist
find c (entry n node es) = if bytes_eq n c then found node else find c es
find c (broken n es) = if bytes_eq n c then fails else find c es

unfoldable pub stat : List Bytes → Node → Stat
unfolding find
stat [] node = found node
stat (c ∷ cs) (file x) = fails
stat (c ∷ cs) (dir r es) = elim (find c es) [
  | found node ↦ stat cs node
  | not_exist ↦ not_exist
  | fails ↦ fails
]

abbrev parent : List Bytes → List Bytes
parent [] = []
parent (c ∷ cs) = cs

-- path.Join(base, name), the last element of the path first.
abbrev pub clean_one : List Bytes → Bytes → List Bytes
clean_one up c =
    if bytes_eq c [] || bytes_eq c (codes ".")
    then up
    else if bytes_eq c (codes "..")
    then parent up
    else c ∷ up

unfoldable pub clean : List Bytes → List Bytes → List Bytes
clean up [] = up
clean up (c ∷ cs) = clean (clean_one up c) cs

unfoldable pub join_path : List Bytes → Bytes → List Bytes
unfolding clean
join_path base name = reverse (clean (reverse base) (split b'/' name))

abbrev pub base_name : List Bytes → Bytes
base_name [] = codes "/"
base_name (c ∷ []) = c
base_name (c ∷ d ∷ cs) = base_name (d ∷ cs)

abbrev pub append_all : Option (List Bytes) → Option (List Bytes) → Option (List Bytes)
append_all none ys = none
append_all (some xs) none = none
append_all (some xs) (some ys) = some (xs ++ ys)

-- filepath.Walk with the function of `List`, which looks at the information even of an entry for
-- which there is none.
unfoldable mutual
  unfolding is_migration

  pub walk : Bytes → Node → Option (List Bytes)
  walk name (file x) = some (if is_migration name then name ∷ [] else [])
  walk name (dir false es) = some []
  walk name (dir true es) = walk_entries es

  pub walk_entries : Entries → Option (List Bytes)
  walk_entries nil = some []
  walk_entries (entry n node es) = append_all (walk n node) (walk_entries es)
  walk_entries (broken n es) = none

pub record DiskSource : Type 0 where
  pub path : List Bytes

abbrev directory_at : List Bytes → Stat → Result DiskSource
directory_at path (found (file x)) = err err_invalid_path
directory_at path (found (dir r es)) = ok (record { path = path })
directory_at path not_exist = err err_path_not_found
directory_at path fails = err err_invalid_path

-- `abs` is what filepath.Abs gives for the path.
unfoldable pub new_disk_source : Result (List Bytes) → Node → Result DiskSource
unfolding stat
new_disk_source abs root = and_then abs (λ path. directory_at path (stat path root))

abbrev sorted_names : Option (List Bytes) → Option (Result (List Bytes))
sorted_names none = none
sorted_names (some names) = some (ok (sort_strings names))

abbrev pub list_from : Bytes → Stat → Option (Result (List Bytes))
list_from name (found node) = sorted_names (walk name node)
list_from name not_exist = none
list_from name fails = none

unfoldable pub disk_list : DiskSource → Node → Option (Result (List Bytes))
unfolding sort_strings stat walk
disk_list d root = list_from (base_name d.path) (stat d.path root)

module _ {ℓ} {S : Type ℓ} (env : Environment S) where
  abbrev loaded : MigrationRecord × S → Result MigrationRecord × S
  loaded (r, s) = (ok r, s)

  abbrev pub read_at : Bytes → S → Stat → Option (Result MigrationRecord × S)
  read_at name s not_exist = some (err err_path_not_found, s)
  read_at name s fails = none
  read_at name s (found (dir r es)) = some (err err_invalid_file, s)
  read_at name s (found (file none)) = some (err err_read_migration, s)
  read_at name s (found (file (some content))) = some (loaded (load_migration env name content s))

  -- The path of a source is absolute, and filepath.Abs gives it back.
  unfoldable pub disk_read : DiskSource → Node → Bytes → S → Option (Result MigrationRecord × S)
  unfolding stat join_path load_migration
  disk_read d root name s = read_at name s (stat (join_path d.path name) root)
