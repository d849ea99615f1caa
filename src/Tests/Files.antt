-- ===== src/Tests/Files.antt =====
-- A directory of migrations for db/migrations/disk.go.
use blueprint.Prelude.{
  ℕ, true, ◌&&◌, some, List, [], ◌∷◌, ◌≡◌, refl, Bytes, codes, contains, bytes_eq,
}
use blueprint.Errors.{ok, err, err_path_not_found}
use blueprint.Migrations.Record.{Environment}
use blueprint.Migrations.Source.{is_migration}
use blueprint.Migrations.Source.Listing.{Sorted}
use blueprint.Migrations.Source.Disk.{
  Node, Entries, file, dir, nil, entry, found, find, stat, DiskSource, disk_list, disk_read,
}
use blueprint.Migrations.Source.Tree.{has_file, is_whole, is_whole_in, disk_list_lem}
use blueprint.Migrations.Source.Reading.{IsPlain, disk_read_lem}

abbrev environment : Environment ℕ
environment = record { sha256_hex = λ c. c; now = λ s. (s, s) }

-- A migration beside a directory with another one.
abbrev entries : Entries
entries =
    entry (codes "b.sql") (file (some (codes "B")))
      (entry (codes "old") (dir true (entry (codes "a.sql") (file (some (codes "A"))) nil)) nil)

abbrev root : Node
root = dir true (entry (codes "m") (dir true entries) nil)

abbrev source : DiskSource
source = record { path = codes "m" ∷ [] }

source_found : stat (codes "m" ∷ []) root ≡ found (dir true entries)
unfolding stat find bytes_eq
source_found = refl

source_whole : is_whole (dir true entries) ≡ true
unfolding is_whole is_whole_in
source_whole = refl

disk_list_lem_example :
    (names : List Bytes) × (disk_list source root ≡ some (ok names))
    × Sorted names
    × ((n : Bytes)
        → contains names n ≡ (is_migration n && has_file n (codes "m") (dir true entries)))
disk_list_lem_example = disk_list_lem source root (dir true entries) source_found source_whole

plain : IsPlain (codes "a.sql")
unfolding bytes_eq
plain = record {
  without_slash = (refl, (refl, (refl, (refl, (refl, tt)))));
  not_empty = refl;
  not_here = refl;
  not_up = refl;
}

-- The nested migration is listed, and is not found.
disk_read_lem_example :
    disk_read environment source root (codes "a.sql") 3 ≡ some (err err_path_not_found, 3)
unfolding find bytes_eq
disk_read_lem_example =
    disk_read_lem environment (codes "a.sql") 3 source root true entries source_found plain
