-- ===== src/Migrations/Source/Reading.antt =====
-- Where the disk source of db/migrations/disk.go looks for the migration that it is asked for.
use mathlib.Core.List.{reverse-cons, reverse-reverse}
use blueprint.Prelude.{
  Bool, false, Option, none, some, List, [], ◌∷◌, ◌++◌, ◌≡◌, refl, sym, ap, ◌∙◌, Bytes, codes,
  bytes_eq, reverse, ◌⊎◌, inl, inr, arith,
}
use blueprint.Errors.{Result, ok, err, err_path_not_found, err_invalid_file, err_read_migration}
use blueprint.Config.Text.Split.{Without, split-join}
use blueprint.Migrations.Record.{MigrationRecord, Environment, load_migration}
use blueprint.Migrations.Source.Disk.{
  Node, Entries, file, dir, Stat, found, not_exist, fails, find, stat, clean, join_path, DiskSource,
  disk_read, read_at,
}

-- An element of a path that stands for itself.
pub record IsPlain (name : Bytes) : Type 0 where
  pub without_slash : Without b'/' name
  pub not_empty : bytes_eq name [] ≡ false
  pub not_here : bytes_eq name (codes ".") ≡ false
  pub not_up : bytes_eq name (codes "..") ≡ false

join_path_lem :
    (base : List Bytes) (name : Bytes) → IsPlain name → join_path base name ≡ base ++ name ∷ []
unfolding join_path clean
join_path_lem base name h =
    rw (split-join b'/' name [] (h.without_slash, tt), h.not_empty, h.not_here, h.not_up)
      (reverse-cons name (reverse base) ∙ ap (λ p. p ++ name ∷ []) (reverse-reverse base))

Stat-cases : (x : Stat) → ((node : Node) × (x ≡ found node)) ⊎ ((x ≡ not_exist) ⊎ (x ≡ fails))
Stat-cases (found node) = inl (node, refl)
Stat-cases not_exist = inr (inl refl)
Stat-cases fails = inr (inr refl)

module _ (c : Bytes) (cs : List Bytes) (q : Bool) (fs : Entries) where
  stat-found : (node : Node) → find c fs ≡ found node → stat (c ∷ cs) (dir q fs) ≡ stat cs node
  unfolding stat
  stat-found node f = rw (stat, f) refl

  stat-not_exist : find c fs ≡ not_exist → stat (c ∷ cs) (dir q fs) ≡ not_exist
  unfolding stat
  stat-not_exist f = rw (stat, f) refl

  stat-fails : find c fs ≡ fails → stat (c ∷ cs) (dir q fs) ≡ fails
  unfolding stat
  stat-fails f = rw (stat, f) refl

stat_one : (name : Bytes) (q : Bool) (fs : Entries) → stat (name ∷ []) (dir q fs) ≡ find name fs
unfolding stat
stat_one name q fs = elim (Stat-cases (find name fs)) [
  | inl (node, f) ↦ stat-found name [] q fs node f ∙ sym f
  | inr (inl f) ↦ stat-not_exist name [] q fs f ∙ sym f
  | inr (inr f) ↦ stat-fails name [] q fs f ∙ sym f
]

stat-append :
    (path : List Bytes) (name : Bytes) (root : Node) (r : Bool) (es : Entries)
    → stat path root ≡ found (dir r es)
    → stat (path ++ name ∷ []) root ≡ find name es
unfolding stat
stat-append [] name (file x) r es e = ground arith
stat-append [] name (dir q fs) r es e =
    let same : fs ≡ es = ground arith in stat_one name q fs ∙ ap (find name) same
stat-append (c ∷ cs) name (file x) r es e = ground arith
stat-append (c ∷ cs) name (dir q fs) r es e = elim (Stat-cases (find c fs)) [
  | inl (node, f) ↦
      stat-found c (cs ++ name ∷ []) q fs node f
      ∙ stat-append cs name node r es (sym (stat-found c cs q fs node f) ∙ e)
  | inr (inl f) ↦
      let no : not_exist ≡ found (dir r es) = sym (stat-not_exist c cs q fs f) ∙ e in
      ground (arith, no)
  | inr (inr f) ↦
      let no : fails ≡ found (dir r es) = sym (stat-fails c cs q fs f) ∙ e in ground (arith, no)
]

module _ {ℓ} {S : Type ℓ} (env : Environment S) (name : Bytes) (s : S) where
  -- What a read of that name gives where this stands in the directory.
  abbrev pub given : Stat → Option (Result MigrationRecord × S)
  given (found (file (some content))) = some (
    ok (record {
      created = (env.now s).0;
      name = name;
      sha2 = env.sha256_hex content;
      contents = content;
    }),
    (env.now s).1,
  )
  given (found (file none)) = some (err err_read_migration, s)
  given (found (dir r es)) = some (err err_invalid_file, s)
  given not_exist = some (err err_path_not_found, s)
  given fails = none

  read_at_lem : (x : Stat) → read_at env name s x ≡ given x
  unfolding load_migration
  read_at_lem (found (file (some content))) = refl
  read_at_lem (found (file none)) = refl
  read_at_lem (found (dir r es)) = refl
  read_at_lem not_exist = refl
  read_at_lem fails = refl

  -- A plain name is looked for in the directory of the source itself, and in none below it: a file
  -- gives the record with the name, its content and the hash of that; one that cannot be read, a
  -- directory and a missing entry give an error each; and where there is no information about the
  -- entry, `Read` panics.
  pub disk_read_lem :
      (d : DiskSource) (root : Node) (r : Bool) (es : Entries)
      → stat d.path root ≡ found (dir r es)
      → IsPlain name
      → disk_read env d root name s ≡ given (find name es)
  unfolding disk_read
  disk_read_lem d root r es e h =
      rw (join_path_lem d.path name h, stat-append d.path name root r es e)
        (read_at_lem (find name es))
