-- ===== src/Migrations/Manager/Apply.antt =====
-- What `runMigration` and `registerMigration` of provider/pgsql/migrations.go leave in the
-- database.
use mathlib.Core.List.{append-nil}
use blueprint.Prelude.{◌≡◌, ◌⊎◌, none, some, List, [], ◌∷◌, ◌++◌, Bytes, arith}
use blueprint.Errors.{Err}
use blueprint.Migrations.Record.{MigrationRecord}
use blueprint.Migrations.Manager.{Database, register_migration, run_migration}
use blueprint.Migrations.Manager.View.{View, IsTransactional}

-- The committed part of a view is another one's, with some scripts and records added.
pub record Grows (v w : View) (scripts : List Bytes) (records : List MigrationRecord) : Type 0 where
  pub applied_eq : w.applied ≡ v.applied ++ scripts
  pub registered_eq : w.registered ≡ v.registered ++ records

-- All that an attempt to apply a migration can have done, by its result.
abbrev pub Attempt : MigrationRecord → Err → View → View → Type 0
Attempt m none v w = Grows v w (m.contents ∷ []) (m ∷ [])
Attempt m (some e) v w = Grows v w [] [] ⊎ Grows v w (m.contents ∷ []) []

abbrev pub Registration : MigrationRecord → Err → View → View → Type 0
Registration m none v w = Grows v w [] (m ∷ [])
Registration m (some e) v w = Grows v w [] []

module _ {ℓ} {S : Type ℓ} (db : Database S) (view : S → View) (law : IsTransactional db view) where
  -- On a server whose transactions work as documented, a registration adds its record and no script
  -- if it returns nil, and nothing if it fails.
  register_migration_lem :
      (m : MigrationRecord) (s : S)
      → Registration m (register_migration db m s).0 (view s) (view (register_migration db m s).1)
  unfolding register_migration
  register_migration_lem m s =
      let s1 = (db.begin s).1 in
      let s2 = (db.insert_record m s1).1 in
      ground (
        arith,
        law.begin_lem s,
        law.insert_lem m s1,
        law.commit_lem s2,
        law.rollback_lem s2,
        append-nil (view s).applied,
        append-nil (view s).registered,
      )

  -- On a server whose transactions work as documented, a migration whose application returns nil
  -- has had its script applied once and is registered once. If it returns an error, no record was
  -- added, and the script was either not applied or, where the failure came after the first commit,
  -- applied and left unregistered.
  pub run_migration_lem :
      (m : MigrationRecord) (s : S)
      → Attempt m (run_migration db m s).0 (view s) (view (run_migration db m s).1)
  unfolding run_migration
  run_migration_lem m s =
      let s1 = (db.begin s).1 in
      let s2 = (db.exec_script m.contents s1).1 in
      let s3 = (db.commit s2).1 in
      let v = view s in
      ground (
        arith,
        law.begin_lem s,
        law.exec_lem m.contents s1,
        law.commit_lem s2,
        law.rollback_lem s2,
        register_migration_lem m s3,
        append-nil v.applied,
        append-nil v.registered,
        append-nil (v.applied ++ m.contents ∷ []),
      )
