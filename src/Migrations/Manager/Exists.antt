-- ===== src/Migrations/Manager/Exists.antt =====
-- `MigrationExists` of provider/pgsql/migrations.go, and what its slips mean for `RunMigration` and
-- `RegisterMigration`.
use blueprint.Prelude.{true, ◌≢◌, refl, none, [], ◌∷◌, Bytes, bytes_eq, arith}
use blueprint.Migrations.Manager.{Database, migration_exists}

module _ {ℓ} {S : Type ℓ} (db : Database S) where
  -- For a migration with a hash, `MigrationExists` never answers "yes, with this hash": the hash
  -- that it compares with is empty, so a query that succeeds ends in the mismatch error.
  migration_exists_never :
      (name sha2 : Bytes) (s : S) → sha2 ≢ [] → (migration_exists db name sha2 s).0 ≢ (true, none)
  unfolding migration_exists bytes_eq
  migration_exists_never name [] s h = λ e. h refl
  migration_exists_never name (c ∷ sha2) s h = ground arith
