-- ===== src/Migrations/Manager/Server.antt =====
-- The queries of provider/pgsql/lock.go and utils.go that the migration manager does not use.
use blueprint.Prelude.{ℕ, Bytes, codes, Bool, false}
use blueprint.Errors.{Err, Result}
use blueprint.Migrations.Manager.{Database, AdvisoryLock, db_object_exists}

-- QueryRowContext and Scan: the value that is scanned, and the error.
pub record Rows {ℓ} (S : Type ℓ) : Type ℓ where
  pub pg_try_advisory_lock : ℕ → ℕ → Bool → S → Bool × Err × S
  pub select_version : Bytes → S → Bytes × Err × S

module _ {ℓ} {S : Type ℓ} (db : Database S) (rows : Rows S) where
  -- What is scanned into starts as false, and as the empty string.
  unfoldable pub try_lock : AdvisoryLock → S → Bool × Err × S
  try_lock l s = rows.pg_try_advisory_lock l.conn l.id false s

  unfoldable pub get_server_version : S → Bytes × Err × S
  get_server_version s = rows.select_version (codes "") s

  unfoldable pub view_exists : Bytes → Bytes → S → Result Bool × S
  unfolding db_object_exists
  view_exists table_name schema s = db_object_exists db (codes "VIEW") table_name schema s

  unfoldable pub foreign_table_exists : Bytes → Bytes → S → Result Bool × S
  unfolding db_object_exists
  foreign_table_exists table_name schema s =
      db_object_exists db (codes "FOREIGN TABLE") table_name schema s
