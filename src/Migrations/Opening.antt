-- ===== src/Migrations/Opening.antt =====
-- provider/pgsql/migrations.go: a migration manager on a client of db/client.go, and the
-- interface of db/migrations/manager.go that it implements. `database` is the server behind a
-- connection of sqlx.
use blueprint.Prelude.{ℕ, Bool, Option, none, some, List, Bytes, ◌≡◌, ap, sym, true}
use blueprint.Errors.{Error, Err, Result}
use blueprint.Db.Client.{Sqlx, SqlClient, Db, returned, panicked, db, db-Gives, Gives, is_connected}
use blueprint.Migrations.Record.{MigrationRecord, Source, ProgressFn}
use blueprint.Migrations.Manager
use blueprint.Migrations.Manager.{Database}

pub record MigrationManager (S : Type 0) : Type 0 where
  pub list : S → Result (List MigrationRecord) × S
  pub migration_exists : Bytes → Bytes → S → (Bool × Err) × S
  pub run_migration : MigrationRecord → S → Err × S
  pub register_migration : MigrationRecord → S → Err × S
  pub run : Source S → Option (ProgressFn S) → S → Err × S

-- Made or not, with the client as it is then, or panicked in `Db`.
pub data NewManager (S : Type 0) : Type 0 where
  manager_made : MigrationManager S → SqlClient S → S → NewManager S
  manager_failed : Error → SqlClient S → S → NewManager S
  manager_panicked : Error → S → NewManager S

module _ {S : Type 0} (sqlx : Sqlx S) (database : Option ℕ → Database S) where
  unfoldable pub pg_migration_manager : Option ℕ → MigrationManager S
  unfolding Manager.list Manager.migration_exists Manager.run_one_migration
      Manager.register_one_migration Manager.run
  pg_migration_manager conn = record {
    list = Manager.list (database conn);
    migration_exists = Manager.migration_exists (database conn);
    run_migration = Manager.run_one_migration (database conn);
    register_migration = Manager.register_one_migration (database conn);
    run = Manager.run (database conn);
  }

  abbrev after_init : Option ℕ → SqlClient S → Err × S → NewManager S
  after_init conn c (some e, s) = manager_failed e c s
  after_init conn c (none, s) = manager_made (pg_migration_manager conn) c s

  abbrev with_db : Db S → NewManager S
  with_db (panicked e s) = manager_panicked e s
  with_db (returned conn c s) = after_init conn c (Manager.init (database conn) s)

  unfoldable pub new_migration_manager : SqlClient S → S → NewManager S
  unfolding pg_migration_manager
  new_migration_manager c s = with_db (db sqlx c s)

  -- A manager works on the connection of its client, which is connected; a panic comes from a
  -- client without a connection.
  abbrev pub Manages : SqlClient S → NewManager S → Type 0
  Manages c (manager_made m c' s) = (m ≡ pg_migration_manager c'.conn) × (is_connected c' ≡ true)
  Manages c (manager_failed e c' s) = is_connected c' ≡ true
  Manages c (manager_panicked e s) = c.conn ≡ none

  after_init-Manages :
      (c c' : SqlClient S) (conn : Option ℕ) (r : Err × S)
      → c'.conn ≡ conn
      → is_connected c' ≡ true
      → Manages c (after_init conn c' r)
  after_init-Manages c c' conn (some e, s) same h = h
  after_init-Manages c c' conn (none, s) same h = (ap pg_migration_manager (sym same), h)

  with_db-Manages : (c : SqlClient S) (d : Db S) → Gives sqlx c d → Manages c (with_db d)
  with_db-Manages c (panicked e s) h = h
  with_db-Manages c (returned conn c' s) h =
      after_init-Manages c c' conn (Manager.init (database conn) s) h.1 h.0

  new_migration_manager-Manages : (c : SqlClient S) (s : S) → Manages c (new_migration_manager c s)
  unfolding new_migration_manager
  new_migration_manager-Manages c s = with_db-Manages c (db sqlx c s) (db-Gives sqlx c s)
