-- ===== src/Tests/Migration.antt =====
-- Migrations of provider/pgsql/migrations.go against a database that is its own view.
use blueprint.Prelude.{
  false, ◌≡◌, refl, none, some, List, [], ◌∷◌, ◌++◌, Bytes, codes, contains, bytes_eq, arith,
}
use blueprint.Errors.{ok, foreign}
use blueprint.Migrations.Record.{MigrationRecord, Source, ProgressFn}
use blueprint.Migrations.Manager.{
  Database, run_files, run_file, run_migration, register_migration, or_rollback,
}
use blueprint.Migrations.Manager.View.{
  View, IsTransactional, IsQuiet, names, after_begin, after_exec, after_insert, after_commit, clear,
}
use blueprint.Migrations.Manager.Apply.{Attempt, run_migration_lem}
use blueprint.Migrations.Manager.Run.{Ran, pending, run_files-Ran}
use blueprint.Migrations.Manager.Rerun.{run_files_twice}

-- Every statement succeeds, but for a query into something that is no pointer.
abbrev database : Database View
database = record {
  begin = λ v. (none, after_begin none v);
  exec_script = λ c v. (none, after_exec c none v);
  insert_record = λ m v. (none, after_insert m none v);
  commit = λ v. (none, after_commit none v);
  rollback = λ v. (none, clear v);
  select_migrations = λ v. (ok v.registered, v);
  select_into_string = λ dest query v. (some (foreign 42), v);
  is_sql_no_rows = λ e. false;
  is_pgx_no_rows = λ e. false;
  query_table_schema = λ schema name kind v. (ok name, v);
  create_table = λ v. (none, v);
  conn = λ v. (ok 1, v);
  pg_advisory_lock = λ c id v. (none, v);
  pg_advisory_unlock = λ c id v. (none, v);
  close = λ c v. v;
  default_progress_fn = λ t f e v. v;
}

abbrev view : View → View
view v = v

database-IsTransactional : IsTransactional database view
database-IsTransactional = record {
  begin_lem = λ s. refl;
  exec_lem = λ c s. refl;
  insert_lem = λ m s. refl;
  commit_lem = λ s. refl;
  rollback_lem = λ s. refl;
  select_lem = λ s. refl;
  select_names = λ s l e n. ground (arith, e);
}

abbrev migration : Bytes → MigrationRecord
migration f = record { created = 0; name = f; sha2 = f; contents = f ++ codes ";" }

abbrev source : Source View
source = record {
  list = λ v. (ok (codes "1.sql" ∷ codes "2.sql" ∷ []), v);
  read = λ f v. (ok (migration f), v);
}

abbrev report : ProgressFn View
report t f e v = v

source-IsQuiet : IsQuiet source report view
source-IsQuiet = record {
  list_view = λ s. refl;
  read_view = λ f s. refl;
  read_name = λ f s m e. ground (arith, e);
  report_view = λ t f e s. refl;
}

-- The first migration is registered, the second one is not.
abbrev before : View
before = record {
  applied = codes "1.sql;" ∷ [];
  registered = migration (codes "1.sql") ∷ [];
  tx_applied = [];
  tx_registered = [];
}

abbrev listing : List Bytes
listing = codes "1.sql" ∷ codes "2.sql" ∷ []

run_files-Ran_example :
    Ran source
      (pending (names before.registered) listing)
      (run_files database source report (names before.registered) listing before).0
      before
      (run_files database source report (names before.registered) listing before).1
run_files-Ran_example =
    run_files-Ran database source report view database-IsTransactional source-IsQuiet
      (names before.registered) listing before

first_run_succeeds :
    (run_files database source report (names before.registered) listing before).0 ≡ none
unfolding run_files run_file run_migration register_migration or_rollback contains bytes_eq
first_run_succeeds = refl

run_files_twice_example :
    let t = (run_files database source report (names before.registered) listing before).1 in
    let again = run_files database source report (names t.registered) listing t in
    (pending (names t.registered) listing ≡ [])
    × (again.0 ≡ none)
    × (again.1.applied ≡ t.applied)
    × (again.1.registered ≡ t.registered)
run_files_twice_example =
    run_files_twice database view database-IsTransactional source report source-IsQuiet
      (names before.registered) listing before (λ n. refl) first_run_succeeds

run_migration_lem_example :
    Attempt
      (migration (codes "2.sql"))
      (run_migration database (migration (codes "2.sql")) before).0
      before
      (run_migration database (migration (codes "2.sql")) before).1
run_migration_lem_example =
    run_migration_lem database view database-IsTransactional (migration (codes "2.sql")) before
