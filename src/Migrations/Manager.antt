-- ===== src/Migrations/Manager.antt =====
-- provider/pgsql/migrations.go, lock.go and utils.go: the migration manager over PostgreSQL.
-- sqlx, pgx and the server are the parameter `Database`, whose operations act on a state `S` that
-- holds all that is outside of the program. An advisory lock is used here between its creation and
-- its `Close`; a call on a closed lock, a nil dereference, is not modelled.
pub mod View
pub mod Apply
pub mod Run
pub mod Rerun
pub mod Exists
pub mod Server
use blueprint.Prelude.{
  ℕ, Bool, true, false, ◌<◌, Option, none, some, List, [], ◌∷◌, map, Bytes, codes, bytes_eq,
  contains, length, ltb, if◌then◌else◌,
}
use blueprint.Errors.{
  Error, Err, Result, ok, err, err_migration_exists, err_migration_name_hash_mismatch,
}
use blueprint.Migrations.Record.{
  MigrationRecord, Source, Msg, ProgressFn, msg_skip_migration, msg_run_migration,
  msg_finished_migration, msg_error,
}

pub record Database {ℓ} (S : Type ℓ) : Type ℓ where
  -- db.Begin, and on the transaction: the script of a migration, the insertion of a record, its end
  pub begin : S → Err × S
  pub exec_script : Bytes → S → Err × S
  pub insert_record : MigrationRecord → S → Err × S
  pub commit : S → Err × S
  pub rollback : S → Err × S
  -- SELECT * FROM the migration table ORDER BY created
  pub select_migrations : S → Result (List MigrationRecord) × S
  -- db.SelectContext(ctx, dest, query) where `dest` is a string
  pub select_into_string : Bytes → Bytes → S → Err × S
  pub is_sql_no_rows : Error → Bool
  pub is_pgx_no_rows : Error → Bool
  -- the query on information_schema.tables, and the creation of the migration table
  pub query_table_schema : Bytes → Bytes → Bytes → S → Result Bytes × S
  pub create_table : S → Err × S
  -- db.Conn, the calls of pg_advisory_lock and pg_advisory_unlock on it, and its Close
  pub conn : S → Result ℕ × S
  pub pg_advisory_lock : ℕ → ℕ → S → Err × S
  pub pg_advisory_unlock : ℕ → ℕ → S → Err × S
  pub close : ℕ → S → S
  -- migrations.DefaultProgressFn prints
  pub default_progress_fn : ProgressFn S

abbrev pub migration_lock_id : ℕ
migration_lock_id = 2343452349

abbrev pub exists_query : Bytes
exists_query = codes "SELECT * FROM public.db_migration WHERE name=$1 LIMIT 1"

pub record AdvisoryLock : Type 0 where
  pub conn : ℕ
  pub id : ℕ

-- `if err != nil { return err }` before what follows.
infixl 5 ◌>>◌
abbrev pub ◌>>◌ {ℓ} : {S : Type ℓ} → Err × S → (S → Err × S) → Err × S
(none, s) >> k = k s
(some e, s) >> k = (some e, s)

module _ {ℓ} {S : Type ℓ} (db : Database S) where
  unfoldable pub new_advisory_lock : ℕ → S → Result AdvisoryLock × S
  new_advisory_lock id s =
      let (r, s') = db.conn s in
      elim r [ err e ↦ (err e, s') | ok c ↦ (ok (record { conn = c; id = id }), s') ]

  unfoldable pub close : AdvisoryLock → S → S
  close l s = db.close l.conn s

  unfoldable pub lock : AdvisoryLock → S → Err × S
  lock l s = db.pg_advisory_lock l.conn l.id s

  unfoldable pub unlock : AdvisoryLock → S → Err × S
  unlock l s = db.pg_advisory_unlock l.conn l.id s

  -- The lock around a body, with its two deferred calls; those run in the reverse order.
  unfoldable pub with_lock : (S → Err × S) → S → Err × S
  unfolding new_advisory_lock close lock unlock
  with_lock body s =
      let (r, s1) = new_advisory_lock migration_lock_id s in
      elim r [
        | err e ↦ (some e, s1)
        | ok l ↦
            let (e, s2) = lock l s1 in
            elim e [
              | some e ↦ (some e, close l s2)
              | none ↦ (let (r, s3) = body s2 in (r, close l (unlock l s3).1))
            ]
      ]

  -- dbObjectExists and TableExists
  unfoldable pub db_object_exists : Bytes → Bytes → Bytes → S → Result Bool × S
  db_object_exists table_type table_name schema s =
      let (r, s') = db.query_table_schema schema table_name table_type s in
      elim r [
        | err e ↦ (if db.is_sql_no_rows e then (ok false, s') else (err e, s'))
        | ok found ↦ (ok (ltb 0 (length found)), s')
      ]

  unfoldable pub table_exists : Bytes → Bytes → S → Result Bool × S
  unfolding db_object_exists
  table_exists table_name schema s = db_object_exists (codes "BASE TABLE") table_name schema s

  unfoldable pub init : S → Err × S
  unfolding table_exists
  init s =
      let (r, s') = table_exists (codes "db_migration") (codes "public") s in
      elim r [
        | err e ↦ (some e, s')
        | ok exists ↦ (if exists then (none, s') else db.create_table s')
      ]

  -- A statement of a transaction, which is rolled back if it fails.
  unfoldable pub or_rollback : (S → Err × S) → S → Err × S
  or_rollback statement s =
      let (e, s') = statement s in
      elim e [ none ↦ (none, s') | some e ↦ (some e, (db.rollback s').1) ]

  unfoldable pub register_migration : MigrationRecord → S → Err × S
  unfolding or_rollback
  register_migration m s = db.begin s >> or_rollback (db.insert_record m) >> db.commit

  unfoldable pub list : S → Result (List MigrationRecord) × S
  list s =
      let (r, s') = db.select_migrations s in
      elim r [
        | err e ↦ (if db.is_pgx_no_rows e then (ok [], s') else (err e, s'))
        | ok l ↦ (ok l, s')
      ]

  -- The record that the hash is compared with is never filled: its hash is the empty string. The
  -- query text goes where the destination belongs, and the name where the query belongs.
  unfoldable pub migration_exists : Bytes → Bytes → S → (Bool × Err) × S
  migration_exists name sha2 s =
      let (e, s') = db.select_into_string exists_query name s in
      elim e [
        | some e ↦ (if db.is_sql_no_rows e then ((false, none), s') else ((false, some e), s'))
        | none ↦
            if bytes_eq [] sha2
            then ((true, none), s')
            else ((true, some err_migration_name_hash_mismatch), s')
      ]

  -- runMigration
  unfoldable pub run_migration : MigrationRecord → S → Err × S
  unfolding or_rollback
  run_migration m s =
      db.begin s >> or_rollback (db.exec_script m.contents) >> db.commit >> register_migration m

  -- The body of `RunMigration` and of `RegisterMigration`, which differ in what they do at the end.
  abbrev pub exists_then : (S → Err × S) → (Bool × Err) × S → Err × S
  exists_then action ((exists, some e), s) = (some e, s)
  exists_then action ((true, none), s) = (some err_migration_exists, s)
  exists_then action ((false, none), s) = action s

  unfoldable pub unless_exists : MigrationRecord → (S → Err × S) → S → Err × S
  unless_exists m action s = exists_then action (migration_exists m.name m.sha2 s)

  -- RunMigration
  unfoldable pub run_one_migration : MigrationRecord → S → Err × S
  unfolding with_lock unless_exists
  run_one_migration m = with_lock (unless_exists m (run_migration m))

  -- RegisterMigration
  unfoldable pub register_one_migration : MigrationRecord → S → Err × S
  unfolding with_lock unless_exists
  register_one_migration m = with_lock (unless_exists m (register_migration m))

module _ {ℓ} {S : Type ℓ} (db : Database S) (src : Source S) (console_fn : ProgressFn S) where
  -- What is reported after a migration was run.
  abbrev pub report_end : Bytes → Err × S → Err × S
  report_end f (none, s) = (none, console_fn msg_finished_migration f none s)
  report_end f (some e, s) = (some e, console_fn msg_error f (some e) s)

  -- One round of the loop of `Run` for a migration that is not registered.
  unfoldable pub run_file : Bytes → S → Err × S
  run_file f s =
      let (r, s1) = src.read f s in
      elim r [
        | err e ↦ (some e, console_fn msg_error f (some e) s1)
        | ok m ↦ report_end f (run_migration db m (console_fn msg_run_migration f none s1))
      ]

  unfoldable pub run_files : List Bytes → List Bytes → S → Err × S
  run_files prev_names [] s = (none, s)
  run_files prev_names (f ∷ fs) s =
      (if contains prev_names f
        then (none, console_fn msg_skip_migration f none s)
        else run_file f s)
      >> run_files prev_names fs

  -- Go's `for i, r := range migList` over a list that is nil where `List` failed.
  abbrev pub names_of : Result (List MigrationRecord) → List Bytes
  names_of (err e) = []
  names_of (ok l) = map (λ (m : MigrationRecord). m.name) l

  unfoldable pub run_body : S → Err × S
  unfolding list
  run_body s =
      let (r, s1) = src.list s in
      elim r [
        | err e ↦ (some e, s1)
        | ok files ↦ (let (l, s2) = list db s1 in run_files (names_of l) files s2)
      ]

-- Run
unfoldable pub run {ℓ} : {S : Type ℓ} → Database S → Source S → Option (ProgressFn S) → S → Err × S
unfolding with_lock run_body
run db src none = with_lock db (run_body db src db.default_progress_fn)
run db src (some console_fn) = with_lock db (run_body db src console_fn)
