-- ===== src/Migrations/Manager/View.antt =====
-- What the parameter `Database` is assumed to do, seen through the committed state of the server:
-- the scripts that were applied and the migrations that are registered, and what the open
-- transaction would add to each.
use blueprint.Prelude.{◌≡◌, none, some, List, [], ◌∷◌, ◌++◌, map, Bytes, contains}
use blueprint.Errors.{Err, ok}
use blueprint.Migrations.Record.{MigrationRecord, Source, ProgressFn, Msg}
use blueprint.Migrations.Manager.{Database}

pub record View : Type 0 where
  pub applied : List Bytes
  pub registered : List MigrationRecord
  pub tx_applied : List Bytes
  pub tx_registered : List MigrationRecord

abbrev pub clear : View → View
clear v = record v { tx_applied = []; tx_registered = [] }

-- A transaction that starts is empty, and one that cannot start changes nothing.
abbrev pub after_begin : Err → View → View
after_begin none v = clear v
after_begin (some e) v = v

abbrev pub after_exec : Bytes → Err → View → View
after_exec c none v = record v { tx_applied = v.tx_applied ++ c ∷ [] }
after_exec c (some e) v = v

abbrev pub after_insert : MigrationRecord → Err → View → View
after_insert m none v = record v { tx_registered = v.tx_registered ++ m ∷ [] }
after_insert m (some e) v = v

-- A commit that fails is a rollback.
abbrev pub after_commit : Err → View → View
after_commit none v = record {
  applied = v.applied ++ v.tx_applied;
  registered = v.registered ++ v.tx_registered;
  tx_applied = [];
  tx_registered = [];
}
after_commit (some e) v = clear v

abbrev pub names : List MigrationRecord → List Bytes
names = map (λ (m : MigrationRecord). m.name)

-- The server's transactions as documented.
pub record IsTransactional {ℓ} {S : Type ℓ} (db : Database S) (view : S → View) : Type ℓ where
  pub begin_lem : (s : S) → view (db.begin s).1 ≡ after_begin (db.begin s).0 (view s)
  pub exec_lem :
      (c : Bytes) (s : S)
      → view (db.exec_script c s).1 ≡ after_exec c (db.exec_script c s).0 (view s)
  pub insert_lem :
      (m : MigrationRecord) (s : S)
      → view (db.insert_record m s).1 ≡ after_insert m (db.insert_record m s).0 (view s)
  pub commit_lem : (s : S) → view (db.commit s).1 ≡ after_commit (db.commit s).0 (view s)
  pub rollback_lem : (s : S) → view (db.rollback s).1 ≡ clear (view s)
  pub select_lem : (s : S) → view (db.select_migrations s).1 ≡ view s
  pub select_names :
      (s : S) (l : List MigrationRecord)
      → (db.select_migrations s).0 ≡ ok l
      → (n : Bytes) → contains (names l) n ≡ contains (names (view s).registered) n

-- A source that gives each record the name that it was asked for, and reporting and reading that
-- leave the database alone.
pub record IsQuiet {ℓ} {S : Type ℓ} (src : Source S) (fn : ProgressFn S) (view : S → View)
    : Type ℓ where
  pub list_view : (s : S) → view (src.list s).1 ≡ view s
  pub read_view : (f : Bytes) (s : S) → view (src.read f s).1 ≡ view s
  pub read_name : (f : Bytes) (s : S) (m : MigrationRecord) → (src.read f s).0 ≡ ok m → m.name ≡ f
  pub report_view : (t : Msg) (f : Bytes) (e : Err) (s : S) → view (fn t f e s) ≡ view s
