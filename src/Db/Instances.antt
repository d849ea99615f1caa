-- ===== src/Db/Instances.antt =====
-- db/repository.go: a `repository` and a `tx` as the interfaces that they implement. sqlx's
-- connections and transactions, by their handles, and its `Commit`, `Rollback` and `BeginTxx` are
-- parameters, as are the dialects `goqu_of` of goqu.
use blueprint.Prelude.{ℕ, Option, Bytes}
use blueprint.Errors.{Err, Result}
use blueprint.Db.Driver.{Goqu, Conn}
use blueprint.Db.Interface
use blueprint.Db.Interface.{Methods, Transaction}
use blueprint.Db.Repository
use blueprint.Db.Tx
use blueprint.Db.Open as Open

module _ {V S : Type 0} (g : Goqu V) (conn : Conn V S) (table_name : Bytes) where
  unfoldable pub repository_methods : Methods g S
  repository_methods = record {
    builder = record {
      sql_select = Repository.sql_select g conn table_name;
      sql_insert = Repository.sql_insert g conn table_name;
      sql_update = Repository.sql_update g conn table_name;
      sql_delete = Repository.sql_delete g conn table_name;
    };
    reader = record {
      fetch_one = Repository.fetch_one g conn table_name;
      fetch_record = Repository.fetch_record g conn table_name;
      fetch = Repository.fetch g conn table_name;
      fetch_where = Repository.fetch_where g conn table_name;
      fetch_by_key = Repository.fetch_by_key g conn table_name;
      exists = Repository.exists g conn table_name;
    };
    executor = record {
      exec = Repository.exec g conn table_name;
      raw_exec = Repository.raw_exec g conn table_name;
      select = Repository.select g conn table_name;
    };
    writer = record {
      insert = Repository.insert g conn table_name;
      insert_returning = Repository.insert_returning g conn table_name;
    };
    deleter = record {
      delete = Repository.delete g conn table_name;
      delete_where = Repository.delete_where g conn table_name;
      delete_by_key = Repository.delete_by_key g conn table_name;
    };
    updater = record {
      update = Repository.update g conn table_name;
      update_record = Repository.update_record g conn table_name;
      update_by_key = Repository.update_by_key g conn table_name;
    };
    counter = record {
      count = Repository.count g conn table_name;
      count_where = Repository.count_where g conn table_name;
    };
  }

  unfoldable pub tx_methods : Methods g S
  tx_methods = record {
    builder = record {
      sql_select = Tx.sql_select g conn table_name;
      sql_insert = Tx.sql_insert g conn table_name;
      sql_update = Tx.sql_update g conn table_name;
      sql_delete = Tx.sql_delete g conn table_name;
    };
    reader = record {
      fetch_one = Tx.fetch_one g conn table_name;
      fetch_record = Tx.fetch_record g conn table_name;
      fetch = Tx.fetch g conn table_name;
      fetch_where = Tx.fetch_where g conn table_name;
      fetch_by_key = Tx.fetch_by_key g conn table_name;
      exists = Tx.exists g conn table_name;
    };
    executor = record {
      exec = Tx.exec g conn table_name;
      raw_exec = Tx.raw_exec g conn table_name;
      select = Tx.select g conn table_name;
    };
    writer = record {
      insert = Tx.insert g conn table_name;
      insert_returning = Tx.insert_returning g conn table_name;
    };
    deleter = record {
      delete = Tx.delete g conn table_name;
      delete_where = Tx.delete_where g conn table_name;
      delete_by_key = Tx.delete_by_key g conn table_name;
    };
    updater = record {
      update = Tx.update g conn table_name;
      update_record = Tx.update_record g conn table_name;
      update_by_key = Tx.update_by_key g conn table_name;
    };
    counter = record {
      count = Tx.count g conn table_name;
      count_where = Tx.count_where g conn table_name;
    };
  }

module _ {V S D : Type 0} (goqu_of : D → Goqu V) where
  unfoldable pub transaction :
      (ℕ → Conn V S)
      → (ℕ → S → Err × S)
      → (ℕ → S → Err × S)
      → (t : Open.Tx D) → Transaction (goqu_of t.dialect) S
  unfolding tx_methods Open.tx_db Tx.name Tx.commit Tx.rollback
  transaction tx_of conn_commit conn_rollback t =
      let g = goqu_of t.dialect in
      let conn = tx_of t.conn in
      record {
        methods = tx_methods g conn t.table_name;
        db = Open.tx_db t;
        name = Tx.name g conn t.table_name;
        commit = Tx.commit g conn t.table_name (conn_commit t.conn);
        rollback = Tx.rollback g conn t.table_name (conn_rollback t.conn);
      }

  unfoldable pub repository :
      (Option ℕ → Conn V S)
      → (Option ℕ → S → Result ℕ × S)
      → (r : Open.Repository D) → Interface.Repository (goqu_of r.dialect) S (Open.Tx D)
  unfolding repository_methods Open.get_db Open.new_transaction Repository.name
  repository conn_of begin_txx r =
      let g = goqu_of r.dialect in
      let conn = conn_of r.conn in
      record {
        identifier = record {
          db = Open.get_db begin_txx r;
          name = Repository.name g conn r.table_name;
        };
        methods = repository_methods g conn r.table_name;
        new_transaction = Open.new_transaction begin_txx r;
      }
