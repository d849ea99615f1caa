-- ===== src/Db/Open.antt =====
-- How db/repository.go opens a repository on a client, and a transaction on a repository. A context
-- is not modelled; `D` are the dialects of goqu, by the names of drivers.
use blueprint.Prelude.{ℕ, Bytes, Option}
use blueprint.Errors.{Error, Result, ok, err}
use blueprint.Db.Client.{Sqlx, SqlClient, Db, returned, panicked, db}

-- The fields of a `repository`, and of a `tx` with the transaction in place of the connection.
pub record Repository (D : Type 0) : Type 0 where
  pub conn : Option ℕ
  pub table_name : Bytes
  pub dialect : D

pub record Tx (D : Type 0) : Type 0 where
  pub conn : ℕ
  pub table_name : Bytes
  pub dialect : D

-- Opened with the client as it is then, or panicked in `Db`.
pub data Opened (D S : Type 0) : Type 0 where
  has_opened : Repository D → SqlClient S → S → Opened D S
  has_failed : Error → S → Opened D S

module _ {S D : Type 0} (sqlx : Sqlx S) (dialect : Bytes → D) where
  abbrev pub open_on : Bytes → Bytes → Db S → Opened D S
  open_on driver_name table_name (panicked e s) = has_failed e s
  open_on driver_name table_name (returned conn c s) =
      has_opened (record { conn = conn; table_name = table_name; dialect = dialect driver_name }) c
        s

  unfoldable pub new_repository : SqlClient S → Bytes → S → Opened D S
  new_repository c table_name s = open_on c.driver_name table_name (db sqlx c s)

module _ {S D : Type 0} (begin_txx : Option ℕ → S → Result ℕ × S) where
  unfoldable pub get_db : Repository D → Option ℕ
  get_db r = r.conn

  abbrev pub begun : Repository D → Result ℕ × S → Result (Tx D) × S
  begun r (err e, s) = (err e, s)
  begun r (ok t, s) = (ok (record { conn = t; table_name = r.table_name; dialect = r.dialect }), s)

  unfoldable pub new_transaction : Repository D → S → Result (Tx D) × S
  unfolding get_db
  new_transaction r s = begun r (begin_txx (get_db r) s)

module _ {D : Type 0} where
  -- The accessors `Sql` of both, and `Db` of a transaction.
  unfoldable pub sql : Repository D → D
  sql r = r.dialect

  unfoldable pub tx_sql : Tx D → D
  tx_sql t = t.dialect

  unfoldable pub tx_db : Tx D → ℕ
  tx_db t = t.conn
