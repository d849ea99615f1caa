-- ===== src/Db/Driver.antt =====
-- What the db package takes from goqu and sqlx. A goqu dataset is immutable: each of its methods
-- returns another dataset. `V` holds the values of Go's `any`; a target to scan into is an address,
-- and what is scanned into it is part of the state `S`, as is the database.
use blueprint.Prelude.{ℕ, ℤ, Bool, Bytes, List, Option}
use blueprint.Errors.{Error, Err, Result}

pub record Query (V : Type 0) : Type 0 where
  pub sql : Bytes
  pub args : List V

-- A dialect of goqu: its four kinds of datasets, and the type assertion `v.(string)`.
pub record Goqu (V : Type 0) : Type 1 where
  pub SelectDataset : Type 0
  pub InsertDataset : Type 0
  pub UpdateDataset : Type 0
  pub DeleteDataset : Type 0
  pub from : Bytes → SelectDataset
  pub select_count : SelectDataset → SelectDataset
  pub where_eq : Bytes → V → SelectDataset → SelectDataset
  pub where_neq : Bytes → V → SelectDataset → SelectDataset
  pub limit : ℕ → SelectDataset → SelectDataset
  pub select_sql : SelectDataset → Result (Query V)
  pub insert : Bytes → InsertDataset
  pub rows : List V → InsertDataset → InsertDataset
  pub returning : List V → InsertDataset → InsertDataset
  pub insert_prepared : InsertDataset → InsertDataset
  pub insert_sql : InsertDataset → Result (Query V)
  pub update : Bytes → UpdateDataset
  pub set : V → UpdateDataset → UpdateDataset
  pub update_where_eq : Bytes → V → UpdateDataset → UpdateDataset
  pub update_prepared : UpdateDataset → UpdateDataset
  pub update_sql : UpdateDataset → Result (Query V)
  pub delete : Bytes → DeleteDataset
  pub delete_where_eq : Bytes → V → DeleteDataset → DeleteDataset
  pub delete_sql : DeleteDataset → Result (Query V)
  pub as_string : V → Option Bytes

-- A connection or a transaction of sqlx.
pub record Conn {ℓ} (V : Type 0) (S : Type ℓ) : Type ℓ where
  pub exec : Query V → S → Err × S
  pub struct_scan : Query V → ℕ → S → Err × S
  pub scan : Query V → List ℕ → S → Err × S
  pub scan_int : Query V → S → Result ℤ × S
  pub select : ℕ → Query V → S → Err × S

-- `errors.Is`, and the two values `ErrNoRows`, of database/sql and of pgx.
pub record NoRows : Type 0 where
  pub is : Error → Error → Bool
  pub sql_no_rows : Error
  pub pgx_no_rows : Error
