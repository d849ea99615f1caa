-- ===== src/Db/Interface.antt =====
-- The interfaces of db/repository.go: what a repository and a transaction offer. Each is over a
-- dialect `g`, which is what `Sql` returns; a connection or a transaction of sqlx is its handle.
use blueprint.Prelude.{ℕ, ℤ, Bool, Option, List, Bytes}
use blueprint.Errors.{Err, Result}
use blueprint.Db.Driver.{Query, Goqu}
use blueprint.Db.Functions.{FieldValues}

pub record Builder {V : Type 0} (g : Goqu V) : Type 0 where
  pub sql_select : g.SelectDataset
  pub sql_insert : g.InsertDataset
  pub sql_update : g.UpdateDataset
  pub sql_delete : g.DeleteDataset

pub record Reader {V : Type 0} (g : Goqu V) (S : Type 0) : Type 0 where
  pub fetch_one : Option g.SelectDataset → Option ℕ → S → Err × S
  pub fetch_record : Option (FieldValues V) → Option ℕ → S → Err × S
  pub fetch : Option g.SelectDataset → Option ℕ → S → Err × S
  pub fetch_where : Option (FieldValues V) → Option ℕ → S → Err × S
  pub fetch_by_key : Bytes → V → Option ℕ → S → Err × S
  pub exists : Bytes → V → List V → S → Option (Result Bool × S)

pub record Counter (V S : Type 0) : Type 0 where
  pub count : S → Result ℤ × S
  pub count_where : FieldValues V → S → Result ℤ × S

pub record Executor {V : Type 0} (g : Goqu V) (S : Type 0) : Type 0 where
  pub exec : Option g.SelectDataset → S → Err × S
  pub raw_exec : Query V → S → Err × S
  pub select : ℕ → Query V → S → Err × S

pub record Writer (V S : Type 0) : Type 0 where
  pub insert : List V → S → Err × S
  pub insert_returning : Option V → Option (List V) → List ℕ → S → Err × S

pub record Updater {V : Type 0} (g : Goqu V) (S : Type 0) : Type 0 where
  pub update : Option g.UpdateDataset → S → Err × S
  pub update_record : Option V → Option (FieldValues V) → S → Err × S
  pub update_by_key : Option V → Bytes → V → S → Err × S

pub record Deleter {V : Type 0} (g : Goqu V) (S : Type 0) : Type 0 where
  pub delete : Option g.DeleteDataset → S → Err × S
  pub delete_where : Option (FieldValues V) → S → Err × S
  pub delete_by_key : Bytes → V → S → Err × S

-- The interfaces that `Repository` and `Transaction` share.
pub record Methods {V : Type 0} (g : Goqu V) (S : Type 0) : Type 0 where
  pub builder : Builder g
  pub reader : Reader g S
  pub executor : Executor g S
  pub writer : Writer V S
  pub deleter : Deleter g S
  pub updater : Updater g S
  pub counter : Counter V S

pub record Transaction {V : Type 0} (g : Goqu V) (S : Type 0) : Type 0 where
  pub methods : Methods g S
  pub db : ℕ
  pub name : Bytes
  pub commit : S → Err × S
  pub rollback : S → Err × S

pub record Identifier : Type 0 where
  pub db : Option ℕ
  pub name : Bytes

-- `T` are the transactions, which `Transaction` is an interface of.
pub record Repository {V : Type 0} (g : Goqu V) (S T : Type 0) : Type 0 where
  pub identifier : Identifier
  pub methods : Methods g S
  pub new_transaction : S → Result T × S
