-- ===== src/Db/Repository.antt =====
-- db/repository.go: the methods of `repository`. It stands for its connection `conn`, its
-- dialect `g` and its table, and hands its work to db/functions.go.
use blueprint.Prelude.{ℕ, ℤ, Bool, false, ◌||◌, Option, none, some, List, Bytes}
use blueprint.Errors.{Err, Result}
use blueprint.Db.Driver.{Query, Goqu, Conn, NoRows}
use blueprint.Db.Functions
use blueprint.Db.Functions.{FieldValues}

module _ {ℓ} {V : Type 0} {S : Type ℓ} (g : Goqu V) (conn : Conn V S) (table_name : Bytes) where
  unfoldable pub name : Bytes
  name = table_name

  unfoldable pub sql_select : g.SelectDataset
  sql_select = g.from table_name

  unfoldable pub sql_insert : g.InsertDataset
  sql_insert = g.insert table_name

  unfoldable pub sql_update : g.UpdateDataset
  sql_update = g.update table_name

  unfoldable pub sql_delete : g.DeleteDataset
  sql_delete = g.delete table_name

  unfoldable pub fetch_one : Option g.SelectDataset → Option ℕ → S → Err × S
  fetch_one qry target s = Functions.fetch_one g conn qry target s

  unfoldable pub fetch : Option g.SelectDataset → Option ℕ → S → Err × S
  fetch qry target s = Functions.fetch g conn qry target s

  unfoldable pub fetch_record : Option (FieldValues V) → Option ℕ → S → Err × S
  unfolding sql_select
  fetch_record fvs target s = Functions.fetch_record g conn sql_select fvs target s

  unfoldable pub fetch_by_key : Bytes → V → Option ℕ → S → Err × S
  unfolding sql_select
  fetch_by_key key value target s = Functions.fetch_by_key g conn sql_select key value target s

  unfoldable pub fetch_where : Option (FieldValues V) → Option ℕ → S → Err × S
  unfolding sql_select
  fetch_where fvs target s = Functions.fetch_where g conn sql_select fvs target s

  unfoldable pub exec : Option g.SelectDataset → S → Err × S
  exec qry s = Functions.exec g conn qry s

  unfoldable pub raw_exec : Query V → S → Err × S
  raw_exec q s = Functions.raw_exec g conn q s

  unfoldable pub exists : Bytes → V → List V → S → Option (Result Bool × S)
  unfolding sql_select
  exists name value skip s = Functions.exists g conn sql_select name value skip s

  unfoldable pub delete : Option g.DeleteDataset → S → Err × S
  delete qry s = Functions.del g conn qry s

  unfoldable pub delete_where : Option (FieldValues V) → S → Err × S
  unfolding sql_delete
  delete_where fvs s = Functions.delete_where g conn sql_delete fvs s

  unfoldable pub delete_by_key : Bytes → V → S → Err × S
  unfolding sql_delete
  delete_by_key key value s = Functions.delete_by_key g conn sql_delete key value s

  unfoldable pub select : ℕ → Query V → S → Err × S
  select target q s = conn.select target q s

  unfoldable pub insert : List V → S → Err × S
  unfolding sql_insert
  insert rows s = Functions.insert g conn sql_insert rows s

  unfoldable pub insert_returning : Option V → Option (List V) → List ℕ → S → Err × S
  unfolding sql_insert
  insert_returning r fields target s =
      Functions.insert_returning g conn sql_insert r fields target s

  unfoldable pub update : Option g.UpdateDataset → S → Err × S
  update qry s = Functions.update g conn qry s

  unfoldable pub update_record : Option V → Option (FieldValues V) → S → Err × S
  unfolding sql_update
  update_record r fvs s = Functions.update_record g conn sql_update r fvs s

  unfoldable pub update_by_key : Option V → Bytes → V → S → Err × S
  unfolding sql_update
  update_by_key r key value s = Functions.update_by_key g conn sql_update r key value s

  unfoldable pub count : S → Result ℤ × S
  unfolding sql_select
  count s = Functions.count g conn (g.select_count sql_select) s

  unfoldable pub count_where : FieldValues V → S → Result ℤ × S
  unfolding sql_select
  count_where fvs s =
      Functions.count g conn (Functions.where_all g conn fvs (g.select_count sql_select)) s

-- `errors.Is` of a nil error is false for both.
unfoldable pub empty_result : NoRows → Err → Bool
empty_result errors none = false
empty_result errors (some e) = errors.is e errors.sql_no_rows || errors.is e errors.pgx_no_rows
