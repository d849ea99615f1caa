-- ===== src/Db/Contract.antt =====
-- A repository and a transaction of db/repository.go keep the contract of a table, where goqu and
-- the database do what is said of them.
use mathlib.Core.Path.{subst}
use mathlib.Core.List.Perm
use blueprint.Prelude.{refl, none, some, [], ◌∷◌, Bytes}
use blueprint.Db.Driver.{Goqu, Conn, NoRows}
use blueprint.Db.Functions
use blueprint.Db.Repository
use blueprint.Db.Repository.{empty_result}
use blueprint.Db.Same.{methods_same}
use blueprint.Db.Instances.{repository_methods, tx_methods}
use blueprint.Db.Table.{
  Table, Write, inserting, deleting_where, deleting_by_key, updating_record, updating_by_key, call,
  changed, is_refused, Became, Refuses, IsTable,
}
use blueprint.Db.Meaning.{exists-Looked, exists-LookedOther, count_where-Answers, count_all-Answers}
use blueprint.Db.Database.{IsSelecting, IsWriting}
use blueprint.Db.Writes.{
  insert-Became, delete_where-Became, delete_by_key-Became, update_all-Became, update_record-Became,
  update_by_key-Became,
}
use blueprint.Db.Reads.{fetch_where-Fetched, fetch_record-FetchedOne, fetch_by_key-FetchedOne}

module _ {V S : Type 0} (g : Goqu V) (conn : Conn V S) (table : Bytes) (t : Table V S)
    (errors : NoRows) (r : IsSelecting g conn table t errors) (w : IsWriting g conn table t) where
  repository_writes :
      (c : Write V) (s : S)
      → Became t (changed t c (t.rows s)) s (call (repository_methods g conn table) c s)
  unfolding repository_methods Repository.insert Repository.delete_where Repository.delete_by_key
      Repository.update_record Repository.update_by_key Functions.insert Functions.delete_where
      Functions.update_record Functions.update_by_key
  repository_writes (inserting []) s = Perm.refl _
  repository_writes (inserting (v ∷ vs)) s = insert-Became g conn table t w v vs s
  repository_writes (deleting_where none) s = Perm.refl _
  repository_writes (deleting_where (some fvs)) s = delete_where-Became g conn table t w fvs s
  repository_writes (deleting_by_key key v) s = delete_by_key-Became g conn table t w key v s
  repository_writes (updating_record none fvs) s = Perm.refl _
  repository_writes (updating_record (some v) none) s = update_all-Became g conn table t w v s
  repository_writes (updating_record (some v) (some fvs)) s =
      update_record-Became g conn table t w v fvs s
  repository_writes (updating_by_key none key x) s = Perm.refl _
  repository_writes (updating_by_key (some v) key x) s =
      update_by_key-Became g conn table t w v key x s

  repository-Refuses :
      (c : Write V) (s : S)
      → Refuses t (is_refused c) s (call (repository_methods g conn table) c s)
  unfolding repository_methods Repository.insert Repository.delete_where Repository.update_record
      Repository.update_by_key Functions.insert Functions.delete_where Functions.update_record
      Functions.update_by_key
  repository-Refuses (inserting []) s = refl
  repository-Refuses (inserting (v ∷ vs)) s = tt
  repository-Refuses (deleting_where none) s = refl
  repository-Refuses (deleting_where (some fvs)) s = tt
  repository-Refuses (deleting_by_key key v) s = tt
  repository-Refuses (updating_record none fvs) s = refl
  repository-Refuses (updating_record (some v) fvs) s = tt
  repository-Refuses (updating_by_key none key x) s = refl
  repository-Refuses (updating_by_key (some v) key x) s = tt

  repository-IsTable : IsTable t (empty_result errors) (repository_methods g conn table)
  unfolding repository_methods Repository.fetch_where Repository.fetch_record
      Repository.fetch_by_key empty_result
  repository-IsTable = record {
    writes = repository_writes;
    refuses = repository-Refuses;
    counts = λ s. count_all-Answers g conn table t r.sql s;
    counts_where = λ fvs s. count_where-Answers g conn table t r.sql fvs s;
    exists_key = exists-Looked g conn table t r.sql;
    exists_skip = exists-LookedOther g conn table t r.sql;
    fetches = fetch_where-Fetched g conn table t errors r;
    fetches_one = fetch_record-FetchedOne g conn table t errors r;
    fetches_key = fetch_by_key-FetchedOne g conn table t errors r;
  }

  pub methods-IsTable :
      IsTable t (empty_result errors) (repository_methods g conn table)
      × IsTable t (empty_result errors) (tx_methods g conn table)
  methods-IsTable = (
    repository-IsTable,
    subst (IsTable t (empty_result errors)) (methods_same g conn table) repository-IsTable,
  )
