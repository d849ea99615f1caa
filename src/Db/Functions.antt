-- ===== src/Db/Functions.antt =====
-- db/functions.go. A dataset, a map, a target or a record that Go code may pass as nil is an
-- `Option`; datasets on which the source calls a method with no test are not nil. A map is the
-- list of its entries, in the order in which Go's `range` happens to give them.
use blueprint.Prelude.{ℕ, ℤ, pos, ltz, Bool, Option, none, some, List, [], ◌∷◌, Bytes}
use blueprint.Errors.{Error, Err, Result, ok, err, err_invalid_parameters}
use blueprint.Db.Driver.{Query, Goqu, Conn}

abbrev pub FieldValues : Type 0 → Type 0
FieldValues V = List (Bytes × V)

module _ {ℓ} {V : Type 0} {S : Type ℓ} (g : Goqu V) (conn : Conn V S) where
  open g use {SelectDataset, InsertDataset, UpdateDataset, DeleteDataset}

  -- The `ToSQL` of a dataset, and what is done with the query.
  abbrev pub with_sql {κ} : {A : Type κ} → Result (Query V) → (Error → A) → (Query V → A) → A
  with_sql (err e) fail run = fail e
  with_sql (ok q) fail run = run q

  unfoldable pub raw_exec : Query V → S → Err × S
  raw_exec q s = conn.exec q s

  unfoldable pub exec : Option SelectDataset → S → Err × S
  unfolding raw_exec
  exec none s = (some err_invalid_parameters, s)
  exec (some qry) s = with_sql (g.select_sql qry) (λ e. (some e, s)) (λ q. raw_exec q s)

  -- The dataset that `qry.Limit(1)` returns is dropped.
  unfoldable pub fetch_one : Option SelectDataset → Option ℕ → S → Err × S
  fetch_one qry none s = (some err_invalid_parameters, s)
  fetch_one none (some target) s = (some err_invalid_parameters, s)
  fetch_one (some qry) (some target) s =
      let dropped = g.limit 1 qry in
      with_sql (g.select_sql qry) (λ e. (some e, s)) (λ q. conn.struct_scan q target s)

  unfoldable pub fetch : Option SelectDataset → Option ℕ → S → Err × S
  fetch qry none s = (some err_invalid_parameters, s)
  fetch none (some target) s = (some err_invalid_parameters, s)
  fetch (some qry) (some target) s =
      with_sql (g.select_sql qry) (λ e. (some e, s)) (λ q. conn.select target q s)

  -- `for field, value := range fieldValues { qry = qry.Where(goqu.C(field).Eq(value)) }`
  unfoldable pub where_all : FieldValues V → SelectDataset → SelectDataset
  where_all [] qry = qry
  where_all ((field, value) ∷ fvs) qry = where_all fvs (g.where_eq field value qry)

  unfoldable pub fetch_record : SelectDataset → Option (FieldValues V) → Option ℕ → S → Err × S
  unfolding fetch_one where_all
  fetch_record qry none target s = (some err_invalid_parameters, s)
  fetch_record qry (some fvs) target s = fetch_one (some (where_all fvs qry)) target s

  unfoldable pub fetch_by_key : SelectDataset → Bytes → V → Option ℕ → S → Err × S
  unfolding fetch_one
  fetch_by_key qry key_field value none s = (some err_invalid_parameters, s)
  fetch_by_key qry key_field value (some target) s =
      fetch_one (some (g.where_eq key_field value qry)) (some target) s

  unfoldable pub fetch_where : SelectDataset → Option (FieldValues V) → Option ℕ → S → Err × S
  unfolding fetch where_all
  fetch_where qry none target s = (some err_invalid_parameters, s)
  fetch_where qry (some fvs) target s = fetch (some (where_all fvs qry)) target s

  -- `Scan(&result)` and the comparison with 0.
  abbrev pub found : Result ℤ × S → Result Bool × S
  found (err e, s) = (err e, s)
  found (ok n, s) = (ok (ltz (pos 0) n), s)

  abbrev pub run_exists : SelectDataset → S → Result Bool × S
  run_exists qry s = with_sql (g.select_sql qry) (λ e. (err e, s)) (λ q. found (conn.scan_int q s))

  -- `none` is the panic of `skip[0].(string)` on a value that is no string.
  unfoldable pub exists : SelectDataset → Bytes → V → List V → S → Option (Result Bool × S)
  exists qry field_name field_value [] s =
      some (run_exists (g.where_eq field_name field_value (g.select_count qry)) s)
  exists qry field_name field_value (skip ∷ []) s = some (err err_invalid_parameters, s)
  exists qry field_name field_value (skip ∷ value ∷ []) s = elim (g.as_string skip) [
    | none ↦ none
    | some name ↦ some (
        run_exists (g.where_neq name value (g.where_eq field_name field_value (g.select_count qry)))
          s)
  ]
  exists qry field_name field_value (skip ∷ value ∷ more ∷ rest) s =
      some (err err_invalid_parameters, s)

  unfoldable pub del : Option DeleteDataset → S → Err × S
  del none s = (some err_invalid_parameters, s)
  del (some qry) s = with_sql (g.delete_sql qry) (λ e. (some e, s)) (λ q. conn.exec q s)

  unfoldable pub delete_where_all : FieldValues V → DeleteDataset → DeleteDataset
  delete_where_all [] qry = qry
  delete_where_all ((field, value) ∷ fvs) qry =
      delete_where_all fvs (g.delete_where_eq field value qry)

  unfoldable pub delete_where : DeleteDataset → Option (FieldValues V) → S → Err × S
  unfolding del delete_where_all
  delete_where qry none s = (some err_invalid_parameters, s)
  delete_where qry (some fvs) s = del (some (delete_where_all fvs qry)) s

  unfoldable pub delete_by_key : DeleteDataset → Bytes → V → S → Err × S
  unfolding del
  delete_by_key qry key_field value s = del (some (g.delete_where_eq key_field value qry)) s

  unfoldable pub insert : InsertDataset → List V → S → Err × S
  insert qry [] s = (some err_invalid_parameters, s)
  insert qry (row ∷ rows) s =
      with_sql (g.insert_sql (g.insert_prepared (g.rows (row ∷ rows) qry))) (λ e. (some e, s))
        (λ q. conn.exec q s)

  unfoldable pub insert_returning :
      InsertDataset → Option V → Option (List V) → List ℕ → S → Err × S
  insert_returning qry none fields target s = (some err_invalid_parameters, s)
  insert_returning qry (some r) none target s = (some err_invalid_parameters, s)
  insert_returning qry (some r) (some fields) [] s = (some err_invalid_parameters, s)
  insert_returning qry (some r) (some fields) (t ∷ ts) s =
      with_sql (g.insert_sql (g.returning fields (g.insert_prepared (g.rows (r ∷ []) qry))))
        (λ e. (some e, s)) (λ q. conn.scan q (t ∷ ts) s)

  unfoldable pub update : Option UpdateDataset → S → Err × S
  update none s = (some err_invalid_parameters, s)
  update (some qry) s =
      with_sql (g.update_sql (g.update_prepared qry)) (λ e. (some e, s)) (λ q. conn.exec q s)

  unfoldable pub update_where_all : FieldValues V → UpdateDataset → UpdateDataset
  update_where_all [] qry = qry
  update_where_all ((field, value) ∷ fvs) qry =
      update_where_all fvs (g.update_where_eq field value qry)

  unfoldable pub update_record : UpdateDataset → Option V → Option (FieldValues V) → S → Err × S
  unfolding update update_where_all
  update_record qry none fvs s = (some err_invalid_parameters, s)
  update_record qry (some r) none s = update (some (g.set r qry)) s
  update_record qry (some r) (some fvs) s = update (some (update_where_all fvs (g.set r qry))) s

  unfoldable pub update_by_key : UpdateDataset → Option V → Bytes → V → S → Err × S
  unfolding update
  update_by_key qry none key_field value s = (some err_invalid_parameters, s)
  update_by_key qry (some r) key_field value s =
      update (some (g.update_where_eq key_field value (g.set r qry))) s

  unfoldable pub count : SelectDataset → S → Result ℤ × S
  count qry s = with_sql (g.select_sql qry) (λ e. (err e, s)) (λ q. conn.scan_int q s)
