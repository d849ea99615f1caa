-- ===== src/Db/Writes.antt =====
-- What the writes of db/functions.go do to a table.
use mathlib.Core.Path.{fun_ext, subst}
use mathlib.Core.List.Perm
use blueprint.Prelude.{
  Bool, true, ◌&&◌, ◌≡◌, refl, none, some, List, [], ◌∷◌, ◌++◌, map, Bytes, arith,
}
use blueprint.Errors.{Result, ok, err}
use blueprint.Db.Driver.{Query, Goqu, Conn}
use blueprint.Db.Functions
use blueprint.Db.Functions.{FieldValues, with_sql, delete_where_all, update_where_all}
use blueprint.Db.Table.{Table, Became, all_match, remove, assign_where}
use blueprint.Db.Database.{IsWriting}

and_middle : (a b c : Bool) → (a && (b && c)) ≡ ((b && a) && c)
and_middle a b c = ground arith

and_true : (a : Bool) → (a && true) ≡ a
and_true a = ground arith

module _ {V S : Type 0} (g : Goqu V) (conn : Conn V S) (table : Bytes) (t : Table V S)
    (w : IsWriting g conn table t) where
  -- A statement whose `ToSQL` fails changes nothing.
  with_sql-Became :
      (r : Result (Query V)) (after : List t.Row) (s : S)
      → ((k : Query V) → r ≡ ok k → Became t after s (conn.exec k s))
      → Became t after s (with_sql g conn r (λ e. (some e, s)) (λ k. conn.exec k s))
  with_sql-Became (err e) after s h = Perm.refl _
  with_sql-Became (ok k) after s h = h k refl

  pub insert-Became :
      (v : V) (vs : List V) (s : S)
      → Became t
          (t.rows s ++ map t.row_of (v ∷ vs))
          s
          (Functions.insert g conn (g.insert table) (v ∷ vs) s)
  unfolding Functions.insert
  insert-Became v vs s =
      let q = g.insert_prepared (g.rows (v ∷ vs) (g.insert table)) in
      with_sql-Became (g.insert_sql q) (t.rows s ++ map t.row_of (v ∷ vs)) s
        (λ k e. w.insert_sound q (v ∷ vs) k s (w.insert_Inserts (v ∷ vs)) e)

  del-Became :
      (q : g.DeleteDataset) (p : t.Row → Bool) (s : S)
      → w.Deletes q p
      → Became t (remove t p (t.rows s)) s (Functions.del g conn (some q) s)
  unfolding Functions.del
  del-Became q p s d =
      with_sql-Became (g.delete_sql q) (remove t p (t.rows s)) s (λ k e. w.delete_sound q p k s d e)

  delete_where_all-Deletes :
      (fvs : FieldValues V) (q : g.DeleteDataset) (p : t.Row → Bool)
      → w.Deletes q p
      → w.Deletes (delete_where_all g conn fvs q) (λ r. all_match t fvs r && p r)
  unfolding delete_where_all
  delete_where_all-Deletes [] q p d = d
  delete_where_all-Deletes ((f, v) ∷ fvs) q p d =
      subst (w.Deletes _) (fun_ext (λ r. and_middle (all_match t fvs r) (t.eq f v r) (p r))) (
        delete_where_all-Deletes fvs (g.delete_where_eq f v q) (λ r. t.eq f v r && p r)
          (w.where_Deletes f v q p d))

  pub delete_where-Became :
      (fvs : FieldValues V) (s : S)
      → Became t
          (remove t (all_match t fvs) (t.rows s))
          s
          (Functions.delete_where g conn (g.delete table) (some fvs) s)
  unfolding Functions.delete_where
  delete_where-Became fvs s = del-Became _ (all_match t fvs) s (
      subst (w.Deletes _) (fun_ext (λ r. and_true (all_match t fvs r)))
        (delete_where_all-Deletes fvs (g.delete table) (λ r. true) w.delete_Deletes))

  pub delete_by_key-Became :
      (key : Bytes) (v : V) (s : S)
      → Became t
          (remove t (t.eq key v) (t.rows s))
          s
          (Functions.delete_by_key g conn (g.delete table) key v s)
  unfolding Functions.delete_by_key
  delete_by_key-Became key v s = del-Became _ (t.eq key v) s (
      subst (w.Deletes _) (fun_ext (λ r. and_true (t.eq key v r)))
        (w.where_Deletes key v (g.delete table) (λ r. true) w.delete_Deletes))

  update-Became :
      (q : g.UpdateDataset) (v : V) (p : t.Row → Bool) (s : S)
      → w.Updates q v p
      → Became t (assign_where t v p (t.rows s)) s (Functions.update g conn (some q) s)
  unfolding Functions.update
  update-Became q v p s u =
      with_sql-Became (g.update_sql (g.update_prepared q)) (assign_where t v p (t.rows s)) s
        (λ k e. w.update_sound (g.update_prepared q) v p k s (w.prepared_Updates q v p u) e)

  update_where_all-Updates :
      (fvs : FieldValues V) (q : g.UpdateDataset) (v : V) (p : t.Row → Bool)
      → w.Updates q v p
      → w.Updates (update_where_all g conn fvs q) v (λ r. all_match t fvs r && p r)
  unfolding update_where_all
  update_where_all-Updates [] q v p u = u
  update_where_all-Updates ((f, x) ∷ fvs) q v p u =
      subst (w.Updates _ v) (fun_ext (λ r. and_middle (all_match t fvs r) (t.eq f x r) (p r))) (
        update_where_all-Updates fvs (g.update_where_eq f x q) v (λ r. t.eq f x r && p r)
          (w.where_Updates f x v q p u))

  pub update_all-Became :
      (v : V) (s : S)
      → Became t
          (assign_where t v (λ r. true) (t.rows s))
          s
          (Functions.update_record g conn (g.update table) (some v) none s)
  unfolding Functions.update_record
  update_all-Became v s = update-Became _ v (λ r. true) s (w.set_Updates v)

  pub update_record-Became :
      (v : V) (fvs : FieldValues V) (s : S)
      → Became t
          (assign_where t v (all_match t fvs) (t.rows s))
          s
          (Functions.update_record g conn (g.update table) (some v) (some fvs) s)
  unfolding Functions.update_record
  update_record-Became v fvs s = update-Became _ v (all_match t fvs) s (
      subst (w.Updates _ v) (fun_ext (λ r. and_true (all_match t fvs r)))
        (update_where_all-Updates fvs (g.set v (g.update table)) v (λ r. true) (w.set_Updates v)))

  pub update_by_key-Became :
      (v : V) (key : Bytes) (x : V) (s : S)
      → Became t
          (assign_where t v (t.eq key x) (t.rows s))
          s
          (Functions.update_by_key g conn (g.update table) (some v) key x s)
  unfolding Functions.update_by_key
  update_by_key-Became v key x s = update-Became _ v (t.eq key x) s (
      subst (w.Updates _ v) (fun_ext (λ r. and_true (t.eq key x r)))
        (w.where_Updates key x v (g.set v (g.update table)) (λ r. true) (w.set_Updates v)))
