-- ===== src/Db/Database.antt =====
-- What db/functions.go and db/repository.go rely on in goqu and in the database behind sqlx: a
-- dataset says what its methods say, and a statement does that or reports an error and nothing is
-- done. `ToSQL` of any dataset may fail.
use blueprint.Prelude.{ℕ, Bool, true, false, ◌&&◌, ◌||◌, ◌≡◌, none, some, List, ◌++◌, map, Bytes}
use blueprint.Errors.{Error, Err, ok, err}
use blueprint.Db.Driver.{Query, Goqu, Conn, NoRows}
use blueprint.Db.Table.{Table, Became, Fetched, FetchedOne, remove, assign_where}
use blueprint.Db.Meaning.{IsSql}

-- Either of the two errors for no rows.
abbrev pub no_rows : NoRows → Err → Bool
no_rows errors none = false
no_rows errors (some e) = errors.is e errors.sql_no_rows || errors.is e errors.pgx_no_rows

module _ {V S : Type 0} (g : Goqu V) (conn : Conn V S) (table : Bytes) (t : Table V S) where
  -- The datasets that select rows of the table.
  pub record IsSelecting (errors : NoRows) : Type 1 where
    pub sql : IsSql g conn table t
    pub Selects : g.SelectDataset → Type 0
    pub from_Selects : Selects (g.from table)
    pub where_Selects :
        (f : Bytes) (v : V) (q : g.SelectDataset) → Selects q → Selects (g.where_eq f v q)
    pub sql_error :
        (q : g.SelectDataset) (e : Error) → g.select_sql q ≡ err e → no_rows errors (some e) ≡ false
    pub select_sound :
        (q : g.SelectDataset) (target : ℕ) (k : Query V) (s : S)
        → Selects q
        → g.select_sql q ≡ ok k
        → Fetched t (sql.holds q) target s (conn.select target k s)
    pub struct_scan_sound :
        (q : g.SelectDataset) (target : ℕ) (k : Query V) (s : S)
        → Selects q
        → g.select_sql q ≡ ok k
        → FetchedOne t (no_rows errors) (sql.holds q) target s (conn.struct_scan k target s)

  -- The datasets that insert values, that set a record where a condition holds, and that delete
  -- where one holds.
  pub record IsWriting : Type 1 where
    pub Inserts : g.InsertDataset → List V → Type 0
    pub insert_Inserts : (vs : List V) → Inserts (g.insert_prepared (g.rows vs (g.insert table))) vs
    pub insert_sound :
        (q : g.InsertDataset) (vs : List V) (k : Query V) (s : S)
        → Inserts q vs
        → g.insert_sql q ≡ ok k
        → Became t (t.rows s ++ map t.row_of vs) s (conn.exec k s)
    pub Updates : g.UpdateDataset → V → (t.Row → Bool) → Type 0
    pub set_Updates : (v : V) → Updates (g.set v (g.update table)) v (λ r. true)
    pub where_Updates :
        (f : Bytes) (w v : V) (q : g.UpdateDataset) (p : t.Row → Bool)
        → Updates q v p
        → Updates (g.update_where_eq f w q) v (λ r. t.eq f w r && p r)
    pub prepared_Updates :
        (q : g.UpdateDataset) (v : V) (p : t.Row → Bool)
        → Updates q v p
        → Updates (g.update_prepared q) v p
    pub update_sound :
        (q : g.UpdateDataset) (v : V) (p : t.Row → Bool) (k : Query V) (s : S)
        → Updates q v p
        → g.update_sql q ≡ ok k
        → Became t (assign_where t v p (t.rows s)) s (conn.exec k s)
    pub Deletes : g.DeleteDataset → (t.Row → Bool) → Type 0
    pub delete_Deletes : Deletes (g.delete table) (λ r. true)
    pub where_Deletes :
        (f : Bytes) (v : V) (q : g.DeleteDataset) (p : t.Row → Bool)
        → Deletes q p
        → Deletes (g.delete_where_eq f v q) (λ r. t.eq f v r && p r)
    pub delete_sound :
        (q : g.DeleteDataset) (p : t.Row → Bool) (k : Query V) (s : S)
        → Deletes q p
        → g.delete_sql q ≡ ok k
        → Became t (remove t p (t.rows s)) s (conn.exec k s)
