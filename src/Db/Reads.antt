-- ===== src/Db/Reads.antt =====
-- What the fetches of db/functions.go leave in their targets.
use mathlib.Core.Path.{fun_ext, subst}
use mathlib.Core.List.Perm
use blueprint.Prelude.{ℕ, Bool, ◌≡◌, ◌∙◌, refl, some, [], ◌∷◌, Bytes, arith}
use blueprint.Errors.{Err, Result, ok, err}
use blueprint.Db.Driver.{Query, Goqu, Conn, NoRows}
use blueprint.Db.Functions
use blueprint.Db.Functions.{FieldValues, with_sql, where_all}
use blueprint.Db.Table.{Table, Fetched, FetchedOne, all_match}
use blueprint.Db.Meaning.{where_all_holds}
use blueprint.Db.Database.{IsSelecting, no_rows}

module _ {V S : Type 0} (g : Goqu V) (conn : Conn V S) (table : Bytes) (t : Table V S)
    (errors : NoRows) (m : IsSelecting g conn table t errors) where
  open m.sql use {holds, from_holds, where_eq_holds}

  where_all-Selects :
      (fvs : FieldValues V) (q : g.SelectDataset) → m.Selects q → m.Selects (where_all g conn fvs q)
  unfolding where_all
  where_all-Selects [] q h = h
  where_all-Selects ((f, v) ∷ fvs) q h =
      where_all-Selects fvs (g.where_eq f v q) (m.where_Selects f v q h)

  -- The conditions of the two datasets.
  matching : (fvs : FieldValues V) → holds (where_all g conn fvs (g.from table)) ≡ all_match t fvs
  matching fvs = fun_ext (λ r.
      where_all_holds g conn table t m.sql fvs (g.from table) r ∙ ground (arith, from_holds r))

  matching_key : (key : Bytes) (v : V) → holds (g.where_eq key v (g.from table)) ≡ t.eq key v
  matching_key key v =
      fun_ext (λ r. where_eq_holds key v (g.from table) r ∙ ground (arith, from_holds r))

  -- Where `ToSQL` fails nothing is read, and its error is not the one for no rows.
  with_sql-Fetched :
      (r : Result (Query V)) (p : t.Row → Bool) (target : ℕ) (s : S) (run : Query V → Err × S)
      → ((k : Query V) → r ≡ ok k → Fetched t p target s (run k))
      → Fetched t p target s (with_sql g conn r (λ e. (some e, s)) run)
  with_sql-Fetched (err e) p target s run h = Perm.refl _
  with_sql-Fetched (ok k) p target s run h = h k refl

  with_sql-FetchedOne :
      (q : g.SelectDataset) (r : Result (Query V)) (p : t.Row → Bool) (target : ℕ) (s : S)
      (run : Query V → Err × S)
      → g.select_sql q ≡ r
      → ((k : Query V) → r ≡ ok k → FetchedOne t (no_rows errors) p target s (run k))
      → FetchedOne t (no_rows errors) p target s (with_sql g conn r (λ e. (some e, s)) run)
  with_sql-FetchedOne q (err e) p target s run made h = (Perm.refl _, rw (m.sql_error q e made) tt)
  with_sql-FetchedOne q (ok k) p target s run made h = h k refl

  fetch_one-FetchedOne :
      (q : g.SelectDataset) (p : t.Row → Bool) (target : ℕ) (s : S)
      → m.Selects q
      → holds q ≡ p
      → FetchedOne t
          (no_rows errors)
          p
          target
          s
          (Functions.fetch_one g conn (some q) (some target) s)
  unfolding Functions.fetch_one
  fetch_one-FetchedOne q p target s h e =
      with_sql-FetchedOne q (g.select_sql q) p target s (λ k. conn.struct_scan k target s) refl
        (λ k made.
          subst (λ p. FetchedOne t (no_rows errors) p target s (conn.struct_scan k target s)) e
            (m.struct_scan_sound q target k s h made))

  pub fetch_where-Fetched :
      (fvs : FieldValues V) (target : ℕ) (s : S)
      → Fetched t
          (all_match t fvs)
          target
          s
          (Functions.fetch_where g conn (g.from table) (some fvs) (some target) s)
  unfolding Functions.fetch_where Functions.fetch
  fetch_where-Fetched fvs target s =
      let q = where_all g conn fvs (g.from table) in
      with_sql-Fetched (g.select_sql q) (all_match t fvs) target s (λ k. conn.select target k s)
        (λ k made.
          subst (λ p. Fetched t p target s (conn.select target k s)) (matching fvs)
            (m.select_sound q target k s (where_all-Selects fvs (g.from table) m.from_Selects)
              made))

  pub fetch_record-FetchedOne :
      (fvs : FieldValues V) (target : ℕ) (s : S)
      → FetchedOne t
          (no_rows errors)
          (all_match t fvs)
          target
          s
          (Functions.fetch_record g conn (g.from table) (some fvs) (some target) s)
  unfolding Functions.fetch_record
  fetch_record-FetchedOne fvs target s =
      fetch_one-FetchedOne _ (all_match t fvs) target s
        (where_all-Selects fvs (g.from table) m.from_Selects) (matching fvs)

  pub fetch_by_key-FetchedOne :
      (key : Bytes) (v : V) (target : ℕ) (s : S)
      → FetchedOne t
          (no_rows errors)
          (t.eq key v)
          target
          s
          (Functions.fetch_by_key g conn (g.from table) key v (some target) s)
  unfolding Functions.fetch_by_key
  fetch_by_key-FetchedOne key v target s =
      fetch_one-FetchedOne _ (t.eq key v) target s
        (m.where_Selects key v (g.from table) m.from_Selects) (matching_key key v)
