-- ===== src/Db/Meaning.antt =====
-- What `Exists`, `Count` and `CountWhere` of db/functions.go and db/repository.go answer, where the
-- database runs a counting query as SQL says.
use mathlib.Core.Path.{fun_ext, subst}
use blueprint.Prelude.{
  ℤ, pos, ltz, ltb, Bool, true, ◌&&◌, ◌≡◌, refl, ap, ◌∙◌, Option, none, some, List, [], ◌∷◌, Bytes,
  keep, length, arith,
}
use blueprint.Errors.{Result, ok, err}
use blueprint.Db.Driver.{Query, Goqu, Conn}
use blueprint.Db.Functions.{FieldValues, with_sql, where_all, exists, run_exists, found, count}
use blueprint.Db.Repository
use blueprint.Db.Table.{Table, any, all_match, Answers, Looked, LookedOther}

-- The condition that a dataset puts on the rows of the table, and the result of a query that counts
-- in this table.
pub record IsSql {V S : Type 0} (g : Goqu V) (conn : Conn V S) (table : Bytes) (t : Table V S)
    : Type 1 where
  pub holds : g.SelectDataset → t.Row → Bool
  pub counts : g.SelectDataset → Bool
  pub from_holds : (r : t.Row) → holds (g.from table) r ≡ true
  pub select_count_holds :
      (q : g.SelectDataset) (r : t.Row) → holds (g.select_count q) r ≡ holds q r
  pub where_eq_holds :
      (f : Bytes) (v : V) (q : g.SelectDataset) (r : t.Row)
      → holds (g.where_eq f v q) r ≡ (t.eq f v r && holds q r)
  pub where_neq_holds :
      (f : Bytes) (v : V) (q : g.SelectDataset) (r : t.Row)
      → holds (g.where_neq f v q) r ≡ (t.neq f v r && holds q r)
  pub from_counts : counts (g.select_count (g.from table)) ≡ true
  pub where_eq_counts :
      (f : Bytes) (v : V) (q : g.SelectDataset) → counts (g.where_eq f v q) ≡ counts q
  pub where_neq_counts :
      (f : Bytes) (v : V) (q : g.SelectDataset) → counts (g.where_neq f v q) ≡ counts q
  pub count_sound :
      (q : g.SelectDataset) (k : Query V) (s : S)
      → counts q ≡ true
      → g.select_sql q ≡ ok k
      → Answers (pos (length (keep (holds q) (t.rows s)))) s (conn.scan_int k s)

pub any-keep : {A : Type 0} (p : A → Bool) (xs : List A) → ltb 0 (length (keep p xs)) ≡ any p xs
unfolding keep
any-keep p [] = refl
any-keep p (x ∷ xs) = ground (arith, any-keep p xs)

keep-all : {A : Type 0} (xs : List A) → keep (λ _. true) xs ≡ xs
unfolding keep
keep-all [] = refl
keep-all (x ∷ xs) = ap (λ ys. x ∷ ys) (keep-all xs)

module _ {V S : Type 0} (g : Goqu V) (conn : Conn V S) (table : Bytes) (t : Table V S)
    (m : IsSql g conn table t) where
  -- A query whose `ToSQL` fails answers that error.
  with_sql-Answers :
      {A : Type 0} (a : A) (r : Result (Query V)) (s : S) (run : Query V → Result A × S)
      → ((k : Query V) → r ≡ ok k → Answers a s (run k))
      → Answers a s (with_sql g conn r (λ e. (err e, s)) run)
  with_sql-Answers a (err e) s run h = (tt, refl)
  with_sql-Answers a (ok k) s run h = h k refl

  found-Answers :
      (p : t.Row → Bool) (s : S) (r : Result ℤ × S)
      → Answers (pos (length (keep p (t.rows s)))) s r
      → Answers (any p (t.rows s)) s (found g conn r)
  found-Answers p s (err e, u) h = h
  found-Answers p s (ok n, u) (e, same) = (ap (λ k. ltz (pos 0) k) e ∙ any-keep p (t.rows s), same)

  run_exists-Answers :
      (q : g.SelectDataset) (p : t.Row → Bool) (s : S)
      → m.counts q ≡ true
      → m.holds q ≡ p
      → Answers (any p (t.rows s)) s (run_exists g conn q s)
  run_exists-Answers q p s h e =
      with_sql-Answers (any p (t.rows s)) (g.select_sql q) s (λ k. found g conn (conn.scan_int k s))
        (λ k made.
          subst (λ p. Answers (any p (t.rows s)) s (found g conn (conn.scan_int k s))) e
            (found-Answers (m.holds q) s (conn.scan_int k s) (m.count_sound q k s h made)))

  abbrev base : g.SelectDataset
  base = g.select_count (g.from table)

  holds-base : (r : t.Row) → m.holds base r ≡ true
  holds-base r = m.select_count_holds (g.from table) r ∙ m.from_holds r

  -- The dataset of `Exists`, without and with a `skip`.
  abbrev with_eq : Bytes → V → g.SelectDataset
  with_eq field value = g.where_eq field value base

  holds-with_eq :
      (field : Bytes) (value : V) (r : t.Row) → m.holds (with_eq field value) r ≡ t.eq field value r
  holds-with_eq field value r = m.where_eq_holds field value base r ∙ ground (arith, holds-base r)

  counts-with_eq : (field : Bytes) (value : V) → m.counts (with_eq field value) ≡ true
  counts-with_eq field value = m.where_eq_counts field value base ∙ m.from_counts

  -- `Exists` without `skip`.
  pub exists-Looked :
      (field : Bytes) (value : V) (s : S)
      → Looked
          (any (t.eq field value) (t.rows s))
          s
          (Repository.exists g conn table field value [] s)
  unfolding Repository.exists exists
  exists-Looked field value s =
      run_exists-Answers (with_eq field value) (t.eq field value) s (counts-with_eq field value)
        (fun_ext (holds-with_eq field value))

  -- `Exists` with a `skip` of a column and a value; a column that is no string is a panic.
  pub exists-LookedOther :
      (field : Bytes) (value skip skip_value : V) (s : S)
      → LookedOther t field value
          (g.as_string skip)
          skip_value
          s
          (Repository.exists g conn table field value (skip ∷ skip_value ∷ []) s)
  unfolding Repository.exists exists
  exists-LookedOther field value skip skip_value s = by_column (g.as_string skip)
    where
      with_neq : Bytes → g.SelectDataset
      with_neq column = g.where_neq column skip_value (with_eq field value)

      holds-with_neq :
          (column : Bytes) (r : t.Row)
          → m.holds (with_neq column) r ≡ (t.neq column skip_value r && t.eq field value r)
      holds-with_neq column r =
          m.where_neq_holds column skip_value (with_eq field value) r
          ∙ ap (λ b. t.neq column skip_value r && b) (holds-with_eq field value r)

      by_column :
          (o : Option Bytes)
          → LookedOther t field value o skip_value s
              (elim o [ none ↦ none | some column ↦ some (run_exists g conn (with_neq column) s) ])
      by_column none = refl
      by_column (some column) =
          run_exists-Answers (with_neq column) _ s
            (m.where_neq_counts column skip_value (with_eq field value)
              ∙ counts-with_eq field value)
            (fun_ext (holds-with_neq column))

  pub where_all_holds :
      (fvs : FieldValues V) (q : g.SelectDataset) (r : t.Row)
      → m.holds (where_all g conn fvs q) r ≡ (all_match t fvs r && m.holds q r)
  unfolding where_all
  where_all_holds [] q r = refl
  where_all_holds ((f, v) ∷ fvs) q r =
      where_all_holds fvs (g.where_eq f v q) r ∙ ground (arith, m.where_eq_holds f v q r)

  where_all_counts :
      (fvs : FieldValues V) (q : g.SelectDataset) → m.counts (where_all g conn fvs q) ≡ m.counts q
  unfolding where_all
  where_all_counts [] q = refl
  where_all_counts ((f, v) ∷ fvs) q =
      where_all_counts fvs (g.where_eq f v q) ∙ m.where_eq_counts f v q

  count-Answers :
      (q : g.SelectDataset) (p : t.Row → Bool) (s : S)
      → m.counts q ≡ true
      → m.holds q ≡ p
      → Answers (pos (length (keep p (t.rows s)))) s (count g conn q s)
  unfolding count
  count-Answers q p s h e =
      with_sql-Answers (pos (length (keep p (t.rows s)))) (g.select_sql q) s
        (λ k. conn.scan_int k s)
        (λ k made.
          subst (λ p. Answers (pos (length (keep p (t.rows s)))) s (conn.scan_int k s)) e
            (m.count_sound q k s h made))

  -- `CountWhere` counts the rows that match every entry of the map, in whatever order the map gives
  -- its entries, and `Count` counts all rows.
  pub count_where-Answers :
      (fvs : FieldValues V) (s : S)
      → Answers
          (pos (length (keep (all_match t fvs) (t.rows s))))
          s
          (Repository.count_where g conn table fvs s)
  unfolding Repository.count_where
  count_where-Answers fvs s =
      count-Answers (where_all g conn fvs base) (all_match t fvs) s
        (where_all_counts fvs base ∙ m.from_counts)
        (fun_ext (λ r. where_all_holds fvs base r ∙ ground (arith, holds-base r)))

  pub count_all-Answers :
      (s : S) → Answers (pos (length (t.rows s))) s (Repository.count g conn table s)
  unfolding Repository.count
  count_all-Answers s =
      subst (λ xs. Answers (pos (length xs)) s (count g conn base s)) (keep-all (t.rows s))
        (count-Answers base (λ r. true) s m.from_counts (fun_ext holds-base))
