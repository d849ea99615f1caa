-- ===== src/Tests/Cells.antt =====
-- A small goqu and a database with a table of one column, that do what db/functions.go relies on.
use mathlib.Core.List.Perm
use blueprint.Prelude.{
  ℕ, pos, Bool, true, not, ◌&&◌, ◌==◌, ◌≡◌, refl, ap, sym, Option, none, some, List, [], ◌∷◌, ◌++◌,
  map, Bytes, codes, bytes_eq, keep, length, if◌then◌else◌, arith,
}
use blueprint.Errors.{Error, Err, foreign, Result, ok, err}
use blueprint.Db.Driver.{Query, Goqu, Conn, NoRows}
use blueprint.Db.Table.{Table, FetchedOne, Became, remove, assign_where}
use blueprint.Db.Meaning.{IsSql}
use blueprint.Db.Isolated.{IsIsolated}
use blueprint.Db.Database.{IsSelecting, IsWriting, no_rows}

-- A value is a number or the name of a column; the values, the conditions and the assignment of a
-- statement are the arguments of its query.
pub data Cell : Type 0 where
  number : ℕ → Cell
  column : Bytes → Cell
  equal differ : Bytes → ℕ → Cell
  assigned : ℕ → Cell

abbrev number_of : Cell → ℕ
number_of (number n) = n
number_of _ = 0

abbrev string_of : Cell → Option Bytes
string_of (column s) = some s
string_of _ = none

abbrev with_cell : Cell → Query Cell → Query Cell
with_cell c q = record q { args = c ∷ q.args }

abbrev pub goqu : Goqu Cell
goqu = record {
  SelectDataset = Query Cell;
  InsertDataset = Query Cell;
  UpdateDataset = Query Cell;
  DeleteDataset = Query Cell;
  from = λ t. record { sql = t; args = [] };
  select_count = λ q. record q { sql = codes "COUNT" };
  where_eq = λ f v q. with_cell (equal f (number_of v)) q;
  where_neq = λ f v q. with_cell (differ f (number_of v)) q;
  limit = λ n q. q;
  select_sql = λ q. ok q;
  insert = λ t. record { sql = codes "INSERT"; args = [] };
  rows = λ vs q. record q { args = vs };
  returning = λ vs q. q;
  insert_prepared = λ q. q;
  insert_sql = λ q. ok q;
  update = λ t. record { sql = codes "UPDATE"; args = [] };
  set = λ v q. with_cell (assigned (number_of v)) q;
  update_where_eq = λ f v q. with_cell (equal f (number_of v)) q;
  update_prepared = λ q. q;
  update_sql = λ q. ok q;
  delete = λ t. record { sql = codes "DELETE"; args = [] };
  delete_where_eq = λ f v q. with_cell (equal f (number_of v)) q;
  delete_sql = λ q. ok q;
  as_string = string_of;
}

-- The rows are the numbers in the column `id`.
abbrev is_id : Bytes → ℕ → ℕ → Bool
is_id f n r = bytes_eq f (codes "id") && r == n

abbrev satisfies : List Cell → ℕ → Bool
satisfies [] r = true
satisfies (number n ∷ cs) r = satisfies cs r
satisfies (column s ∷ cs) r = satisfies cs r
satisfies (equal f n ∷ cs) r = is_id f n r && satisfies cs r
satisfies (differ f n ∷ cs) r = (bytes_eq f (codes "id") && not (r == n)) && satisfies cs r
satisfies (assigned n ∷ cs) r = satisfies cs r

abbrev value_set : List Cell → ℕ
value_set [] = 0
value_set (assigned n ∷ cs) = n
value_set (_ ∷ cs) = value_set cs

-- The rows after a statement, by the first letter of its text.
abbrev execute : Bytes → List Cell → List ℕ → List ℕ
execute [] cs rs = rs
execute (c ∷ _) cs rs =
    if c == b'I'
    then rs ++ map number_of cs
    else if c == b'U'
    then map (λ r. if satisfies cs r then value_set cs else r) rs
    else keep (λ r. not (satisfies cs r)) rs

-- The rows that a connection sees, what was fetched last, and the committed rows.
abbrev pub Store : Type 0
Store = List ℕ × List ℕ × List ℕ

abbrev one_of : Store → List ℕ → Option Error × Store
one_of s [] = (some (foreign 1), s)
one_of (rs, _, all) (r ∷ _) = (none, (rs, r ∷ [], all))

abbrev pub connection : Conn Cell Store
connection = record {
  exec = λ q s. (none, (execute q.sql q.args s.0, s.1, s.2));
  struct_scan = λ q t s. one_of s (keep (satisfies q.args) s.0);
  scan = λ q ts s. (none, s);
  scan_int = λ q s. (ok (pos (length (keep (satisfies q.args) s.0))), s);
  select = λ t q s. (none, (s.0, keep (satisfies q.args) s.0, s.2));
}

abbrev pub users : Bytes
users = codes "users"

abbrev pub users_table : Table Cell Store
users_table = record {
  Row = ℕ;
  rows = λ s. s.0;
  eq = λ f v r. is_id f (number_of v) r;
  neq = λ f v r. bytes_eq f (codes "id") && not (r == number_of v);
  row_of = number_of;
  assign = λ v r. number_of v;
  fetched = λ target s. s.1;
}

-- The committed rows of the table, and transactions that begin with them.
abbrev pub all_users : Table Cell Store
all_users = record users_table { rows = λ s. s.2 }

abbrev pub begin_txx : Option ℕ → Store → Result ℕ × Store
begin_txx c s = (ok 1, (s.2, [], s.2))

abbrev pub conn_commit : ℕ → Store → Err × Store
conn_commit h s = (none, (s.0, s.1, s.0))

abbrev pub conn_rollback : ℕ → Store → Err × Store
conn_rollback h s = (none, (s.2, s.1, s.2))

abbrev pub users-IsIsolated :
    IsIsolated all_users (λ h. connection) begin_txx conn_commit conn_rollback
users-IsIsolated = record {
  pending = λ h s. s.0;
  begin_sound = λ c s. (Perm.refl _, Perm.refl _);
  exec_sound = λ h k s. Perm.refl _;
  commit_sound = λ h s. Perm.refl _;
  rollback_sound = λ h s. Perm.refl _;
}

-- The query of a successful `ToSQL`.
abbrev query_or : Query Cell → Result (Query Cell) → Query Cell
query_or q (err e) = q
query_or q (ok k) = k

abbrev users_sql : IsSql goqu connection users users_table
users_sql = record {
  holds = λ q r. satisfies q.args r;
  counts = λ q. bytes_eq q.sql (codes "COUNT");
  from_holds = λ r. refl;
  select_count_holds = λ q r. refl;
  where_eq_holds = λ f v q r. refl;
  where_neq_holds = λ f v q r. refl;
  from_counts = unfold bytes_eq in refl;
  where_eq_counts = λ f v q. refl;
  where_neq_counts = λ f v q. refl;
  count_sound = λ q k s h e. rw (sym (ap (query_or q) e)) (refl, refl);
}

abbrev error_code : Error → ℕ
error_code (foreign n) = n
error_code _ = 0

abbrev pub errors : NoRows
errors = record {
  is = λ e f. error_code e == error_code f;
  sql_no_rows = foreign 1;
  pgx_no_rows = foreign 2;
}

one_of-FetchedOne :
    (q : Query Cell) (target : ℕ) (s : Store)
    → FetchedOne users_table
        (no_rows errors)
        (satisfies q.args)
        target
        s
        (connection.struct_scan q target s)
one_of-FetchedOne q target s = by_rows (keep (satisfies q.args) s.0) refl
  where
    by_rows :
        (rs : List ℕ)
        → keep (satisfies q.args) s.0 ≡ rs
        → FetchedOne users_table (no_rows errors) (satisfies q.args) target s (one_of s rs)
    by_rows [] e = (Perm.refl _, e)
    by_rows (r ∷ rest) e = (Perm.refl _, (r, rest, refl, rw e (Perm.refl _)))

pub users-IsSelecting : IsSelecting goqu connection users users_table errors
users-IsSelecting = record {
  sql = users_sql;
  Selects = λ q. Unit;
  from_Selects = tt;
  where_Selects = λ f v q h. tt;
  sql_error = λ q e failed. ground (arith, failed);
  select_sound = λ q target k s h e. rw (sym (ap (query_or q) e)) (Perm.refl _, Perm.refl _);
  struct_scan_sound =
      λ q target k s h e. rw (sym (ap (query_or q) e)) (one_of-FetchedOne q target s);
}

delete_done :
    (q : Query Cell) (p : ℕ → Bool) (k : Query Cell) (s : Store)
    → (q.sql ≡ codes "DELETE") × (satisfies q.args ≡ p)
    → ok q ≡ ok k
    → Became users_table (remove users_table p s.0) s (connection.exec k s)
delete_done q p k s (kind, holds) e = rw (sym (ap (query_or q) e), kind, sym holds) (Perm.refl _)

update_done :
    (q : Query Cell) (v : Cell) (p : ℕ → Bool) (k : Query Cell) (s : Store)
    → (q.sql ≡ codes "UPDATE") × (value_set q.args ≡ number_of v) × (satisfies q.args ≡ p)
    → ok q ≡ ok k
    → Became users_table (assign_where users_table v p s.0) s (connection.exec k s)
update_done q v p k s (kind, value, holds) e =
    rw (sym (ap (query_or q) e), kind, value, sym holds) (Perm.refl _)

pub users-IsWriting : IsWriting goqu connection users users_table
users-IsWriting = record {
  Inserts = λ q vs. (q ≡ record { sql = codes "INSERT"; args = vs });
  insert_Inserts = λ vs. refl;
  insert_sound = λ q vs k s h e. rw (sym (ap (query_or q) e), h) (Perm.refl _);
  Updates =
      λ q v p. (q.sql ≡ codes "UPDATE") × (value_set q.args ≡ number_of v) × (satisfies q.args ≡ p);
  set_Updates = λ v. (refl, refl, refl);
  where_Updates = λ f w v q p h. (h.0, h.1, ap (λ p r. is_id f (number_of w) r && p r) h.2);
  prepared_Updates = λ q v p h. h;
  update_sound = update_done;
  Deletes = λ q p. (q.sql ≡ codes "DELETE") × (satisfies q.args ≡ p);
  delete_Deletes = (refl, refl);
  where_Deletes = λ f v q p h. (h.0, ap (λ p r. is_id f (number_of v) r && p r) h.1);
  delete_sound = delete_done;
}
