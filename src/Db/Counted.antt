-- ===== src/Db/Counted.antt =====
-- Deleting and counting of db/repository.go together.
use mathlib.Core.Path.{subst}
use blueprint.Prelude.{
  ℕ, ◌+◌, ◌-◌, ◌≤◌, ℤ, pos, pos_part, Bool, not, ◌≡◌, refl, ap, ◌∙◌, none, some, List, [], ◌∷◌,
  Bytes, keep, length, arith,
}
use blueprint.Prelude.Perms.{Perm, keep-perm, length-perm}
use blueprint.Errors.{Result, ok}
use blueprint.Db.Driver.{Goqu, Conn, NoRows}
use blueprint.Db.Functions.{FieldValues}
use blueprint.Db.Instances.{repository_methods}
use blueprint.Db.Repository
use blueprint.Db.Table.{Table, deleting_where, all_match, remove, Answers}
use blueprint.Db.Database.{IsSelecting, IsWriting}
use blueprint.Db.Contract.{methods-IsTable}

module _ {A : Type 0} (p : A → Bool) where
  length-remove : (xs : List A) → length (keep (λ x. not (p x)) xs) + length (keep p xs) ≡ length xs
  unfolding keep
  length-remove [] = refl
  length-remove (x ∷ xs) = ground (arith, length-remove xs)

  keep-remove : (xs : List A) → keep p (keep (λ x. not (p x)) xs) ≡ []
  unfolding keep
  keep-remove [] = refl
  keep-remove (x ∷ xs) = ground (arith, keep-remove xs)

-- The number that a counting call returned is the number that it answers.
counted_lem :
    {S : Type 0} (r : Result ℤ × S) (a n : ℕ) (s : S)
    → r ≡ (ok (pos a), s)
    → Answers (pos n) s r
    → n ≡ a
counted_lem r a n s e h =
    let (same, _) : Answers (pos n) s (ok (pos a), s) = rw e at h in omega (arith, ap pos_part same)

-- Where goqu builds the conditions that its methods name or `ToSQL` reports an error other than the
-- one for no rows, a counting query counts or reports an error, and a statement is done or reports
-- an error and changes nothing: a `DeleteWhere` that returns nil deletes as many rows as
-- `CountWhere` of the same map returned before it: `Count` then answers that many less than it
-- returned before, and `CountWhere` answers 0, or they report an error.
pub count-delete_where :
    {V S : Type 0} (g : Goqu V) (conn : Conn V S) (table : Bytes) (t : Table V S) (errors : NoRows)
    → IsSelecting g conn table t errors
    → IsWriting g conn table t
    → (fvs : FieldValues V) (a b : ℕ) (s u : S) → Repository.count g conn table s ≡ (ok (pos a), s)
    → Repository.count_where g conn table fvs s ≡ (ok (pos b), s)
    → Repository.delete_where g conn table (some fvs) s ≡ (none, u)
    → (b ≤ a)
      × Answers (pos (a - b)) u (Repository.count g conn table u)
      × Answers (pos 0) u (Repository.count_where g conn table fvs u)
unfolding repository_methods
count-delete_where g conn table t errors r w fvs a b s u all matching deleted =
    let (h, _) = methods-IsTable g conn table t errors r w in
    let left : Perm (t.rows u) (remove t (all_match t fvs) (t.rows s)) =
      rw deleted at (h.writes (deleting_where (some fvs)) s) in
    let p = all_match t fvs in
    let sum = length-remove p (t.rows s) in
    let whole = counted_lem _ a _ s all (h.counts s) in
    let part = counted_lem _ b _ s matching (h.counts_where fvs s) in
    let rest : length (t.rows u) ≡ a - b = omega (arith, length-perm left, whole, part) in
    let none_left : length (keep p (t.rows u)) ≡ 0 =
      length-perm (keep-perm p left) ∙ ap length (keep-remove p (t.rows s)) in
    (
      omega (arith, whole, part),
      subst (λ n. Answers (pos n) u (Repository.count g conn table u)) rest (h.counts u),
      subst (λ n. Answers (pos n) u (Repository.count_where g conn table fvs u)) none_left
          (h.counts_where fvs u),
    )
