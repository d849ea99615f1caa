-- ===== src/Db/Calls.antt =====
-- Any sequence of calls on a repository or a transaction of db/repository.go, as its caller sees
-- it.
use mathlib.Core.Path.{subst}
use mathlib.Core.List.Perm
use blueprint.Prelude.{
  ℤ, pos, Bool, ◌≡◌, ap, ◌∙◌, sym, ltb, Option, none, some, List, [], ◌∷◌, Bytes, keep, length,
}
use blueprint.Prelude.Perms.{Perm, keep-perm, map-perm, length-perm}
use blueprint.Errors.{Err, Result}
use blueprint.Db.Driver.{Goqu}
use blueprint.Db.Functions.{FieldValues}
use blueprint.Db.Interface.{Methods}
use blueprint.Db.Table.{
  Table, Write, inserting, deleting_where, deleting_by_key, updating_record, updating_by_key, call,
  changed, Became, IsTable, any, all_match, IsAnswer, IsLook, Answers, Looked,
}
use blueprint.Db.Meaning.{any-keep}

pub data Call (V : Type 0) : Type 0 where
  writing : Write V → Call V
  counting : FieldValues V → Call V
  looking_for : Bytes → V → Call V

pub data Answer : Type 0 where
  wrote : Err → Answer
  counted : Result ℤ → Answer
  looked : Option (Result Bool) → Answer

abbrev pub value_of : {A S : Type 0} → S → Option (A × S) → Option A × S
value_of s none = (none, s)
value_of s (some (a, u)) = (some a, u)

module _ {V S : Type 0} {g : Goqu V} where
  abbrev pub answer : Methods g S → Call V → S → Answer × S
  answer m (writing w) s = let (e, u) = call m w s in (wrote e, u)
  answer m (counting fvs) s = let (r, u) = m.counter.count_where fvs s in (counted r, u)
  answer m (looking_for key value) s =
      let (r, u) = value_of s (m.reader.exists key value [] s) in (looked r, u)

  -- The answers to the calls, and the state after them.
  abbrev pub run : Methods g S → List (Call V) → S → List Answer × S
  run m [] s = ([], s)
  run m (c ∷ cs) s = let (a, u) = answer m c s in let (xs, v) = run m cs u in (a ∷ xs, v)

module _ {V S : Type 0} (t : Table V S) where
  -- The same calls on the rows alone: a write that returned nil is done, one that returned an error
  -- is not, and every other answer is an error or what the rows say then. The rows at the end are
  -- `after`.
  abbrev pub Replays : List (Call V) → List Answer → List t.Row → List t.Row → Type 0
  Replays [] [] rs after = Perm after rs
  Replays (writing w ∷ cs) (wrote none ∷ xs) rs after = Replays cs xs (changed t w rs) after
  Replays (writing w ∷ cs) (wrote (some e) ∷ xs) rs after = Replays cs xs rs after
  Replays (counting fvs ∷ cs) (counted r ∷ xs) rs after =
      IsAnswer (pos (length (keep (all_match t fvs) rs))) r × Replays cs xs rs after
  Replays (looking_for key value ∷ cs) (looked r ∷ xs) rs after =
      IsLook (any (t.eq key value) rs) r × Replays cs xs rs after
  Replays _ _ _ _ = ⊥

  changed-perm :
      (w : Write V) {rs us : List t.Row} → Perm rs us → Perm (changed t w rs) (changed t w us)
  changed-perm (inserting vs) h = Perm.append_right _ h
  changed-perm (deleting_where none) h = h
  changed-perm (deleting_where (some fvs)) h = keep-perm _ h
  changed-perm (deleting_by_key key value) h = keep-perm _ h
  changed-perm (updating_record none fvs) h = h
  changed-perm (updating_record (some v) none) h = map-perm _ h
  changed-perm (updating_record (some v) (some fvs)) h = map-perm _ h
  changed-perm (updating_by_key none key value) h = h
  changed-perm (updating_by_key (some v) key value) h = map-perm _ h

  any-perm : (p : t.Row → Bool) {rs us : List t.Row} → Perm rs us → any p rs ≡ any p us
  any-perm p h = sym (any-keep p _) ∙ ap (λ n. ltb 0 n) (length-perm (keep-perm p h)) ∙ any-keep p _

  module _ {g : Goqu V} (missing : Err → Bool) (m : Methods g S) (h : IsTable t missing m) where
    -- A write, whatever it returns, before calls that replay.
    write-Replays :
        (w : Write V) (cs : List (Call V)) (s : S) (rs : List t.Row) (r : Err × S)
        → Perm (t.rows s) rs
        → Became t (changed t w (t.rows s)) s r
        → ((u : S) (us : List t.Row)
            → Perm (t.rows u) us
            → let (xs, v) = run m cs u in Replays cs xs us (t.rows v))
        → let (e, u) = r in
          let (xs, v) = run m cs u in Replays (writing w ∷ cs) (wrote e ∷ xs) rs (t.rows v)
    write-Replays w cs s rs (none, u) p became rest =
        rest u (changed t w rs) (Perm.trans became (changed-perm w p))
    write-Replays w cs s rs (some e, u) p became rest = rest u rs (Perm.trans became p)

    -- A count, whatever it returns.
    count-Replays :
        (fvs : FieldValues V) (cs : List (Call V)) (s : S) (rs : List t.Row) (r : Result ℤ × S)
        → Perm (t.rows s) rs
        → Answers (pos (length (keep (all_match t fvs) (t.rows s)))) s r
        → ((u : S) (us : List t.Row)
            → Perm (t.rows u) us
            → let (xs, v) = run m cs u in Replays cs xs us (t.rows v))
        → let (a, u) = r in
          let (xs, v) = run m cs u in Replays (counting fvs ∷ cs) (counted a ∷ xs) rs (t.rows v)
    count-Replays fvs cs s rs (a, u) p (is, same) rest = (
      subst (λ n. IsAnswer (pos n) a) (length-perm (keep-perm (all_match t fvs) p)) is,
      rest u rs (subst (λ x. Perm (t.rows x) rs) (sym same) p),
    )

    -- An `Exists`, whatever it returns.
    look-Replays :
        (key : Bytes) (value : V) (cs : List (Call V)) (s : S) (rs : List t.Row)
        (o : Option (Result Bool × S))
        → Perm (t.rows s) rs
        → Looked (any (t.eq key value) (t.rows s)) s o
        → ((u : S) (us : List t.Row)
            → Perm (t.rows u) us
            → let (xs, v) = run m cs u in Replays cs xs us (t.rows v))
        → let (a, u) = value_of s o in
          let (xs, v) = run m cs u in
          Replays (looking_for key value ∷ cs) (looked a ∷ xs) rs (t.rows v)
    look-Replays key value cs s rs none p is rest = absurd is
    look-Replays key value cs s rs (some (a, u)) p (is, same) rest = (
      subst (λ b. IsAnswer b a) (any-perm (t.eq key value) p) is,
      rest u rs (subst (λ x. Perm (t.rows x) rs) (sym same) p),
    )

    pub any_run-Replays :
        (cs : List (Call V)) (s : S) (rs : List t.Row)
        → Perm (t.rows s) rs
        → let (xs, u) = run m cs s in Replays cs xs rs (t.rows u)
    any_run-Replays [] s rs p = p
    any_run-Replays (writing w ∷ cs) s rs p =
        write-Replays w cs s rs (call m w s) p (h.writes w s) (any_run-Replays cs)
    any_run-Replays (counting fvs ∷ cs) s rs p =
        count-Replays fvs cs s rs (m.counter.count_where fvs s) p (h.counts_where fvs s)
          (any_run-Replays cs)
    any_run-Replays (looking_for key value ∷ cs) s rs p =
        look-Replays key value cs s rs (m.reader.exists key value [] s) p (h.exists_key key value s)
          (any_run-Replays cs)
