-- ===== src/Db/Table.antt =====
-- What the repositories of db/repository.go promise of a table: its rows, in no order, as every
-- write and every read sees them.
use blueprint.Prelude.{
  ℕ, pos, Bool, true, false, not, ◌&&◌, ◌||◌, ◌≡◌, Option, none, some, List, [], ◌∷◌, ◌++◌, map,
  Bytes, keep, length, if◌then◌else◌,
}
use blueprint.Prelude.Perms.{Perm}
use blueprint.Errors.{Err, Result, ok, err, err_invalid_parameters}
use blueprint.Db.Driver.{Goqu}
use blueprint.Db.Functions.{FieldValues}
use blueprint.Db.Interface.{Methods}

-- A condition on a column holds or not; `neq` is SQL's, so it is not always `not eq`. `row_of` is
-- the row that a record becomes, `assign` sets the fields of a record in a row, and `fetched` are
-- the rows that the last scan put into a target.
pub record Table (V S : Type 0) : Type 1 where
  pub Row : Type 0
  pub rows : S → List Row
  pub eq : Bytes → V → Row → Bool
  pub neq : Bytes → V → Row → Bool
  pub row_of : V → Row
  pub assign : V → Row → Row
  pub fetched : ℕ → S → List Row

abbrev pub any : {A : Type 0} → (A → Bool) → List A → Bool
any p [] = false
any p (x ∷ xs) = p x || any p xs

-- The calls that write to the table of a repository.
pub data Write (V : Type 0) : Type 0 where
  inserting : List V → Write V
  deleting_where : Option (FieldValues V) → Write V
  deleting_by_key : Bytes → V → Write V
  updating_record : Option V → Option (FieldValues V) → Write V
  updating_by_key : Option V → Bytes → V → Write V

-- Calls with a parameter that the package refuses.
abbrev pub is_refused : {V : Type 0} → Write V → Bool
is_refused (inserting []) = true
is_refused (inserting (v ∷ vs)) = false
is_refused (deleting_where none) = true
is_refused (deleting_where (some fvs)) = false
is_refused (deleting_by_key key value) = false
is_refused (updating_record none fvs) = true
is_refused (updating_record (some v) fvs) = false
is_refused (updating_by_key none key value) = true
is_refused (updating_by_key (some v) key value) = false

abbrev pub call : {V S : Type 0} {g : Goqu V} → Methods g S → Write V → S → Err × S
call m (inserting vs) s = m.writer.insert vs s
call m (deleting_where fvs) s = m.deleter.delete_where fvs s
call m (deleting_by_key key value) s = m.deleter.delete_by_key key value s
call m (updating_record v fvs) s = m.updater.update_record v fvs s
call m (updating_by_key v key value) s = m.updater.update_by_key v key value s

-- A query answers `a`, or reports an error.
abbrev pub IsAnswer : {A : Type 0} → A → Result A → Type 0
IsAnswer a (ok b) = b ≡ a
IsAnswer a (err e) = Unit

abbrev pub IsLook : Bool → Option (Result Bool) → Type 0
IsLook a none = ⊥
IsLook a (some r) = IsAnswer a r

-- It leaves the state as it was.
abbrev pub Answers : {A S : Type 0} → A → S → Result A × S → Type 0
Answers a s r = IsAnswer a r.0 × (r.1 ≡ s)

abbrev pub Looked : {S : Type 0} → Bool → S → Option (Result Bool × S) → Type 0
Looked a s none = ⊥
Looked a s (some r) = Answers a s r

module _ {V S : Type 0} (t : Table V S) where
  -- The rows that match every entry of a map.
  abbrev pub all_match : FieldValues V → t.Row → Bool
  all_match [] r = true
  all_match ((f, v) ∷ fvs) r = t.eq f v r && all_match fvs r

  abbrev pub remove : (t.Row → Bool) → List t.Row → List t.Row
  remove p rs = keep (λ r. not (p r)) rs

  abbrev pub assign_where : V → (t.Row → Bool) → List t.Row → List t.Row
  assign_where v p rs = map (λ r. if p r then t.assign v r else r) rs

  -- The rows after a write that is done.
  abbrev pub changed : Write V → List t.Row → List t.Row
  changed (inserting vs) rs = rs ++ map t.row_of vs
  changed (deleting_where none) rs = rs
  changed (deleting_where (some fvs)) rs = remove (all_match fvs) rs
  changed (deleting_by_key key value) rs = remove (t.eq key value) rs
  changed (updating_record none fvs) rs = rs
  changed (updating_record (some v) none) rs = assign_where v (λ r. true) rs
  changed (updating_record (some v) (some fvs)) rs = assign_where v (all_match fvs) rs
  changed (updating_by_key none key value) rs = rs
  changed (updating_by_key (some v) key value) rs = assign_where v (t.eq key value) rs

  -- A statement is done, or reports an error and has changed nothing.
  abbrev pub Became : List t.Row → S → Err × S → Type 0
  Became after s (none, u) = Perm (t.rows u) after
  Became after s (some e, u) = Perm (t.rows u) (t.rows s)

  abbrev pub Refuses : Bool → S → Err × S → Type 0
  Refuses true s r = r ≡ (some err_invalid_parameters, s)
  Refuses false s r = Unit

  -- What fetching all rows that satisfy `p` leaves in the target, and what fetching one of them
  -- does, where `missing` are the errors for no rows.
  abbrev pub Fetched : (t.Row → Bool) → ℕ → S → Err × S → Type 0
  Fetched p target s (none, u) =
      Perm (t.rows u) (t.rows s) × Perm (t.fetched target u) (keep p (t.rows s))
  Fetched p target s (some e, u) = Perm (t.rows u) (t.rows s)

  abbrev pub NoneLeft : Bool → List t.Row → Type 0
  NoneLeft true rs = rs ≡ []
  NoneLeft false rs = Unit

  abbrev pub FetchedOne : (Err → Bool) → (t.Row → Bool) → ℕ → S → Err × S → Type 0
  FetchedOne missing p target s (none, u) =
      Perm (t.rows u) (t.rows s)
      × ((r : t.Row) × (rest : List t.Row) × (t.fetched target u ≡ r ∷ [])
          × Perm (keep p (t.rows s)) (r ∷ rest))
  FetchedOne missing p target s (some e, u) =
      Perm (t.rows u) (t.rows s) × NoneLeft (missing (some e)) (keep p (t.rows s))

  -- `Exists` answers as its query, and panics where the name of the column to skip is no string.
  abbrev pub LookedOther : Bytes → V → Option Bytes → V → S → Option (Result Bool × S) → Type 0
  LookedOther field value none skip_value s o = o ≡ none
  LookedOther field value (some column) skip_value s o =
      Looked (any (λ r. t.neq column skip_value r && t.eq field value r) (t.rows s)) s o

  -- The contract: writes change the rows as `changed` says or not at all, refused calls do nothing,
  -- and reads answer from the rows and leave them.
  pub record IsTable {g : Goqu V} (missing : Err → Bool) (m : Methods g S) : Type 0 where
    pub writes : (w : Write V) (s : S) → Became (changed w (t.rows s)) s (call m w s)
    pub refuses : (w : Write V) (s : S) → Refuses (is_refused w) s (call m w s)
    pub counts : (s : S) → Answers (pos (length (t.rows s))) s (m.counter.count s)
    pub counts_where :
        (fvs : FieldValues V) (s : S)
        → Answers (pos (length (keep (all_match fvs) (t.rows s)))) s (m.counter.count_where fvs s)
    pub exists_key :
        (key : Bytes) (value : V) (s : S)
        → Looked (any (t.eq key value) (t.rows s)) s (m.reader.exists key value [] s)
    pub exists_skip :
        (key : Bytes) (value skip skip_value : V) (s : S)
        → LookedOther key value
            (g.as_string skip)
            skip_value
            s
            (m.reader.exists key value (skip ∷ skip_value ∷ []) s)
    pub fetches :
        (fvs : FieldValues V) (target : ℕ) (s : S)
        → Fetched (all_match fvs) target s (m.reader.fetch_where (some fvs) (some target) s)
    pub fetches_one :
        (fvs : FieldValues V) (target : ℕ) (s : S)
        → FetchedOne missing
            (all_match fvs)
            target
            s
            (m.reader.fetch_record (some fvs) (some target) s)
    pub fetches_key :
        (key : Bytes) (value : V) (target : ℕ) (s : S)
        → FetchedOne missing
            (t.eq key value)
            target
            s
            (m.reader.fetch_by_key key value (some target) s)
