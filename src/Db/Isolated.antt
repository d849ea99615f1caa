-- ===== src/Db/Isolated.antt =====
-- A transaction of db/repository.go from its start to `Commit` or `Rollback`. What is assumed of
-- sqlx and the database: a transaction has rows of its own until it is committed, and no one else
-- writes to the table meanwhile.
use mathlib.Core.List.Perm
use blueprint.Prelude.{ℕ, none, some, Option, List}
use blueprint.Prelude.Perms.{Perm}
use blueprint.Errors.{Err, Result, ok, err}
use blueprint.Db.Driver.{Query, Conn}
use blueprint.Db.Functions
use blueprint.Db.Tx
use blueprint.Db.Open as Open
use blueprint.Db.Table.{Table}
use blueprint.Db.Calls.{Call, Answer, Replays}

module _ {V S : Type 0} (t : Table V S) where
  -- The table as a transaction sees it.
  abbrev pub seen_by : (ℕ → S → List t.Row) → ℕ → Table V S
  seen_by pending h = record t { rows = pending h }

  abbrev pub Committed : List t.Row → S → Err × S → Type 0
  Committed own s (none, u) = Perm (t.rows u) own
  Committed own s (some e, u) = Perm (t.rows u) (t.rows s)

  abbrev pub Begun : (ℕ → S → List t.Row) → S → Result ℕ × S → Type 0
  Begun pending s (ok h, u) = Perm (pending h u) (t.rows s) × Perm (t.rows u) (t.rows s)
  Begun pending s (err e, u) = Perm (t.rows u) (t.rows s)

  pub record IsIsolated (tx_of : ℕ → Conn V S) (begin_txx : Option ℕ → S → Result ℕ × S)
      (conn_commit conn_rollback : ℕ → S → Err × S) : Type 0 where
    pub pending : ℕ → S → List t.Row
    pub begin_sound : (c : Option ℕ) (s : S) → Begun pending s (begin_txx c s)
    pub exec_sound : (h : ℕ) (k : Query V) (s : S) → Perm (t.rows ((tx_of h).exec k s).1) (t.rows s)
    pub commit_sound : (h : ℕ) (s : S) → Committed (pending h s) s (conn_commit h s)
    pub rollback_sound : (h : ℕ) (s : S) → Perm (t.rows (conn_rollback h s).1) (t.rows s)

  -- The rows after `Commit`: those of the calls if it returns nil, else those before.
  abbrev pub Ends : List (Call V) → List Answer → S → Err × S → Type 0
  Ends cs xs s (none, u) = Replays t cs xs (t.rows s) (t.rows u)
  Ends cs xs s (some e, u) = Perm (t.rows u) (t.rows s)

  abbrev handle_of : {D : Type 0} → Result (Open.Tx D) × S → Result ℕ × S
  handle_of (err e, s) = (err e, s)
  handle_of (ok x, s) = (ok x.conn, s)
