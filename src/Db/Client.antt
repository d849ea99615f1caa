-- ===== src/Db/Client.antt =====
-- db/client.go: a client that opens its connection when it is first asked for it. `sqlx.Open`, the
-- options' `Apply`, `Ping` and `Close` are the parameter `Sqlx`.
use blueprint.Prelude.{ℕ, Bool, true, false, Option, none, some, ◌≡◌, refl, Bytes, arith, ap}
use blueprint.Errors.{Error, Err, Result, ok, err}

pub record Sqlx (S : Type 0) : Type 0 where
  pub open_db : Bytes → Bytes → S → Result ℕ × S
  pub ping : ℕ → S → Err × S
  pub close : ℕ → S → S

pub record SqlClient (S : Type 0) : Type 0 where
  pub conn : Option ℕ
  pub dsn : Bytes
  pub driver_name : Bytes
  pub conn_options : Option (ℕ → S → Err × S)

-- Returned, or panicked with an error.
pub data Db (S : Type 0) : Type 0 where
  returned : Option ℕ → SqlClient S → S → Db S
  panicked : Error → S → Db S

module _ {S : Type 0} where
  unfoldable pub new_sql_client : Bytes → Bytes → Option (ℕ → S → Err × S) → SqlClient S
  new_sql_client dsn driver_name conn_options = record {
    conn = none;
    dsn = dsn;
    driver_name = driver_name;
    conn_options = conn_options;
  }

  unfoldable pub is_connected : SqlClient S → Bool
  is_connected c = elim c.conn [ none ↦ false | some _ ↦ true ]

  abbrev apply_options : Option (ℕ → S → Err × S) → ℕ → S → Err × S
  apply_options none conn s = (none, s)
  apply_options (some apply) conn s = apply conn s

module _ {S : Type 0} (sqlx : Sqlx S) where
  -- What follows the `Ping` and, before it, the options.
  abbrev pinged : SqlClient S → ℕ → Err × S → Err × SqlClient S × S
  pinged c conn (some e, s) = (some e, c, s)
  pinged c conn (none, s) = (none, record c { conn = some conn }, s)

  abbrev applied : SqlClient S → ℕ → Err × S → Err × SqlClient S × S
  applied c conn (some e, s) = (some e, c, s)
  applied c conn (none, s) = pinged c conn (sqlx.ping conn s)

  abbrev opened : SqlClient S → Result ℕ × S → Err × SqlClient S × S
  opened c (err e, s) = (some e, c, s)
  opened c (ok conn, s) = applied c conn (apply_options c.conn_options conn s)

  unfoldable pub connect : SqlClient S → S → Err × SqlClient S × S
  connect c s = opened c (sqlx.open_db c.driver_name c.dsn s)

  -- `if err := c.Connect(); err != nil { panic(err) }; return c.Conn`
  abbrev must_connect : Err × SqlClient S × S → Db S
  must_connect (some e, c, s) = panicked e s
  must_connect (none, c, s) = returned c.conn c s

  unfoldable pub db_from : Option ℕ → SqlClient S → S → Db S
  db_from none c s = must_connect (connect c s)
  db_from (some conn) c s = returned (some conn) c s

  unfoldable pub db : SqlClient S → S → Db S
  unfolding db_from
  db c s = db_from c.conn c s

  unfoldable pub disconnect : SqlClient S → S → SqlClient S × S
  disconnect c s = elim c.conn [
    | none ↦ (c, s)
    | some conn ↦ (record c { conn = none }, sqlx.close conn s)
  ]

  -- What a call of `Connect` leaves: an error keeps the client as it was, and success a client that
  -- is connected and otherwise the same.
  abbrev pub Connects : SqlClient S → Err × SqlClient S × S → Type 0
  Connects c (some e, c', s) = c' ≡ c
  Connects c (none, c', s) = (conn : ℕ) × (c' ≡ record c { conn = some conn })

  pinged-Connects : (c : SqlClient S) (conn : ℕ) (r : Err × S) → Connects c (pinged c conn r)
  pinged-Connects c conn (some e, s) = refl
  pinged-Connects c conn (none, s) = (conn, refl)

  applied-Connects : (c : SqlClient S) (conn : ℕ) (r : Err × S) → Connects c (applied c conn r)
  applied-Connects c conn (some e, s) = refl
  applied-Connects c conn (none, s) = pinged-Connects c conn (sqlx.ping conn s)

  opened-Connects : (c : SqlClient S) (r : Result ℕ × S) → Connects c (opened c r)
  opened-Connects c (err e, s) = refl
  opened-Connects c (ok conn, s) = applied-Connects c conn (apply_options c.conn_options conn s)

  connect-Connects : (c : SqlClient S) (s : S) → Connects c (connect c s)
  unfolding connect
  connect-Connects c s = opened-Connects c (sqlx.open_db c.driver_name c.dsn s)

  -- What `Db` gives: a connection that the client keeps, so that asking again gives the same one
  -- and opens nothing; or the panic with the error of `Connect`.
  abbrev pub Gives : SqlClient S → Db S → Type 0
  Gives c (panicked e t) = c.conn ≡ none
  Gives c (returned conn c' t) =
      (is_connected c' ≡ true) × (c'.conn ≡ conn) × ((u : S) → db c' u ≡ returned conn c' u)

  must_connect-Gives :
      (c : SqlClient S) (r : Err × SqlClient S × S)
      → c.conn ≡ none
      → Connects c r
      → Gives c (must_connect r)
  unfolding is_connected db
  must_connect-Gives c (some e, c', s) n h = n
  must_connect-Gives c (none, c', s) n (conn, same) = rw same (refl, refl, λ u. refl)

  db_from-Gives : (o : Option ℕ) (c : SqlClient S) (s : S) → c.conn ≡ o → Gives c (db_from o c s)
  unfolding db is_connected
  db_from-Gives none c s e = must_connect-Gives c (connect c s) e (connect-Connects c s)
  db_from-Gives (some conn) c s e = (ground arith, e, λ u. ap (λ o. db_from o c u) e)

  -- `Db` panics only on a client with no connection; otherwise the client is connected afterwards,
  -- and asking it again gives the same connection and does nothing else.
  pub db-Gives : (c : SqlClient S) (s : S) → Gives c (db c s)
  db-Gives c s = unfold db in db_from-Gives c.conn c s refl

  -- A disconnected client is not connected, and disconnecting it again does nothing.
  disconnect_twice :
      (c : SqlClient S) (s : S)
      → let (c', s') = disconnect c s in (is_connected c' ≡ false) × (disconnect c' s' ≡ (c', s'))
  unfolding disconnect is_connected
  disconnect_twice c s = ground arith
