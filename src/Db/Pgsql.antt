-- ===== src/Db/Pgsql.antt =====
-- provider/pgsql/client.go: the settings of a PostgreSQL client. The pool settings of sqlx and
-- goqu's registry of dialects are parameters.
use blueprint.Prelude.{
  ℕ, ℤ, pos, ltz, seconds, Bytes, codes, Bool, true, Option, none, some, [], ◌∷◌, if◌then◌else◌,
}
use blueprint.Errors.{
  Error, Err, Result, ok, err, err_nil_config, err_empty_dsn, err_invalid_idle_conns,
  err_invalid_max_conns, err_invalid_conn_life_time, err_invalid_conn_idle_time,
}
use blueprint.Db.Client.{SqlClient, new_sql_client}

-- A time.Duration is its 64 bits.
pub record Pool (S : Type 0) : Type 0 where
  pub set_max_open_conns : ℤ → ℕ → S → S
  pub set_max_idle_conns : ℤ → ℕ → S → S
  pub set_conn_max_idle_time : ℕ → ℕ → S → S
  pub set_conn_max_lifetime : ℕ → ℕ → S → S

pub record ClientConfig : Type 0 where
  pub dsn : Bytes
  pub max_open_conns : ℤ
  pub max_idle_conns : ℤ
  pub conn_lifetime : ℤ
  pub conn_idle_time : ℤ

unfoldable pub new_client_config : ClientConfig
new_client_config = record {
  dsn = [];
  max_open_conns = pos 4;
  max_idle_conns = pos 2;
  conn_lifetime = pos 3600;
  conn_idle_time = pos 1800;
}

abbrev pub positive : ℤ → Error → Err → Err
positive n e rest = if ltz n (pos 1) then some e else rest

abbrev pub named_dsn : Bytes → Err → Err
named_dsn [] rest = some err_empty_dsn
named_dsn (c ∷ s) rest = rest

unfoldable pub validate : ClientConfig → Err
validate c = named_dsn c.dsn (
    if ltz c.max_idle_conns (pos 0)
    then some err_invalid_idle_conns
    else positive c.max_open_conns err_invalid_max_conns (
        positive c.conn_lifetime err_invalid_conn_life_time
          (positive c.conn_idle_time err_invalid_conn_idle_time none)))

-- goqu.SQLDialectOptions, as far as the defaults are changed.
pub record DialectOptions : Type 0 where
  pub place_holder_fragment : Bytes
  pub include_placeholder_num : Bool

unfoldable pub dialect_options : DialectOptions → DialectOptions
dialect_options defaults = record {
  place_holder_fragment = codes "$";
  include_placeholder_num = true;
}

module _ {S : Type 0} (pool : Pool S) where
  unfoldable pub apply : ClientConfig → ℕ → S → Err × S
  apply c db s =
      let s1 = pool.set_max_open_conns c.max_open_conns db s in
      let s2 = pool.set_max_idle_conns c.max_idle_conns db s1 in
      let s3 = pool.set_conn_max_idle_time (seconds c.conn_idle_time) db s2 in
      (none, pool.set_conn_max_lifetime (seconds c.conn_lifetime) db s3)

  unfoldable pub new_client : Option ClientConfig → Result (SqlClient S)
  unfolding validate apply new_sql_client
  new_client none = err err_nil_config
  new_client (some c) = elim (validate c) [
    | some e ↦ err e
    | none ↦ ok (new_sql_client c.dsn (codes "pgx") (some (apply c)))
  ]
