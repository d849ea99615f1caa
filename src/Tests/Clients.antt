-- ===== src/Tests/Clients.antt =====
-- The client of db/client.go.
use blueprint.Prelude.{
  ℕ, pos, false, true, Option, none, some, List, [], Bytes, codes, insert, lookup, lookup-insert,
  bytes_eq, bytes_eq_refl, ◌≡◌, refl, ap, ◌∙◌, arith,
}
use blueprint.Errors.{ok}
use blueprint.Config.Text.{to_upper}
use blueprint.Db.Open as Open
use blueprint.Db.Open.{Opened}
use blueprint.Db.Pgsql as Pgsql
use blueprint.Db.Pgsql.{DialectOptions, Pool}
use blueprint.Db.Clickhouse as Clickhouse
use blueprint.Db.Registry.{Registry, IsRegistry, HasDialect, started, opened-HasDialect}
use blueprint.Db.Client.{new_sql_client, Sqlx, SqlClient, Gives, db, db-Gives}

abbrev sqlx : Sqlx ℕ
sqlx = record {
  open_db = λ driver dsn s. (ok 3, s);
  ping = λ conn s. (none, s);
  close = λ conn s. s;
}

abbrev client : SqlClient ℕ
client = record { conn = none; dsn = codes "dsn"; driver_name = codes "pgx"; conn_options = none }

db-Gives_example : Gives sqlx client (db sqlx client 0)
db-Gives_example = db-Gives sqlx client 0

abbrev default_options : DialectOptions
default_options = record { place_holder_fragment = codes "?"; include_placeholder_num = false }

abbrev or_default : Option DialectOptions → DialectOptions
or_default none = default_options
or_default (some o) = o

-- A registry is the list of its entries, by names in upper case.
abbrev registry : Registry (List (Bytes × DialectOptions)) DialectOptions
registry = record {
  default_options = default_options;
  register_dialect = λ n o r. insert (to_upper n) o r;
  dialect = λ n r. or_default (lookup (to_upper n) r);
}

found_same :
    (n : Bytes) (o : DialectOptions) (r : List (Bytes × DialectOptions))
    → or_default (lookup n (insert n o r)) ≡ o
found_same n o r = ap or_default (lookup-insert n n o r) ∙ ground (arith, bytes_eq_refl n)

found_other :
    (n m : Bytes) (o : DialectOptions) (r : List (Bytes × DialectOptions))
    → bytes_eq n m ≡ false
    → or_default (lookup m (insert n o r)) ≡ or_default (lookup m r)
found_other n m o r h = ap or_default (lookup-insert n m o r) ∙ ground (arith, h)

abbrev registry-IsRegistry : IsRegistry registry
registry-IsRegistry = record {
  with_options = λ o. o;
  dialect_same = λ n o r. found_same (to_upper n) o r;
  dialect_other = λ n m o r h. found_other (to_upper n) (to_upper m) o r h;
}

abbrev pool : Pool ℕ
pool = record {
  set_max_open_conns = λ n conn s. s;
  set_max_idle_conns = λ n conn s. s;
  set_conn_max_idle_time = λ n conn s. s;
  set_conn_max_lifetime = λ n conn s. s;
}

abbrev pg_config : Pgsql.ClientConfig
pg_config = record {
  dsn = codes "dsn";
  max_open_conns = pos 4;
  max_idle_conns = pos 2;
  conn_lifetime = pos 3600;
  conn_idle_time = pos 1800;
}

abbrev pg_client : SqlClient ℕ
pg_client = record {
  conn = none;
  dsn = codes "dsn";
  driver_name = codes "pgx";
  conn_options = some (Pgsql.apply pool pg_config);
}

abbrev ch_client : SqlClient ℕ
ch_client = record client { driver_name = codes "clickhouse" }

opened-HasDialect_example :
    let open_on : SqlClient ℕ → Opened DialectOptions ℕ = λ c.
      Open.new_repository sqlx
        (λ n. registry.dialect n (started registry true []))
        c
        (codes "users")
        0 in
    HasDialect registry
      (record { place_holder_fragment = codes "$"; include_placeholder_num = true })
      (open_on pg_client)
    × HasDialect registry
        (record { place_holder_fragment = codes "?"; include_placeholder_num = false })
        (open_on ch_client)
unfolding Pgsql.new_client Pgsql.validate Clickhouse.new_client Clickhouse.validate new_sql_client
opened-HasDialect_example =
    opened-HasDialect registry registry-IsRegistry sqlx pool true [] pg_config
      (record { dsn = codes "dsn" }) pg_client ch_client (codes "users") 0 refl refl
