-- ===== src/Db/Clickhouse.antt =====
-- provider/clickhouse/client.go: the settings of a ClickHouse client.
use blueprint.Prelude.{Bytes, codes, false, Option, none, some}
use blueprint.Errors.{Err, Result, ok, err, err_nil_client_config}
use blueprint.Db.Client.{SqlClient, new_sql_client}
use blueprint.Db.Pgsql.{DialectOptions, named_dsn}

pub record ClientConfig : Type 0 where
  pub dsn : Bytes

unfoldable pub validate : ClientConfig → Err
validate c = named_dsn c.dsn none

unfoldable pub dialect_options : DialectOptions → DialectOptions
dialect_options defaults = record {
  place_holder_fragment = codes "?";
  include_placeholder_num = false;
}

-- A client with no options for its connection.
unfoldable pub new_client : {S : Type 0} → Option ClientConfig → Result (SqlClient S)
unfolding validate new_sql_client
new_client none = err err_nil_client_config
new_client (some c) = elim (validate c) [
  | some e ↦ err e
  | none ↦ ok (new_sql_client c.dsn (codes "clickhouse") none)
]
