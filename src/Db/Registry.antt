-- ===== src/Db/Registry.antt =====
-- The dialects that provider/pgsql/client.go and provider/clickhouse/client.go register with goqu
-- when the program starts, and the repositories on their clients. goqu's registry is a parameter.
use blueprint.Prelude.{
  Bool, true, false, none, some, Bytes, codes, bytes_eq, ◌≡◌, refl, ap, ◌∙◌, arith,
}
use blueprint.Errors.{Err, Result, ok, err}
use blueprint.Config.Text.{to_upper}
use blueprint.Db.Client.{Sqlx, SqlClient, Db, returned, panicked, db, new_sql_client}
use blueprint.Db.Open as Open
use blueprint.Db.Open.{Opened, has_opened, has_failed}
use blueprint.Db.Pgsql as Pgsql
use blueprint.Db.Pgsql.{DialectOptions, Pool}
use blueprint.Db.Clickhouse as Clickhouse

module _ {S : Type 0} where
  client_made :
      (v : Err) (k client : SqlClient S)
      → ◌≡◌ {A = Result (SqlClient S)} (elim v [ some e ↦ err e | none ↦ ok k ]) (ok client)
      → client.driver_name ≡ k.driver_name
  client_made v k client e = ground arith

  pgsql_driver :
      (pool : Pool S) (c : Pgsql.ClientConfig) (client : SqlClient S)
      → Pgsql.new_client pool (some c) ≡ ok client
      → client.driver_name ≡ codes "pgx"
  unfolding Pgsql.new_client new_sql_client
  pgsql_driver pool c client e = client_made (Pgsql.validate c) _ client e

  clickhouse_driver :
      (c : Clickhouse.ClientConfig) (client : SqlClient S)
      → Clickhouse.new_client (some c) ≡ ok client
      → client.driver_name ≡ codes "clickhouse"
  unfolding Clickhouse.new_client new_sql_client
  clickhouse_driver c client e = client_made (Clickhouse.validate c) _ client e

-- A registry of names `Reg`, and the dialect of a name.
pub record Registry (Reg D : Type 0) : Type 0 where
  pub default_options : DialectOptions
  pub register_dialect : Bytes → DialectOptions → Reg → Reg
  pub dialect : Bytes → Reg → D

-- A name, in upper or lower case, has the dialect with the options that it was registered with
-- last.
pub record IsRegistry {Reg D : Type 0} (goqu : Registry Reg D) : Type 0 where
  pub with_options : DialectOptions → D
  pub dialect_same :
      (n : Bytes) (o : DialectOptions) (r : Reg)
      → goqu.dialect n (goqu.register_dialect n o r) ≡ with_options o
  pub dialect_other :
      (n m : Bytes) (o : DialectOptions) (r : Reg)
      → bytes_eq (to_upper n) (to_upper m) ≡ false
      → goqu.dialect m (goqu.register_dialect n o r) ≡ goqu.dialect m r

module _ {Reg D : Type 0} (goqu : Registry Reg D) where
  -- The functions `init` of the two packages.
  unfoldable pub init_pgsql : Reg → Reg
  init_pgsql r = goqu.register_dialect (codes "pgx") (Pgsql.dialect_options goqu.default_options) r

  unfoldable pub init_clickhouse : Reg → Reg
  init_clickhouse r =
      goqu.register_dialect (codes "clickhouse") (Clickhouse.dialect_options goqu.default_options) r

  -- A repository that is opened has this dialect.
  abbrev pub HasDialect : {S : Type 0} → D → Opened D S → Type 0
  HasDialect d (has_opened r c s) = r.dialect ≡ d
  HasDialect d (has_failed e s) = Unit

  open_on-HasDialect :
      {S : Type 0} (sqlx : Sqlx S) (dialect : Bytes → D) (name table : Bytes) (d : D) (r : Db S)
      → dialect name ≡ d
      → HasDialect d (Open.open_on sqlx dialect name table r)
  open_on-HasDialect sqlx dialect name table d (returned conn c s) e = e
  open_on-HasDialect sqlx dialect name table d (panicked e s) h = tt

  -- The registry when the program starts; Go runs the two functions in either order.
  abbrev pub started : Bool → Reg → Reg
  started true r = init_clickhouse (init_pgsql r)
  started false r = init_pgsql (init_clickhouse r)

  module _ (laws : IsRegistry goqu) where
    pgsql_dialect :
        (first : Bool) (r : Reg)
        → goqu.dialect (codes "pgx") (started first r)
          ≡ laws.with_options (Pgsql.dialect_options goqu.default_options)
    unfolding init_pgsql init_clickhouse bytes_eq to_upper
    pgsql_dialect true r =
        laws.dialect_other (codes "clickhouse") (codes "pgx") _ _ refl
        ∙ laws.dialect_same (codes "pgx") _ r
    pgsql_dialect false r = laws.dialect_same (codes "pgx") _ _

    clickhouse_dialect :
        (first : Bool) (r : Reg)
        → goqu.dialect (codes "clickhouse") (started first r)
          ≡ laws.with_options (Clickhouse.dialect_options goqu.default_options)
    unfolding init_pgsql init_clickhouse bytes_eq to_upper
    clickhouse_dialect true r = laws.dialect_same (codes "clickhouse") _ _
    clickhouse_dialect false r =
        laws.dialect_other (codes "pgx") (codes "clickhouse") _ _ refl
        ∙ laws.dialect_same (codes "clickhouse") _ r

    new_repository-HasDialect :
        {S : Type 0} (sqlx : Sqlx S) (first : Bool) (r : Reg) (client : SqlClient S)
        (name table : Bytes) (d : D) (s : S)
        → client.driver_name ≡ name
        → goqu.dialect name (started first r) ≡ d
        → HasDialect d
            (Open.new_repository sqlx (λ n. goqu.dialect n (started first r)) client table s)
    unfolding Open.new_repository
    new_repository-HasDialect sqlx first r client name table d s driver e =
        open_on-HasDialect sqlx (λ n. goqu.dialect n (started first r)) client.driver_name table d
          (db sqlx client s) (ap (λ n. goqu.dialect n (started first r)) driver ∙ e)

    -- Where goqu's registry gives a name the dialect that it was registered with last, up to upper
    -- and lower case: whichever package registers first, a repository that is opened on a client of
    -- provider/pgsql has the dialect whose placeholders are $ with a number, and one on a client of
    -- provider/clickhouse that whose placeholders are ? without one.
    pub opened-HasDialect :
        {S : Type 0} (sqlx : Sqlx S) (pool : Pool S) (first : Bool) (r : Reg)
        (p : Pgsql.ClientConfig) (c : Clickhouse.ClientConfig) (pg ch : SqlClient S) (table : Bytes)
        (s : S)
        → Pgsql.new_client pool (some p) ≡ ok pg
        → Clickhouse.new_client (some c) ≡ ok ch
        → let open_on : SqlClient S → Opened D S = λ client.
          Open.new_repository sqlx (λ n. goqu.dialect n (started first r)) client table s in
          HasDialect
            (laws.with_options
              (record { place_holder_fragment = codes "$"; include_placeholder_num = true }))
            (open_on pg)
          × HasDialect
              (laws.with_options
                (record { place_holder_fragment = codes "?"; include_placeholder_num = false }))
              (open_on ch)
    unfolding Pgsql.dialect_options Clickhouse.dialect_options
    opened-HasDialect sqlx pool first r p c pg ch table s made_pg made_ch = (
      new_repository-HasDialect sqlx first r pg (codes "pgx") table _ s
          (pgsql_driver pool p pg made_pg) (pgsql_dialect first r),
      new_repository-HasDialect sqlx first r ch (codes "clickhouse") table _ s
          (clickhouse_driver c ch made_ch) (clickhouse_dialect first r),
    )
