-- ===== src/Servers.antt =====
-- provider/httpserver and provider/metrics: what the two servers share. net/http is the parameter
-- `Net`, over a state `S` of the world, and gin and promhttp are `Web`, with routers and contexts.
pub mod Http
pub mod Metrics
pub mod Encrypted
use blueprint.Prelude.{
  ℕ, suc, ℤ, pos, negsuc, Bytes, codes, Bool, true, false, Option, none, some, List, [], ◌∷◌, ◌++◌,
  if◌then◌else◌,
}
use blueprint.Errors.{Error, Err, Result, ok, err}
use blueprint.Hashing.Scan.{show}
use blueprint.Tls.{Crypto, ServerConfig, TlsConfig}

-- %d
unfoldable pub show_int : ℤ → Bytes
show_int (pos n) = show n
show_int (negsuc n) = b'-' ∷ show (suc n)

-- A http.Server.
pub record HttpServer (os : Crypto) (Handler : Type 0) : Type 0 where
  pub addr : Bytes
  pub handler : Handler
  pub read_timeout : ℕ
  pub write_timeout : ℕ
  pub tls_config : Option (TlsConfig os)

-- The calls that serve return an error at the end, which `is_server_closed` may be true of.
pub record Net (os : Crypto) (Handler S : Type 0) : Type 0 where
  pub listen_and_serve : HttpServer os Handler → S → Error × S
  pub listen_and_serve_tls : HttpServer os Handler → S → Error × S
  pub is_server_closed : Error → Bool
  pub shutdown : HttpServer os Handler → S → Err × S

abbrev pub no_tls : ServerConfig
no_tls = record {
  tls_cert = [];
  tls_key = [];
  tls_key_pwd = [];
  tls_allowed_cacerts = [];
  tls_cipher_suites = [];
  tls_min_version = [];
  tls_max_version = [];
  tls_allowed_dnsnames = [];
  tls_enable = false;
}

module _ {os : Crypto} {Handler S : Type 0} (net : Net os Handler S) where
  abbrev pub served : Error × S → Err × S
  served (e, s) = (if net.is_server_closed e then none else some e, s)

  -- What both methods `Start` do with their server.
  unfoldable pub serve : HttpServer os Handler → S → Err × S
  serve h s = elim h.tls_config [
    | none ↦ served (net.listen_and_serve h s)
    | some t ↦ served (net.listen_and_serve_tls h s)
  ]
