-- ===== src/Servers/Metrics.antt =====
-- provider/metrics/server.go. The handler that promhttp makes is a parameter, and the router with
-- that one handler is `handle`.
use blueprint.Prelude.{ℤ, pos, seconds, Bytes, codes, Option, none, some, ◌∷◌, ◌++◌}
use blueprint.Errors.{Err, Result, ok, err, and_then, err_nil_config}
use blueprint.Tls.{Crypto, ServerConfig, TlsConfig, server_tls_config}
use blueprint.Servers.{HttpServer, Net, no_tls, show_int, serve}

pub record Config : Type 0 where
  pub host : Bytes
  pub port : ℤ
  pub endpoint : Bytes
  pub read_timeout : ℤ
  pub write_timeout : ℤ
  pub server_config : ServerConfig

unfoldable pub new_config : Config
new_config = record {
  host = codes "localhost";
  port = pos 2201;
  endpoint = codes "/metrics";
  read_timeout = pos 600;
  write_timeout = pos 600;
  server_config = no_tls;
}

unfoldable pub validate : Config → Err
validate c = none

pub record Server (os : Crypto) (Handler : Type 0) : Type 0 where
  pub server : HttpServer os Handler

module _ {os : Crypto} {Handler : Type 0} (handle : Bytes → Handler → Handler) where
  abbrev pub server_of : Config → Handler → Option (TlsConfig os) → Server os Handler
  server_of c h t = record {
    server = record {
      addr = c.host ++ (b':' ∷ show_int c.port);
      handler = handle c.endpoint h;
      read_timeout = seconds c.read_timeout;
      write_timeout = seconds c.write_timeout;
      tls_config = t;
    };
  }

  abbrev pub configured : Config → Handler → Err → Result (Server os Handler)
  configured c h (some e) = err e
  configured c h none = and_then (server_tls_config os c.server_config) (λ t. ok (server_of c h t))

  unfoldable pub new_custom_server : Option Config → Handler → Result (Server os Handler)
  unfolding validate
  new_custom_server none h = err err_nil_config
  new_custom_server (some c) h = configured c h (validate c)

  -- `default_handler` serves prometheus.DefaultGatherer.
  unfoldable pub new_server : Option Config → Handler → Result (Server os Handler)
  unfolding new_custom_server
  new_server c default_handler = new_custom_server c default_handler

module _ {os : Crypto} {Handler S : Type 0} (net : Net os Handler S) where
  unfoldable pub start : Server os Handler → S → Err × S
  unfolding serve
  start c s = serve net c.server s

  unfoldable pub shutdown : Server os Handler → S → Err × S
  shutdown c s = net.shutdown c.server s
