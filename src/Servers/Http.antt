-- ===== src/Servers/Http.antt =====
-- provider/httpserver: server.go, utils.go and response.go.
use blueprint.Prelude.{
  ℕ, ℤ, pos, seconds, Bytes, codes, bytes_eq, lookup, Bool, false, not, ◌||◌, Option, none, some,
  List, [], ◌∷◌, ◌++◌, if◌then◌else◌,
}
use blueprint.Errors.{Err, Result, ok, err, err_nil_config}
use blueprint.Tls.{Crypto, ServerConfig, TlsConfig, server_tls_config}
use blueprint.Servers.{HttpServer, Net, no_tls, show_int, serve}

pub record Config : Type 0 where
  pub host : Bytes
  pub port : ℤ
  pub read_timeout : ℤ
  pub write_timeout : ℤ
  pub debug : Bool
  pub options : List (Bytes × Bytes)
  pub server_config : ServerConfig

pub record JsonErrorDetail : Type 0 where
  pub message : Bytes

pub record JsonResponseError : Type 0 where
  pub success : Bool
  pub error : JsonErrorDetail

-- gin, with its routers `R`, the groups `G` of their routes, and the contexts `C` of requests; a
-- middleware is a function on these. `set_release_mode` is gin's global mode.
pub record Gin (R G C S : Type 0) : Type 0 where
  pub set_release_mode : S → S
  pub new : R
  pub logger : Bytes → C → C
  pub recovery : C → C
  pub add : (C → C) → R → R
  pub group : Bytes → R → G
  pub header : Bytes → C → Bytes
  pub next : C → C
  pub abort_with_status : ℕ → C → C
  pub abort_with_status_json : ℕ → JsonResponseError → C → C
  pub status_text : ℕ → Bytes

unfoldable pub new_server_config : Config
new_server_config = record {
  host = [];
  port = pos 5000;
  read_timeout = pos 600;
  write_timeout = pos 600;
  debug = false;
  options = [];
  server_config = no_tls;
}

unfoldable pub get_option : Config → Bytes → Bytes → Bytes
get_option c key default_value = elim (lookup key c.options) [ none ↦ default_value | some v ↦ v ]

unfoldable pub validate : Config → Err
validate c = none

pub record Server (os : Crypto) (R : Type 0) : Type 0 where
  pub config : Config
  pub router : R
  pub server : HttpServer os R

module _ {R G C S : Type 0} (gin : Gin R G C S) where
  unfoldable pub is_json_request : C → Bool
  is_json_request ctx =
      bytes_eq (gin.header (codes "Accept") ctx) (codes "application/json")
      || bytes_eq (gin.header (codes "Content-Type") ctx) (codes "application/json")

  unfoldable pub http_error401 : C → C
  unfolding is_json_request
  http_error401 ctx =
      if is_json_request ctx
      then gin.abort_with_status_json 401
          (record { success = false; error = record { message = gin.status_text 401 } }) ctx
      else gin.abort_with_status 401 ctx

  unfoldable pub new_router : Bytes → Bool → S → R × S
  new_router server_name debug s = (
    gin.add gin.recovery (gin.add (gin.logger server_name) gin.new),
    if not debug then gin.set_release_mode s else s,
  )

  -- The http.Server has the same router.
  unfoldable pub add_middleware : {os : Crypto} → (C → C) → Server os R → Server os R
  add_middleware f c = record c {
    router = gin.add f c.router;
    server = record c.server { handler = gin.add f c.router };
  }

  -- What the middleware of `UseAuth` does with a request.
  unfoldable pub auth : (C → Bool) → C → C
  unfolding http_error401
  auth can_access ctx = if can_access ctx then gin.next ctx else http_error401 ctx

  unfoldable pub use_auth : {os : Crypto} → (C → Bool) → Server os R → Server os R
  unfolding add_middleware auth
  use_auth can_access c = add_middleware (auth can_access) c

  unfoldable pub group : {os : Crypto} → Bytes → Server os R → G
  group relative_path c = gin.group relative_path c.router

  unfoldable pub route : {os : Crypto} → Server os R → R
  route c = c.router

  module _ {os : Crypto} where
    abbrev pub server_of : Config → Option (TlsConfig os) → R × S → Result (Server os R) × S
    server_of c t (router, s) = (
      ok (record {
        config = c;
        router = router;
        server = record {
          addr = c.host ++ (b':' ∷ show_int c.port);
          handler = router;
          read_timeout = seconds c.read_timeout;
          write_timeout = seconds c.write_timeout;
          tls_config = t;
        };
      }),
      s,
    )

    abbrev pub with_tls : Config → Result (Option (TlsConfig os)) → S → Result (Server os R) × S
    with_tls c (err e) s = (err e, s)
    with_tls c (ok t) s =
        server_of c t (new_router (get_option c (codes "serverName") (codes "http")) c.debug s)

    abbrev pub configured : Config → Err → S → Result (Server os R) × S
    configured c (some e) s = (err e, s)
    configured c none s = with_tls c (server_tls_config os c.server_config) s

    unfoldable pub new_server : Option Config → S → Result (Server os R) × S
    unfolding validate get_option new_router
    new_server none s = (err err_nil_config, s)
    new_server (some c) s = configured c (validate c) s

    -- The method `NewServer` of a configuration.
    unfoldable pub config_new_server : Config → S → Result (Server os R) × S
    unfolding validate new_server
    config_new_server c s = elim (validate c) [ some e ↦ (err e, s) | none ↦ new_server (some c) s ]

module _ {os : Crypto} {R S : Type 0} (net : Net os R S) where
  unfoldable pub start : Server os R → S → Err × S
  unfolding serve
  start c s = serve net c.server s

  unfoldable pub shutdown : Server os R → S → Err × S
  shutdown c s = net.shutdown c.server s
