-- ===== src/Tests/Web.antt =====
-- A server of provider/httpserver, on a toy library.
use blueprint.Prelude.{
  ℕ, suc, Bytes, Bool, true, false, Option, none, some, List, [], ◌∷◌, ◌≡◌, refl, codes,
}
use blueprint.Errors.{ok, foreign}
use blueprint.Hashing.Scan.{show, show_fuel}
use blueprint.Tls.{server_tls_config}
use blueprint.Servers.{Net, show_int}
use blueprint.Servers.Http.{
  Gin, Server, new_server_config, validate, get_option, new_router, new_server, start,
}
use blueprint.Servers.Encrypted.{serve_as, start-new_server}
use blueprint.Tests.Certificates.{os}

-- A router is the number of its middlewares, a request is its number, and the world counts the
-- calls.
abbrev pub gin : Gin ℕ ℕ ℕ ℕ
gin = record {
  set_release_mode = λ s. s;
  new = 0;
  logger = λ n c. c;
  recovery = λ c. c;
  add = λ f r. suc r;
  group = λ p r. r;
  header = λ n c. [];
  next = λ c. c;
  abort_with_status = λ n c. n;
  abort_with_status_json = λ n j c. n;
  status_text = λ n. codes "Unauthorized";
}

abbrev pub net : Net os ℕ ℕ
net = record {
  listen_and_serve = λ h s. (foreign 1, suc s);
  listen_and_serve_tls = λ h s. (foreign 2, suc s);
  is_server_closed = λ e. elim e [ foreign n ↦ true | _ ↦ false ];
  shutdown = λ h s. (none, s);
}

abbrev pub default_server : Server os ℕ
default_server = record {
  config = new_server_config;
  router = 2;
  server = record {
    addr = codes ":5000";
    handler = 2;
    read_timeout = 600000000000;
    write_timeout = 600000000000;
    tls_config = none;
  };
}

server_made : (new_server gin (some new_server_config) 0).0 ≡ ok default_server
unfolding new_server validate get_option new_router new_server_config server_tls_config show_int
    show show_fuel blueprint.Prelude.lookup
server_made = refl

start-new_server_example : start net default_server 4 ≡ serve_as net false default_server.server 4
unfolding new_server_config
start-new_server_example = start-new_server net gin new_server_config 0 default_server server_made 4
