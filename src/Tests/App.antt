-- ===== src/Tests/App.antt =====
-- The application of sample/application/main.go on a toy library.
use blueprint.Prelude.{ℕ, pos, true, false, none, some, [], ◌∷◌, ◌≡◌, refl, codes, lookup, bytes_eq}
use blueprint.Errors.{Err, foreign, ok}
use blueprint.Config.Json.{Json, JsonProvider, new_json_provider, get_key, file}
use blueprint.Runtime.{Process, Outcome, exited, os_signal, context_done, init}
use blueprint.Servers.{Net, show_int, serve}
use blueprint.Servers.Http.{
  validate, get_option, new_router, new_server, new_server_config, config_new_server, start,
  shutdown,
}
use blueprint.Hashing.Scan.{show, show_fuel}
use blueprint.Tls.{server_tls_config}
use blueprint.Sample.{CliArgs, Libraries, in_loop, server_returned, add_hello, destructor, main}
use blueprint.Sample.Life.{later, down, main_exits, main_port_taken}
use blueprint.Tests.Certificates.{os}
use blueprint.Tests.Web.{gin, net, default_server}

-- Every file holds an object with the key `server`.
abbrev json : Json ℕ
json = record {
  object = λ t. ok ((codes "server", []) ∷ []);
  string = λ t. (t, none);
  bool = λ t. (true, none);
  int = λ t. (pos 0, none);
  float64 = λ t. (0, none);
  strings = λ t. ([], none);
  zero_float = 0;
  open_file = λ f. ok f;
}

abbrev libraries : Libraries ℕ ℕ ℕ ℕ
libraries = record {
  json = json;
  unmarshal = λ c t. (c, none);
  get = λ g p f r. r;
  write_json = λ n t c. n;
}

-- The port is taken.
abbrev busy_net : Net os ℕ ℕ
busy_net = record net { is_server_closed = λ e. false }

abbrev log_fatal : Err → Process ℕ → Outcome ℕ (Unit {0})
log_fatal arg p = exited (pos 1) p

abbrev args : CliArgs
args = record { config_file = codes "config.json"; show_version = false }

abbrev provider : JsonProvider
provider = record { config_data = (codes "server", []) ∷ [] }

source_read : new_json_provider json (file (codes "config.json")) ≡ ok provider
unfolding new_json_provider
source_read = refl

key_read :
    get_key json provider (libraries.unmarshal new_server_config) new_server_config (codes "server")
    ≡ (new_server_config, none)
unfolding get_key lookup bytes_eq
key_read = refl

built : config_new_server gin new_server_config 0 ≡ (ok default_server, 0)
unfolding config_new_server new_server validate get_option new_router new_server_config
    server_tls_config show_int show show_fuel lookup
built = refl

-- Two signals, the second after the end of `Start`.
main_exits_example :
    main libraries gin net log_fatal args
      (in_loop os_signal ∷ later (true ∷ false ∷ []) (in_loop context_done ∷ []))
      (init 0)
    ≡ exited (pos 0) (down 1)
unfolding start shutdown serve add_hello
main_exits_example =
    main_exits libraries gin net log_fatal args provider new_server_config default_server 0 0
      (true ∷ false ∷ []) [] refl source_read key_read built refl

main_port_taken_example :
    main libraries gin busy_net log_fatal args (server_returned ∷ []) (init 0)
    ≡ exited (pos 1) (record {
      app_destructors = some (record {
        calling = 0;
        handlers =
            destructor libraries gin busy_net log_fatal
              (add_hello libraries gin busy_net log_fatal default_server)
            ∷ [];
      });
      cancelled = false;
      world = 1;
    })
unfolding start serve add_hello
main_port_taken_example =
    main_port_taken libraries gin busy_net log_fatal args provider new_server_config default_server
      0 0 1 (foreign 1) [] (λ arg q. refl) refl source_read key_read built refl
