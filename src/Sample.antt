-- ===== src/Sample.antt =====
-- sample/application/main.go: an application of the framework, with a JSON configuration, a
-- container and an HTTP server. encoding/json, gin, net/http and zerolog are parameters; what is
-- printed is left out, and `log_fatal` is as in Runtime.
pub mod Life
use blueprint.Prelude.{
  ℕ, Bytes, codes, Bool, true, false, Option, none, some, List, [], ◌∷◌, pos, negsuc, if◌then◌else◌,
}
use blueprint.Errors.{Err, Result, ok, err}
use blueprint.CallStack.{CallableFn}
use blueprint.Config.Json.{Json, JsonProvider, new_json_provider, get_key, file}
use blueprint.Runtime.{
  Process, Outcome, done, exited, panicked, Container, Event, ◌>>=◌, new_container,
  register_destructor, abort_fatal, run_main, main_loop,
}
use blueprint.Servers.{Net}
use blueprint.Servers.Http.{
  Config, Gin, Server, new_server_config, config_new_server, route, group, start, shutdown,
}
use blueprint.Tls.{Crypto}

pub record CliArgs : Type 0 where
  pub config_file : Bytes
  pub show_version : Bool

-- A built application has its server.
pub record Application (Srv : Type 0) : Type 0 where
  pub container : Container JsonProvider
  pub args : CliArgs
  pub http_server : Option Srv

-- What the process waits for: the main loop of the container, or the end of `Start` in the
-- goroutine that serves.
pub data AppEvent : Type 0 where
  in_loop : Event → AppEvent
  server_returned : AppEvent

-- What the application takes from encoding/json and gin: `unmarshal` reads a server configuration
-- over another one, and `get` adds a handler below a group, whose router is shared.
pub record Libraries (F R G C : Type 0) : Type 0 where
  pub json : Json F
  pub unmarshal : Config → Bytes → Config × Err
  pub get : G → Bytes → (C → C) → R → R
  pub write_json : ℕ → Bytes → C → C

module _ {F : Type 0} (json : Json F) {Srv : Type 0} where
  unfoldable pub new_application : CliArgs → Result (Application Srv)
  unfolding new_container
  new_application args = elim (new_json_provider json (file args.config_file)) [
    | err e ↦ err e
    | ok cfg ↦ ok (record { container = new_container cfg; args = args; http_server = none })
  ]

module _ {F R G C W : Type 0} {os : Crypto} (lib : Libraries F R G C) (gin : Gin R G C W)
    (net : Net os R W) (log_fatal : Err → Process W → Outcome W (Unit {0})) where
  -- The http.Server has the same router.
  unfoldable pub add_hello : Server os R → Server os R
  add_hello h =
      let hello : C → C = lib.write_json 200 (codes "Hello World") in
      let add : R → R = lib.get (group gin (codes "/v1") h) (codes "/hello") hello in
      record h {
        router = add (route gin h);
        server = record h.server { handler = add h.server.handler };
      }

  -- What follows `NewServer`: `AbortFatal` of an error does not return.
  unfoldable pub with_made :
      Application (Server os R)
      → Result (Server os R) × W
      → Process W
      → Outcome W (Application (Server os R))
  unfolding add_hello
  with_made a (err e, w) p =
      abort_fatal log_fatal a.container (some e) (record p { world = w }) >>= λ _ q. done a q
  with_made a (ok h, w) p =
      done (record a { http_server = some (add_hello h) }) (record p { world = w })

  unfoldable pub build :
      Application (Server os R) → Process W → Outcome W (Application (Server os R))
  unfolding with_made
  build a p =
      let (http_config, e) =
        get_key lib.json a.container.config (lib.unmarshal new_server_config) new_server_config
          (codes "server") in
      abort_fatal log_fatal a.container e p >>= λ _ q.
      with_made a (config_new_server gin http_config q.world) q

  -- The main loop, and the goroutine that serves: its `Start` is over at `server_returned`.
  unfoldable pub serving :
      Container JsonProvider → Server os R → List AppEvent → Bool → Process W → Outcome W (Unit {0})
  serving c h [] running p = done tt p
  serving c h (in_loop e ∷ events) running p =
      main_loop log_fatal c (e ∷ []) p >>= λ _ q. serving c h events running q
  serving c h (server_returned ∷ events) false p = serving c h events false p
  serving c h (server_returned ∷ events) true p =
      let (e, w) = start net h p.world in
      abort_fatal log_fatal c e (record p { world = w }) >>= λ _ q. serving c h events false q

  abbrev pub destructor : Server os R → CallableFn W
  destructor h flag w = shutdown net h w

  unfoldable pub run_server :
      Container JsonProvider → Server os R → List AppEvent → Process W → Outcome W (Unit {0})
  unfolding serving
  run_server c h events p = register_destructor (destructor h) p >>= λ _ q.
      run_main log_fatal c ((λ r. done none r) ∷ []) q >>= λ _ r. serving c h events true r

  -- `Run` of an application that was not built dereferences nil, at the latest in the destructor.
  unfoldable pub run : Application (Server os R) → List AppEvent → Process W → Outcome W (Unit {0})
  unfolding run_server
  run a events p = elim a.http_server [
    | none ↦ panicked
    | some h ↦ run_server a.container h events p
  ]

  unfoldable pub main : CliArgs → List AppEvent → Process W → Outcome W (Unit {0})
  unfolding new_application build run
  main args events p =
      if args.show_version then exited (pos 0) p else (elim (new_application lib.json args) [
        | err e ↦ exited (negsuc 0) p
        | ok app ↦ build app p >>= λ a q. run a events q
      ])
