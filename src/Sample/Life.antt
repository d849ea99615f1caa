-- ===== src/Sample/Life.antt =====
-- How the application of sample/application/main.go ends, from `main` to the exit of the process.
use blueprint.Prelude.{
  codes, Bool, true, false, ◌||◌, ◌≡◌, refl, ap, ◌∙◌, none, some, List, [], ◌∷◌, pos, arith,
  if◌then◌else◌,
}
use blueprint.Errors.{Error, Err, ok}
use blueprint.CallStack.{CallStack, add, new_call_stack}
use blueprint.Config.Json.{JsonProvider, new_json_provider, get_key, file}
use blueprint.Runtime.{
  Process, Outcome, done, exited, Container, os_signal, context_done, new_container, init, ◌>>=◌,
  register_destructor, abort_fatal, run_main, main_loop, terminate, cancel_ctx,
}
use blueprint.Runtime.Exit.{closed, shutdown_nil, abort_fatal_lem}
use blueprint.Servers.{Net}
use blueprint.Servers.Http.{Config, Gin, Server, new_server_config, config_new_server, start}
use blueprint.Servers.Http as Http
use blueprint.Tls.{Crypto}
use blueprint.Sample.{
  CliArgs, AppEvent, in_loop, server_returned, Libraries, new_application, add_hello, with_made,
  build, serving, destructor, run_server, run, main,
}

-- After the first signal: ends of `Start` and further signals, in any order, before the loop sees
-- that the context is cancelled.
abbrev pub later : List Bool → List AppEvent → List AppEvent
later [] events = events
later (true ∷ bs) events = server_returned ∷ later bs events
later (false ∷ bs) events = in_loop os_signal ∷ later bs events

abbrev pub returned : List Bool → Bool
returned [] = false
returned (b ∷ bs) = b || returned bs

-- A process that is shut down.
abbrev pub down : {W : Type 0} → W → Process W
down w = record { app_destructors = none; cancelled = true; world = w }

module _ {F R G C W : Type 0} {os : Crypto} (lib : Libraries F R G C) (gin : Gin R G C W)
    (net : Net os R W) (log_fatal : Err → Process W → Outcome W (Unit {0})) where
  later_stopped :
      (cfg : JsonProvider) (h : Server os R) (bs : List Bool) (rest : List AppEvent) (w : W)
      → serving lib gin net log_fatal
          (new_container cfg)
          h
          (later bs (in_loop context_done ∷ rest))
          false
          (down w)
        ≡ exited (pos 0) (down w)
  unfolding serving main_loop cancel_ctx new_container
  later_stopped cfg h [] rest w = ground arith
  later_stopped cfg h (true ∷ bs) rest w = later_stopped cfg h bs rest w
  later_stopped cfg h (false ∷ bs) rest w = later_stopped cfg h bs rest w

  later_running :
      (cfg : JsonProvider) (h : Server os R) (bs : List Bool) (rest : List AppEvent) (w : W)
      → (start net h w).0 ≡ none
      → serving lib gin net log_fatal
          (new_container cfg)
          h
          (later bs (in_loop context_done ∷ rest))
          true
          (down w)
        ≡ exited (pos 0) (down (if returned bs then (start net h w).1 else w))
  unfolding serving main_loop cancel_ctx new_container
  later_running cfg h [] rest w e = ground arith
  later_running cfg h (true ∷ bs) rest w e =
      let u = (start net h w).1 in
      ap
        (λ o. abort_fatal log_fatal (new_container cfg) o (down u) >>= λ _ q.
          serving lib gin net log_fatal (new_container cfg) h
            (later bs (in_loop context_done ∷ rest)) false q)
        e
      ∙ (unfold abort_fatal in later_stopped cfg h bs rest u)
  later_running cfg h (false ∷ bs) rest w e = later_running cfg h bs rest w e

  signal_lem :
      (cfg : JsonProvider) (p : Process W) (s : CallStack W)
      → p.app_destructors ≡ some s
      → main_loop log_fatal (new_container cfg) (os_signal ∷ []) p
        ≡ done tt (cancel_ctx (closed s p))
  unfolding main_loop new_container
  signal_lem cfg p s e =
      ap (λ o. o >>= λ _ q. done tt (cancel_ctx q)) (shutdown_nil log_fatal p s e)

  -- A signal, then the rest, on a server that has been registered and started.
  serving_lem :
      (cfg : JsonProvider) (h : Server os R) (bs : List Bool) (rest : List AppEvent) (w : W)
      → (start net h (Http.shutdown net h w).1).0 ≡ none
      → let u = (Http.shutdown net h w).1 in
        run_server lib gin net log_fatal
          (new_container cfg)
          h
          (in_loop os_signal ∷ later bs (in_loop context_done ∷ rest))
          (init w)
        ≡ exited (pos 0) (down (if returned bs then (start net h u).1 else u))
  unfolding run_server serving init register_destructor run_main add new_call_stack cancel_ctx
      new_container
  serving_lem cfg h bs rest w e =
      let s : CallStack W = record {
        calling = 0;
        handlers = destructor lib gin net log_fatal h ∷ [];
      } in
      let p : Process W = record { app_destructors = some s; cancelled = false; world = w } in
      ap
        (λ o. o >>= λ _ q.
          serving lib gin net log_fatal (new_container cfg) h
            (later bs (in_loop context_done ∷ rest)) true q)
        (signal_lem cfg p s refl)
      ∙ later_running cfg h bs rest _ e

  abort_lem :
      (c : Container JsonProvider) (e : Error) (p : Process W) (s : CallStack W)
      (k : Process W → Outcome W (Unit {0}))
      → ((arg : Err) (q : Process W) → log_fatal arg q ≡ exited (pos 1) q)
      → p.app_destructors ≡ some s
      → (abort_fatal log_fatal c (some e) p >>= λ _ q. k q) ≡ exited (pos 1) p
  abort_lem c e p s k fatal h =
      ap (λ o. o >>= λ _ q. k q)
        (abort_fatal_lem log_fatal c e p fatal
          ∙ ap (λ o. elim o [ none ↦ terminate c (some e) p | some s ↦ exited (pos 1) p ]) h)

  -- Built from its configuration: what `main` does from there on.
  main_built :
      (args : CliArgs) (cfg : JsonProvider) (config : Config) (h : Server os R) (w v : W)
      (events : List AppEvent)
      → args.show_version ≡ false
      → new_json_provider lib.json (file args.config_file) ≡ ok cfg
      → get_key lib.json cfg (lib.unmarshal new_server_config) new_server_config (codes "server")
        ≡ (config, none)
      → config_new_server gin config w ≡ (ok h, v)
      → main lib gin net log_fatal args events (init w)
        ≡ run_server lib gin net log_fatal
            (new_container cfg)
            (add_hello lib gin net log_fatal h)
            events
            (init v)
  unfolding main new_application build with_made run new_container init abort_fatal
  main_built args cfg config h w v events run_it source key made_server =
      rw (run_it, source, key, made_server) refl

  -- An application whose configuration can be read and whose server can be made, where `Start`
  -- returns nil once the server has been shut down: at the first signal the server is shut down,
  -- once, and the process ends with code 0 when the loop sees that its context is cancelled,
  -- whatever further signals come before that, and whether or not `Start` has returned by then.
  pub main_exits :
      (args : CliArgs) (cfg : JsonProvider) (config : Config) (h : Server os R) (w v : W)
      (bs : List Bool) (rest : List AppEvent)
      → args.show_version ≡ false
      → new_json_provider lib.json (file args.config_file) ≡ ok cfg
      → get_key lib.json cfg (lib.unmarshal new_server_config) new_server_config (codes "server")
        ≡ (config, none)
      → config_new_server gin config w ≡ (ok h, v)
      → let served = add_hello lib gin net log_fatal h in
        let u = (Http.shutdown net served v).1 in
        (start net served u).0 ≡ none
        → let served = add_hello lib gin net log_fatal h in
          let u = (Http.shutdown net served v).1 in
          main lib gin net log_fatal args
            (in_loop os_signal ∷ later bs (in_loop context_done ∷ rest))
            (init w)
          ≡ exited (pos 0) (down (if returned bs then (start net served u).1 else u))
  main_exits args cfg config h w v bs rest run_it source key made_server ends =
      main_built args cfg config h w v _ run_it source key made_server
      ∙ serving_lem cfg (add_hello lib gin net log_fatal h) bs rest v ends

  -- The same application, where `Start` fails before any signal, as on a port that is taken, and
  -- the log's fatal level ends the process with status 1: the process ends so, and its only
  -- destructor, the one that shuts the server down, has not run.
  pub main_port_taken :
      (args : CliArgs) (cfg : JsonProvider) (config : Config) (h : Server os R) (w v u : W)
      (e : Error) (rest : List AppEvent)
      → ((arg : Err) (q : Process W) → log_fatal arg q ≡ exited (pos 1) q)
      → args.show_version ≡ false
      → new_json_provider lib.json (file args.config_file) ≡ ok cfg
      → get_key lib.json cfg (lib.unmarshal new_server_config) new_server_config (codes "server")
        ≡ (config, none)
      → config_new_server gin config w ≡ (ok h, v)
      → start net (add_hello lib gin net log_fatal h) v ≡ (some e, u)
      → main lib gin net log_fatal args (server_returned ∷ rest) (init w)
        ≡ exited (pos 1) (record {
          app_destructors = some (record {
            calling = 0;
            handlers = destructor lib gin net log_fatal (add_hello lib gin net log_fatal h) ∷ [];
          });
          cancelled = false;
          world = u;
        })
  main_port_taken args cfg config h w v u e rest fatal run_it source key made_server fails =
      main_built args cfg config h w v _ run_it source key made_server
      ∙ (unfold run_server serving init register_destructor run_main add new_call_stack in
          rw fails (abort_lem (new_container cfg) e _ _ _ fatal refl))
