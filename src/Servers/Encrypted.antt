-- ===== src/Servers/Encrypted.antt =====
-- How the servers of provider/httpserver and provider/metrics serve what they were configured for.
use blueprint.Prelude.{
  Bytes, Option-cases, if◌then◌else◌, Bool, true, false, Option, none, some, ◌≡◌, refl, sym, ap,
  ◌∙◌, arith, inl, inr,
}
use blueprint.Errors.{Error, Err, Result, ok, err, and_then-ok}
use blueprint.Tls.{Crypto, ServerConfig, TlsConfig, server_tls_config}
use blueprint.Servers.{HttpServer, Net, serve, served}
use blueprint.Servers.Http.{Gin, configured}
use blueprint.Servers.Http
use blueprint.Servers.Metrics

module _ {os : Crypto} {Handler S : Type 0} (net : Net os Handler S) where
  -- No error if the one at the end says that the server was closed, and that error otherwise.
  abbrev pub but_closed : Bool → Error → Err
  but_closed true e = none
  but_closed false e = some e

  abbrev pub ended : Error × S → Err × S
  ended r = (but_closed (net.is_server_closed r.0) r.0, r.1)

  -- Served with TLS, or in the clear.
  abbrev pub serve_as : Bool → HttpServer os Handler → S → Err × S
  serve_as true h s = ended (net.listen_and_serve_tls h s)
  serve_as false h s = ended (net.listen_and_serve h s)

  served-ended : (r : Error × S) → served net r ≡ ended r
  served-ended (e, s) =
      elim (net.is_server_closed e)
        as (λ b. ◌≡◌ {A = Err × S} (if b then none else some e, s) (but_closed b e, s)) [
          | true ↦ refl
          | false ↦ refl
        ]

  abbrev encrypts : Option (TlsConfig os) → Bool
  encrypts none = false
  encrypts (some t) = true

  server_tls_config-encrypts :
      (c : ServerConfig) (o : Option (TlsConfig os))
      → server_tls_config os c ≡ ok o
      → encrypts o ≡ c.tls_enable
  unfolding server_tls_config
  server_tls_config-encrypts c o e = ground arith

  abbrev served_by : Option (TlsConfig os) → HttpServer os Handler → S → Err × S
  served_by o h s = elim o [
    | none ↦ served net (net.listen_and_serve h s)
    | some t ↦ served net (net.listen_and_serve_tls h s)
  ]

  serve-some :
      (h : HttpServer os Handler) (s : S) (t : TlsConfig os)
      → h.tls_config ≡ some t
      → serve net h s ≡ serve_as true h s
  unfolding serve
  serve-some h s t e = ap (λ o. served_by o h s) e ∙ served-ended (net.listen_and_serve_tls h s)

  serve-none :
      (h : HttpServer os Handler) (s : S) → h.tls_config ≡ none → serve net h s ≡ serve_as false h s
  unfolding serve
  serve-none h s e = ap (λ o. served_by o h s) e ∙ served-ended (net.listen_and_serve h s)

  serve-as :
      (h : HttpServer os Handler) (s : S) (b : Bool)
      → encrypts h.tls_config ≡ b
      → serve net h s ≡ serve_as b h s
  serve-as h s b e = elim (Option-cases h.tls_config) [
    | inl n ↦
        let same : false ≡ b = ap encrypts (sym n) ∙ e in
        serve-none h s n ∙ ap (λ x. serve_as x h s) same
    | inr (t, o) ↦
        let same : true ≡ b = ap encrypts (sym o) ∙ e in
        serve-some h s t o ∙ ap (λ x. serve_as x h s) same
  ]

  module _ {G C : Type 0} (gin : Gin Handler G C S) where
    with_tls-ok :
        (c : Http.Config) (r : Result (Option (TlsConfig os))) (s : S)
        (srv : Http.Server os Handler)
        → (Http.with_tls gin c r s).0 ≡ ok srv
        → r ≡ ok srv.server.tls_config
    with_tls-ok c (err e) s srv h = ground arith
    with_tls-ok c (ok t) s srv h = ground arith

    -- A server that was made for a configuration serves with TLS exactly if TLS is enabled in it,
    -- and never falls back to serving in the clear. `Start` returns the error at the end, or nil if
    -- that says that the server was closed.
    pub start-new_server :
        (c : Http.Config) (s : S) (srv : Http.Server os Handler)
        → (Http.new_server gin (some c) s).0 ≡ ok srv
        → (t : S) → Http.start net srv t ≡ serve_as c.server_config.tls_enable srv.server t
    unfolding Http.new_server Http.start Http.validate
    start-new_server c s srv made t = serve-as srv.server t c.server_config.tls_enable (
        server_tls_config-encrypts c.server_config srv.server.tls_config
          (with_tls-ok c (server_tls_config os c.server_config) s srv made))

  -- The same of the server of the metrics.
  start-new_custom_server :
      (handle : Bytes → Handler → Handler) (c : Metrics.Config) (h : Handler)
      (srv : Metrics.Server os Handler)
      → Metrics.new_custom_server handle (some c) h ≡ ok srv
      → (t : S) → Metrics.start net srv t ≡ serve_as c.server_config.tls_enable srv.server t
  unfolding Metrics.new_custom_server Metrics.start Metrics.validate
  start-new_custom_server handle c h srv made t =
      let (o, o_ok, srv_eq) = and_then-ok (server_tls_config os c.server_config) _ srv made in
      serve-as srv.server t c.server_config.tls_enable (
        server_tls_config-encrypts c.server_config srv.server.tls_config
          (o_ok ∙ ap ok (ground (arith, srv_eq))))
