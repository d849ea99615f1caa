-- ===== src/Tls/Versions.antt =====
-- What holds of a server configuration that provider/tls/server.go returns without an error, and
-- which client certificates its callback accepts.
use blueprint.Prelude.{
  ◌≤◌, Bytes, bytes_eq_refl, true, false, not, ◌&&◌, none, some, List, [], ◌∷◌, ◌≡◌, refl, ◌∙◌,
  Bool-cases, Option-cases, inl, inr, ◌⊎◌, arith,
}
use blueprint.Errors.{ok, and_then-ok}
use blueprint.Tls.{
  Crypto, ServerConfig, TlsConfig, empty_config, is_empty, contains_name, load_tls_certificate,
  set_client_cas, set_certificate, set_ciphers, set_max_version, set_min_version, set_verify_peer,
  nothing_set, full_config, server_tls_config, verify_peer_certificate, allowed_name,
}

module _ (os : Crypto) where
  -- Neither of the two switches is touched.
  record SameChecks (t t' : TlsConfig os) : Type 0 where
    auth : t'.client_auth ≡ t.client_auth
    peer : t'.verify_peer ≡ t.verify_peer

  -- The versions accepted are a range, client certificates are asked for exactly where CAs are
  -- configured, and their names are checked exactly where names are configured too.
  pub record IsSecure (c : ServerConfig) (t : TlsConfig os) : Type 0 where
    pub range : (t.max_version ≡ 0) ⊎ (t.min_version ≤ t.max_version)
    pub asked : t.client_auth ≡ not (is_empty c.tls_allowed_cacerts)
    pub checked :
        t.verify_peer
        ≡ (not (is_empty c.tls_allowed_cacerts) && not (is_empty c.tls_allowed_dnsnames))

  module _ (c : ServerConfig) (t t' : TlsConfig os) where
    set_client_cas-asked :
        set_client_cas os c t ≡ ok t'
        → t.client_auth ≡ false
        → (t'.client_auth ≡ not (is_empty c.tls_allowed_cacerts)) × (t'.verify_peer ≡ t.verify_peer)
    unfolding set_client_cas
    set_client_cas-asked e a = (ground (arith, e, a), ground (arith, e))

    set_certificate-SameChecks : set_certificate os c t ≡ ok t' → SameChecks t t'
    unfolding set_certificate load_tls_certificate
    set_certificate-SameChecks e = record { auth = ground (arith, e); peer = ground (arith, e) }

    set_ciphers-SameChecks : set_ciphers os c t ≡ ok t' → SameChecks t t'
    unfolding set_ciphers
    set_ciphers-SameChecks e = record { auth = ground (arith, e); peer = ground (arith, e) }

    set_max_version-SameChecks : set_max_version os c t ≡ ok t' → SameChecks t t'
    unfolding set_max_version
    set_max_version-SameChecks e = record { auth = ground (arith, e); peer = ground (arith, e) }

    set_min_version-SameChecks : set_min_version os c t ≡ ok t' → SameChecks t t'
    unfolding set_min_version
    set_min_version-SameChecks e = record { auth = ground (arith, e); peer = ground (arith, e) }

    set_verify_peer-IsSecure :
        set_verify_peer os c t ≡ ok t'
        → t.client_auth ≡ not (is_empty c.tls_allowed_cacerts)
        → t.verify_peer ≡ false
        → IsSecure c t'
    unfolding set_verify_peer
    set_verify_peer-IsSecure e a v = record {
      range = ground arith;
      asked = ground arith;
      checked = ground arith;
    }

  full_config-IsSecure :
      (c : ServerConfig) (t : TlsConfig os) → full_config os c ≡ ok t → IsSecure c t
  unfolding full_config
  full_config-IsSecure c t e =
      let (t1, e1, r1) = and_then-ok (set_client_cas os c (empty_config os)) _ t e in
      let (t2, e2, r2) = and_then-ok (set_certificate os c t1) _ t r1 in
      let (t3, e3, r3) = and_then-ok (set_ciphers os c t2) _ t r2 in
      let (t4, e4, r4) = and_then-ok (set_max_version os c t3) _ t r3 in
      let (t5, e5, r5) = and_then-ok (set_min_version os c t4) _ t r4 in
      let (a, v) = set_client_cas-asked c (empty_config os) t1 e1 refl in
      let k2 = set_certificate-SameChecks c t1 t2 e2 in
      let k3 = set_ciphers-SameChecks c t2 t3 e3 in
      let k4 = set_max_version-SameChecks c t3 t4 e4 in
      let k5 = set_min_version-SameChecks c t4 t5 e5 in
      set_verify_peer-IsSecure c t5 t r5 (k5.auth ∙ k4.auth ∙ k3.auth ∙ k2.auth ∙ a)
        (k5.peer ∙ k4.peer ∙ k3.peer ∙ k2.peer ∙ v)

  -- A configuration returned for a server that names a certificate, a key or a CA is secure: its
  -- versions are a range, and client certificates are asked for and checked as configured.
  pub server_tls_config-IsSecure :
      (c : ServerConfig) (t : TlsConfig os)
      → nothing_set os c ≡ false
      → server_tls_config os c ≡ ok (some t)
      → IsSecure c t
  unfolding server_tls_config
  server_tls_config-IsSecure c t n e = full_config-IsSecure c t (ground arith)

  allowed_name_lem :
      (names allowed : List Bytes)
      → allowed_name os names allowed ≡ none
      → (name : Bytes) × (contains_name name names ≡ true) × (contains_name name allowed ≡ true)
  unfolding contains_name
  allowed_name_lem [] allowed e = ground arith
  allowed_name_lem (name ∷ names) allowed e = elim (Bool-cases (contains_name name allowed)) [
    | inl h ↦ (name, ground (arith, bytes_eq_refl name), h)
    | inr h ↦
        let (found, m, a) = allowed_name_lem names allowed (ground arith) in
        (found, ground (arith, m), a)
  ]

  -- An accepted peer certificate could be read, and one of its DNS names is an allowed name.
  pub verify_peer_certificate_lem :
      (c : ServerConfig) (raw : Bytes)
      → verify_peer_certificate os c raw ≡ none
      → (names : List Bytes) × (name : Bytes) × (os.dns_names raw ≡ some names)
        × (contains_name name names ≡ true)
        × (contains_name name c.tls_allowed_dnsnames ≡ true)
  unfolding verify_peer_certificate
  verify_peer_certificate_lem c raw e = elim (Option-cases (os.dns_names raw)) [
    | inl n ↦ ground (arith, n, e)
    | inr (names, n) ↦
        let (name, m, a) = allowed_name_lem names c.tls_allowed_dnsnames (ground (arith, n, e)) in
        (names, name, n, m, a)
  ]
