-- ===== src/Tls/Client.antt =====
-- What a client configuration of provider/tls/client.go turns into.
use blueprint.Prelude.{
  Bool, true, false, not, ◌&&◌, Option, none, some, ◌≡◌, arith, Bool-cases, inl, inr,
}
use blueprint.Errors.{ok, and_then-ok}
use blueprint.Tls.{
  Crypto, ClientConfig, TlsConfig, is_empty, load_tls_certificate, set_root_cas, client_tls_config,
  set_client_certificate, nothing_named, asked_config, full_client_config,
}

abbrev has_cas : {A : Type 0} → Option A → Bool
has_cas none = false
has_cas (some a) = true

module _ (os : Crypto) where
  -- Whether the check of the server's certificate is skipped, and whether own CAs replace the
  -- system's.
  pub record IsAsked (c : ClientConfig) (t : TlsConfig os) : Type 0 where
    pub skips : t.insecure_skip_verify ≡ (not (nothing_named os c) && c.client_insecure_skip_verify)
    pub checks : has_cas t.root_cas ≡ not (is_empty c.client_ca)

  module _ (c : ClientConfig) (n : nothing_named os c ≡ false) where
    set_root_cas-IsAsked :
        (t : TlsConfig os) → set_root_cas os c (asked_config os c) ≡ ok t → IsAsked c t
    unfolding set_root_cas
    set_root_cas-IsAsked t e = record { skips = ground (arith, n, e); checks = ground (arith, e) }

    set_client_certificate-IsAsked :
        (t t' : TlsConfig os) → IsAsked c t → set_client_certificate os c t ≡ ok t' → IsAsked c t'
    unfolding set_client_certificate load_tls_certificate
    set_client_certificate-IsAsked t t' h e = record {
      skips = ground (arith, h.skips, e);
      checks = ground (arith, h.checks, e);
    }

    full_client_config-IsAsked : (t : TlsConfig os) → full_client_config os c ≡ ok t → IsAsked c t
    unfolding full_client_config
    full_client_config-IsAsked t e =
        let (t1, e1, r1) = and_then-ok (set_root_cas os c (asked_config os c)) _ t e in
        set_client_certificate-IsAsked t1 t (set_root_cas-IsAsked t1 e1) r1

  -- A configuration returned for a client has CAs of its own exactly if one is named, and skips the
  -- check of the server's certificate exactly if it was asked to and a CA, a certificate or a key
  -- is named: for a client that names none of them the wish to skip the check is lost.
  pub client_tls_config-IsAsked :
      (c : ClientConfig) (t : TlsConfig os) → client_tls_config os c ≡ ok (some t) → IsAsked c t
  unfolding client_tls_config
  client_tls_config-IsAsked c t e = elim (Bool-cases (nothing_named os c)) [
    | inl n ↦ record { skips = ground (arith, n, e); checks = ground (arith, n, e) }
    | inr n ↦ full_client_config-IsAsked c n t (ground arith)
  ]
