-- ===== src/Tls.antt =====
-- provider/tls: the configurations of TLS servers and clients. Files, PEM and X.509 belong to Go's
-- libraries, a `Crypto`; the constants of crypto/tls are numbers that it gives for their names.
mod Load
pub mod Versions
pub mod Client
use blueprint.Prelude.{
  ℕ, ltb, ◌==◌, Bytes, codes, bytes_eq, lookup, Bool, true, false, not, ◌&&◌, Option, none, some,
  List, [], ◌∷◌, map, if◌then◌else◌,
}
use blueprint.Errors.{
  Err, Result, ok, err, and_then, err_cert_not_found, err_invalid_pem, err_key_not_found,
  err_key_error, err_missing_password, err_decrypt_error, err_invalid_cert, err_invalid_cipher,
  err_invalid_tls_version, err_invalid_peer_cert, err_forbidden_dns,
}
unfoldable pub use Load.*

pub record ServerConfig : Type 0 where
  pub tls_cert : Bytes
  pub tls_key : Bytes
  pub tls_key_pwd : Bytes
  pub tls_allowed_cacerts : List Bytes
  pub tls_cipher_suites : List Bytes
  pub tls_min_version : Bytes
  pub tls_max_version : Bytes
  pub tls_allowed_dnsnames : List Bytes
  pub tls_enable : Bool

pub record ClientConfig : Type 0 where
  pub client_ca : Bytes
  pub client_cert : Bytes
  pub client_key : Bytes
  pub client_key_pwd : Bytes
  pub client_enable : Bool
  pub client_insecure_skip_verify : Bool

abbrev tls_version_names : List Bytes
tls_version_names = codes "TLS10" ∷ codes "TLS11" ∷ codes "TLS12" ∷ codes "TLS13" ∷ []

abbrev tls_cipher_names : List Bytes
tls_cipher_names = map codes (
    "TLS_ECDHE_RSA_WITH_CHACHA20_POLY1305" ∷ "TLS_ECDHE_ECDSA_WITH_CHACHA20_POLY1305"
    ∷ "TLS_ECDHE_RSA_WITH_AES_128_GCM_SHA256" ∷ "TLS_ECDHE_ECDSA_WITH_AES_128_GCM_SHA256"
    ∷ "TLS_ECDHE_RSA_WITH_AES_256_GCM_SHA384" ∷ "TLS_ECDHE_ECDSA_WITH_AES_256_GCM_SHA384"
    ∷ "TLS_ECDHE_RSA_WITH_AES_128_CBC_SHA256" ∷ "TLS_ECDHE_RSA_WITH_AES_128_CBC_SHA"
    ∷ "TLS_ECDHE_ECDSA_WITH_AES_128_CBC_SHA256" ∷ "TLS_ECDHE_ECDSA_WITH_AES_128_CBC_SHA"
    ∷ "TLS_ECDHE_RSA_WITH_AES_256_CBC_SHA" ∷ "TLS_ECDHE_ECDSA_WITH_AES_256_CBC_SHA"
    ∷ "TLS_RSA_WITH_AES_128_GCM_SHA256" ∷ "TLS_RSA_WITH_AES_256_GCM_SHA384"
    ∷ "TLS_RSA_WITH_AES_128_CBC_SHA256" ∷ "TLS_RSA_WITH_AES_128_CBC_SHA"
    ∷ "TLS_RSA_WITH_AES_256_CBC_SHA" ∷ "TLS_ECDHE_RSA_WITH_3DES_EDE_CBC_SHA"
    ∷ "TLS_RSA_WITH_3DES_EDE_CBC_SHA" ∷ "TLS_RSA_WITH_RC4_128_SHA"
    ∷ "TLS_ECDHE_RSA_WITH_RC4_128_SHA" ∷ "TLS_ECDHE_ECDSA_WITH_RC4_128_SHA"
    ∷ "TLS_AES_128_GCM_SHA256" ∷ "TLS_AES_256_GCM_SHA384" ∷ "TLS_CHACHA20_POLY1305_SHA256" ∷ [])

abbrev default_cipher_names : List Bytes
default_cipher_names = map codes (
    "TLS_ECDHE_ECDSA_WITH_AES_128_GCM_SHA256" ∷ "TLS_ECDHE_RSA_WITH_AES_256_GCM_SHA384"
    ∷ "TLS_ECDHE_RSA_WITH_AES_256_CBC_SHA" ∷ "TLS_RSA_WITH_AES_256_GCM_SHA384"
    ∷ "TLS_RSA_WITH_AES_256_CBC_SHA" ∷ [])

module _ (os : Crypto) where
  unfoldable pub parse_ciphers : List Bytes → Result (List ℕ)
  parse_ciphers [] = ok []
  parse_ciphers (s ∷ rest) =
      if contains_name s tls_cipher_names
      then and_then (parse_ciphers rest) (λ vs. ok (os.cipher_number s ∷ vs))
      else err err_invalid_cipher

  unfoldable pub parse_tls_version : Bytes → Result ℕ
  parse_tls_version s =
      if contains_name s tls_version_names
      then ok (os.version_number s)
      else err err_invalid_tls_version

  unfoldable pub set_client_cas : ServerConfig → TlsConfig os → Result (TlsConfig os)
  set_client_cas c t =
      if is_empty c.tls_allowed_cacerts
      then ok t
      else and_then (load_tls_cert_pool os c.tls_allowed_cacerts)
          (λ pool. ok (record t { client_cas = some pool; client_auth = true }))

  unfoldable pub set_certificate : ServerConfig → TlsConfig os → Result (TlsConfig os)
  set_certificate c t =
      if not (is_empty c.tls_cert) && not (is_empty c.tls_key)
      then load_tls_certificate os t c.tls_cert c.tls_key c.tls_key_pwd
      else ok t

  unfoldable pub set_ciphers : ServerConfig → TlsConfig os → Result (TlsConfig os)
  set_ciphers c t =
      if is_empty c.tls_cipher_suites
      then ok (record t { cipher_suites = map os.cipher_number default_cipher_names })
      else and_then (parse_ciphers c.tls_cipher_suites) (λ vs. ok (record t { cipher_suites = vs }))

  unfoldable pub set_max_version : ServerConfig → TlsConfig os → Result (TlsConfig os)
  set_max_version c t =
      if is_empty c.tls_max_version
      then ok t
      else and_then (parse_tls_version c.tls_max_version) (λ v. ok (record t { max_version = v }))

  -- TLSMinVersionDefault is TLS 1.2.
  unfoldable pub set_min_version : ServerConfig → TlsConfig os → Result (TlsConfig os)
  set_min_version c t =
      if is_empty c.tls_min_version
      then ok (record t { min_version = os.version_number (codes "TLS12") })
      else and_then (parse_tls_version c.tls_min_version) (λ v. ok (record t { min_version = v }))

  unfoldable pub set_verify_peer : ServerConfig → TlsConfig os → Result (TlsConfig os)
  set_verify_peer c t =
      if not (t.min_version == 0) && not (t.max_version == 0) && ltb t.max_version t.min_version
      then err err_invalid_tls_version
      else if not (is_empty c.tls_allowed_cacerts) && not (is_empty c.tls_allowed_dnsnames)
      then ok (record t { verify_peer = true })
      else ok t

  abbrev pub nothing_set : ServerConfig → Bool
  nothing_set c = is_empty c.tls_cert && is_empty c.tls_key && is_empty c.tls_allowed_cacerts

  unfoldable pub full_config : ServerConfig → Result (TlsConfig os)
  full_config c = and_then (set_client_cas c (empty_config os)) (λ t1.
      and_then (set_certificate c t1) (λ t2. and_then (set_ciphers c t2) (λ t3.
        and_then (set_max_version c t3)
          (λ t4. and_then (set_min_version c t4) (set_verify_peer c)))))

  -- No configuration and no error is `ok none`.
  unfoldable pub server_tls_config : ServerConfig → Result (Option (TlsConfig os))
  unfolding full_config
  server_tls_config c =
      if not c.tls_enable
      then ok none
      else if nothing_set c
      then ok (some (empty_config os))
      else and_then (full_config c) (λ t. ok (some t))

  abbrev pub allowed_name : List Bytes → List Bytes → Err
  allowed_name [] allowed = some err_forbidden_dns
  allowed_name (name ∷ names) allowed =
      if contains_name name allowed then none else allowed_name names allowed

  -- The certificate the client sent first.
  unfoldable pub verify_peer_certificate : ServerConfig → Bytes → Err
  verify_peer_certificate c raw = elim (os.dns_names raw) [
    | none ↦ some err_invalid_peer_cert
    | some names ↦ allowed_name names c.tls_allowed_dnsnames
  ]

  unfoldable pub set_root_cas : ClientConfig → TlsConfig os → Result (TlsConfig os)
  set_root_cas c t =
      if is_empty c.client_ca
      then ok t
      else and_then (load_tls_cert_pool os (c.client_ca ∷ []))
          (λ pool. ok (record t { root_cas = some pool }))

  unfoldable pub set_client_certificate : ClientConfig → TlsConfig os → Result (TlsConfig os)
  set_client_certificate c t =
      if not (is_empty c.client_cert) && not (is_empty c.client_key)
      then load_tls_certificate os t c.client_cert c.client_key c.client_key_pwd
      else ok t

  abbrev pub nothing_named : ClientConfig → Bool
  nothing_named c = is_empty c.client_ca && is_empty c.client_key && is_empty c.client_cert

  abbrev pub asked_config : ClientConfig → TlsConfig os
  asked_config c = record (empty_config os) { insecure_skip_verify = c.client_insecure_skip_verify }

  unfoldable pub full_client_config : ClientConfig → Result (TlsConfig os)
  full_client_config c = and_then (set_root_cas c (asked_config c)) (set_client_certificate c)

  unfoldable pub client_tls_config : ClientConfig → Result (Option (TlsConfig os))
  unfolding full_client_config
  client_tls_config c =
      if not c.client_enable
      then ok none
      else if nothing_named c
      then ok (some (empty_config os))
      else and_then (full_client_config c) (λ t. ok (some t))
