-- ===== src/Tls/Load.antt =====
-- provider/tls/load.go: certificates read from files, and what the configurations share.
use blueprint.Prelude.{
  ℕ, Bytes, codes, bytes_eq, Bool, true, false, Option, none, some, List, [], ◌∷◌, if◌then◌else◌,
}
use blueprint.Errors.{
  Result, ok, err, and_then, err_cert_not_found, err_invalid_pem, err_key_not_found, err_key_error,
  err_missing_password, err_decrypt_error, err_invalid_cert,
}

pub record PemBlock : Type 0 where
  pub block_type : Bytes
  pub block_bytes : Bytes

-- `append_certs_from_pem` gives the pool afterwards and whether a certificate was parsed.
-- `parse_pkcs8` gives a key, an RSA one or another.
pub record Crypto : Type 1 where
  pub CertPool : Type 0
  pub Certificate : Type 0
  pub RsaKey : Type 0
  pub read_file : Bytes → Option Bytes
  pub new_cert_pool : CertPool
  pub append_certs_from_pem : Bytes → CertPool → CertPool × Bool
  pub pem_decode : Bytes → Option PemBlock
  pub pem_encode_rsa : Bytes → RsaKey → Bytes
  pub decrypt_pkcs8 : Bytes → Bytes → Option Bytes
  pub parse_pkcs8 : Bytes → Option (Option RsaKey)
  pub x509_key_pair : Bytes → Bytes → Option Certificate
  pub dns_names : Bytes → Option (List Bytes)
  pub version_number : Bytes → ℕ
  pub cipher_number : Bytes → ℕ

abbrev pub is_empty {ℓ} : {A : Type ℓ} → List A → Bool
is_empty [] = true
is_empty (x ∷ xs) = false

-- str.Contains(needle, haystack) > -1
unfoldable pub contains_name : Bytes → List Bytes → Bool
contains_name s [] = false
contains_name s (t ∷ ts) = if bytes_eq t s then true else contains_name s ts

module _ (os : Crypto) where
  -- A tls.Config, as far as the repository sets it. `client_auth` is RequireAndVerifyClientCert,
  -- and `verify_peer` that VerifyPeerCertificate is set.
  pub record TlsConfig : Type 0 where
    pub certificates : List os.Certificate
    pub client_cas : Option os.CertPool
    pub root_cas : Option os.CertPool
    pub client_auth : Bool
    pub cipher_suites : List ℕ
    pub min_version : ℕ
    pub max_version : ℕ
    pub verify_peer : Bool
    pub insecure_skip_verify : Bool

  abbrev pub empty_config : TlsConfig
  empty_config = record {
    certificates = [];
    client_cas = none;
    root_cas = none;
    client_auth = false;
    cipher_suites = [];
    min_version = 0;
    max_version = 0;
    verify_peer = false;
    insecure_skip_verify = false;
  }

  unfoldable pub append_cert : Bytes → os.CertPool → Result os.CertPool
  append_cert file pool = elim (os.read_file file) [
    | none ↦ err err_cert_not_found
    | some cert ↦
        let after = os.append_certs_from_pem cert pool in
        if after.1 then ok after.0 else err err_invalid_pem
  ]

  unfoldable pub append_certs : List Bytes → os.CertPool → Result os.CertPool
  append_certs [] pool = ok pool
  append_certs (file ∷ files) pool = and_then (append_cert file pool) (append_certs files)

  unfoldable pub load_tls_cert_pool : List Bytes → Result os.CertPool
  load_tls_cert_pool files = append_certs files os.new_cert_pool

  abbrev key_pair : Bytes → Bytes → Result os.Certificate
  key_pair cert key = elim (os.x509_key_pair cert key) [
    | none ↦ err err_invalid_cert
    | some c ↦ ok c
  ]

  abbrev rsa_key : Option (Option os.RsaKey) → Result os.RsaKey
  rsa_key none = err err_decrypt_error
  rsa_key (some none) = err err_decrypt_error
  rsa_key (some (some k)) = ok k

  unfoldable pub decrypt_key : PemBlock → Bytes → Result os.RsaKey
  decrypt_key b password =
      if is_empty password
      then err err_missing_password
      else elim (os.decrypt_pkcs8 b.block_bytes password) [
        | none ↦ err err_decrypt_error
        | some raw ↦ rsa_key (os.parse_pkcs8 raw)
      ]

  unfoldable pub load_pair : Bytes → Bytes → PemBlock → Bytes → Result os.Certificate
  load_pair cert key b password =
      if bytes_eq b.block_type (codes "ENCRYPTED PRIVATE KEY")
      then and_then (decrypt_key b password) (λ k. key_pair cert (os.pem_encode_rsa b.block_type k))
      else key_pair cert key

  unfoldable pub load_tls_certificate : TlsConfig → Bytes → Bytes → Bytes → Result TlsConfig
  load_tls_certificate t cert_file key_file password = elim (os.read_file cert_file) [
    | none ↦ err err_cert_not_found
    | some cert ↦ elim (os.read_file key_file) [
      | none ↦ err err_key_not_found
      | some key ↦ elim (os.pem_decode key) [
        | none ↦ err err_key_error
        | some b ↦
            and_then (load_pair cert key b password) (λ c. ok (record t { certificates = c ∷ [] }))
      ]
    ]
  ]
