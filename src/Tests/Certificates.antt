-- ===== src/Tests/Certificates.antt =====
-- A server of provider/tls/server.go that asks its clients for certificates.
use blueprint.Prelude.{
  true, false, ◌≡◌, refl, none, some, List, [], ◌∷◌, Bytes, codes, bytes_eq, length, if◌then◌else◌,
}
use blueprint.Errors.{ok}
use blueprint.Tls.Client.{IsAsked, client_tls_config-IsAsked}
use blueprint.Tls.{
  ClientConfig, client_tls_config, full_client_config, set_root_cas, set_client_certificate, Crypto,
  ServerConfig, TlsConfig, server_tls_config, full_config, set_client_cas, set_certificate,
  set_ciphers, set_max_version, set_min_version, set_verify_peer, load_tls_cert_pool, append_certs,
  append_cert, parse_tls_version, parse_ciphers, contains_name, verify_peer_certificate,
}
use blueprint.Tls.Versions.{IsSecure, server_tls_config-IsSecure, verify_peer_certificate_lem}

-- Files hold what their names say, a pool is the list of its certificates, and the number of a
-- constant is the length of its name, plus the last digit of a version.
abbrev pub os : Crypto
os = record {
  CertPool = List Bytes;
  Certificate = Bytes;
  RsaKey = Bytes;
  read_file = λ f. some f;
  new_cert_pool = [];
  append_certs_from_pem = λ c pool. (c ∷ pool, true);
  pem_decode = λ t. none;
  pem_encode_rsa = λ t k. k;
  decrypt_pkcs8 = λ t p. some t;
  parse_pkcs8 = λ t. some none;
  x509_key_pair = λ c k. some c;
  dns_names = λ raw. some (raw ∷ codes "b" ∷ []);
  version_number = λ s. if bytes_eq s (codes "TLS13") then 13 else 12;
  cipher_number = λ s. length s;
}

abbrev config : ServerConfig
config = record {
  tls_cert = [];
  tls_key = [];
  tls_key_pwd = [];
  tls_allowed_cacerts = codes "ca" ∷ [];
  tls_cipher_suites = codes "TLS_AES_128_GCM_SHA256" ∷ [];
  tls_min_version = [];
  tls_max_version = codes "TLS13";
  tls_allowed_dnsnames = codes "b" ∷ [];
  tls_enable = true;
}

abbrev secured : TlsConfig os
secured = record {
  certificates = [];
  client_cas = some (codes "ca" ∷ []);
  root_cas = none;
  client_auth = true;
  cipher_suites = 22 ∷ [];
  min_version = 12;
  max_version = 13;
  verify_peer = true;
  insecure_skip_verify = false;
}

is_configured : server_tls_config os config ≡ ok (some secured)
unfolding server_tls_config full_config set_client_cas set_certificate set_ciphers set_max_version
    set_min_version set_verify_peer load_tls_cert_pool append_certs append_cert parse_tls_version
    parse_ciphers contains_name bytes_eq
is_configured = refl

server_tls_config-IsSecure_example : IsSecure os config secured
server_tls_config-IsSecure_example = server_tls_config-IsSecure os config secured refl is_configured

is_accepted : verify_peer_certificate os config (codes "a") ≡ none
unfolding verify_peer_certificate contains_name bytes_eq
is_accepted = refl

verify_peer_certificate_lem_example :
    (names : List Bytes) × (name : Bytes) × (os.dns_names (codes "a") ≡ some names)
    × (contains_name name names ≡ true)
    × (contains_name name config.tls_allowed_dnsnames ≡ true)
verify_peer_certificate_lem_example = verify_peer_certificate_lem os config (codes "a") is_accepted

abbrev client_config : ClientConfig
client_config = record {
  client_ca = codes "ca";
  client_cert = [];
  client_key = [];
  client_key_pwd = [];
  client_enable = true;
  client_insecure_skip_verify = true;
}

abbrev asked : TlsConfig os
asked = record {
  certificates = [];
  client_cas = none;
  root_cas = some (codes "ca" ∷ []);
  client_auth = false;
  cipher_suites = [];
  min_version = 0;
  max_version = 0;
  verify_peer = false;
  insecure_skip_verify = true;
}

client_is_configured : client_tls_config os client_config ≡ ok (some asked)
unfolding client_tls_config full_client_config set_root_cas set_client_certificate
    load_tls_cert_pool append_certs append_cert
client_is_configured = refl

client_tls_config-IsAsked_example : IsAsked os client_config asked
client_tls_config-IsAsked_example =
    client_tls_config-IsAsked os client_config asked client_is_configured
