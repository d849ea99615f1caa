-- ===== src/Kafka.antt =====
-- provider/kafka: the authentication that kafka.go names, and what the consumer, the producer and
-- the admin share. kafka-go is the parameter `Driver`, over a state `S` of the world; the TLS
-- configuration is that of provider/tls.
pub mod Consumer
pub mod Producer
pub mod Admin
pub mod Subscription
pub mod Batch
pub mod Connection
pub mod Secured
use blueprint.Prelude.{
  ℤ, Bytes, codes, bytes_eq, Bool, true, false, not, Option, none, some, List, [], ◌∷◌,
  if◌then◌else◌,
}
use blueprint.Errors.{Error, Err, Result, ok, err, and_then, err_invalid_auth_type}
use blueprint.Tls.{Crypto, ClientConfig, TlsConfig, contains_name, client_tls_config}

pub data ScramAlgorithm : Type 0 where
  sha256 sha512 : ScramAlgorithm

pub record Message : Type 0 where
  pub key : Option Bytes
  pub value : Bytes

pub record TopicConfig : Type 0 where
  pub topic : Bytes
  pub num_partitions : ℤ
  pub replication_factor : ℤ

-- A kafka.Dialer or, for the producer, a kafka.Transport, with the fields that are set. Both have
-- the timeout of 30 seconds.
pub record Dialer (os : Crypto) (Mechanism : Type 0) : Type 0 where
  pub sasl_mechanism : Option Mechanism
  pub tls : Option (TlsConfig os)

pub record ReaderConfig (os : Crypto) (Mechanism : Type 0) : Type 0 where
  pub brokers : List Bytes
  pub group_id : Bytes
  pub topic : Bytes
  pub dialer : Dialer os Mechanism
  pub start_offset : Option Bool

pub record WriterConfig (os : Crypto) (Mechanism : Type 0) : Type 0 where
  pub addr : List Bytes
  pub topic : Bytes
  pub allow_auto_topic_creation : Bool
  pub transport : Dialer os Mechanism

-- `is_canceled` is errors.Is(err, context.Canceled).
pub record Driver (os : Crypto) (S : Type 0) : Type 1 where
  pub Mechanism : Type 0
  pub Reader : Type 0
  pub Writer : Type 0
  pub Conn : Type 0
  pub Partition : Type 0
  pub topic_of : Partition → Bytes
  pub plain : Bytes → Bytes → Mechanism
  pub scram : ScramAlgorithm → Bytes → Bytes → Result Mechanism
  pub is_canceled : Error → Bool
  pub new_reader : ReaderConfig os Mechanism → S → Reader × S
  pub read_message : Reader → S → Result Message × S
  pub fetch_message : Reader → S → Result Message × S
  pub close_reader : Reader → S → S
  pub new_writer : WriterConfig os Mechanism → S → Writer × S
  pub write_messages : Writer → List Message → S → Err × S
  pub close_writer : Writer → S → S
  pub dial : Dialer os Mechanism → Bytes → S → Result Conn × S
  pub read_partitions : Conn → List Bytes → S → Result (List Partition) × S
  pub create_topics : Conn → TopicConfig → S → Err × S
  pub delete_topics : Conn → Bytes → S → Err × S
  pub close_conn : Conn → S → S

abbrev pub auth_type_none : Bytes
auth_type_none = codes "none"

abbrev pub auth_type_plain : Bytes
auth_type_plain = codes "plain"

abbrev pub auth_type_scram256 : Bytes
auth_type_scram256 = codes "scram256"

abbrev pub auth_type_scram512 : Bytes
auth_type_scram512 = codes "scram512"

abbrev pub valid_auth_types : List Bytes
valid_auth_types = auth_type_none ∷ auth_type_plain ∷ auth_type_scram256 ∷ auth_type_scram512 ∷ []

-- What the three `Validate` methods begin and end with.
abbrev pub required : Bytes → Error → Err → Err
required [] e rest = some e
required (c ∷ s) e rest = rest

abbrev pub check_auth_type : Bytes → Err
check_auth_type a = if contains_name a valid_auth_types then none else some err_invalid_auth_type

-- `if err := cfg.Validate(); err != nil { return nil, err }`
abbrev pub unless_error {ℓ} : {A : Type ℓ} → Err → Result A → Result A
unless_error none r = r
unless_error (some e) r = err e

module _ {os : Crypto} {S : Type 0} (db : Driver os S) where
  -- The `switch` on the type of authentication.
  unfoldable pub mechanism_of : Bytes → Bytes → Bytes → Result (Option db.Mechanism)
  mechanism_of auth_type username password =
      if bytes_eq auth_type_plain auth_type
      then ok (some (db.plain username password))
      else if bytes_eq auth_type_scram256 auth_type
      then and_then (db.scram sha256 username password) (λ m. ok (some m))
      else if bytes_eq auth_type_scram512 auth_type
      then and_then (db.scram sha512 username password) (λ m. ok (some m))
      else ok none

  unfoldable pub dialer_of : Bytes → Bytes → Bytes → ClientConfig → Result (Dialer os db.Mechanism)
  unfolding mechanism_of
  dialer_of auth_type username password c =
      and_then (mechanism_of auth_type username password)
        λ m. and_then (client_tls_config os c) λ t. ok (record { sasl_mechanism = m; tls = t })
