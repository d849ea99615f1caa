-- ===== src/Kafka/Admin.antt =====
-- provider/kafka/admin.go.
use blueprint.Prelude.{
  Bytes, bytes_eq, Bool, true, false, Option, none, some, List, [], ◌∷◌, map, if◌then◌else◌,
}
use blueprint.Errors.{
  Error, Err, Result, ok, err, and_then, err_nil_config, err_missing_admin_broker,
}
use blueprint.Tls.{Crypto, ClientConfig}
use blueprint.Kafka.{
  Driver, Dialer, TopicConfig, required, check_auth_type, unless_error, dialer_of,
}

pub record AdminConfig : Type 0 where
  pub brokers : Bytes
  pub auth_type : Bytes
  pub username : Bytes
  pub password : Bytes
  pub client_config : ClientConfig

unfoldable pub validate : AdminConfig → Err
validate c = required c.brokers err_missing_admin_broker (check_auth_type c.auth_type)

-- The topic is one of the list.
unfoldable pub has_topic : Bytes → List Bytes → Bool
has_topic topic [] = false
has_topic topic (t ∷ ts) = if bytes_eq t topic then true else has_topic topic ts

module _ {os : Crypto} {S : Type 0} (db : Driver os S) where
  pub record KafkaAdmin : Type 0 where
    pub broker : Bytes
    pub dialer : Dialer os db.Mechanism
    pub conn : Option db.Conn

  unfoldable pub admin_of : AdminConfig → Result KafkaAdmin
  unfolding validate dialer_of
  admin_of c = unless_error (validate c) (
      and_then (dialer_of db c.auth_type c.username c.password c.client_config)
        λ d. ok (record { broker = c.brokers; dialer = d; conn = none }))

  unfoldable pub new_admin : Option AdminConfig → Result KafkaAdmin
  unfolding admin_of
  new_admin none = err err_nil_config
  new_admin (some c) = admin_of c

  abbrev pub dialed : KafkaAdmin → Result db.Conn × S → Err × KafkaAdmin × S
  dialed a (err e, s) = (some e, record a { conn = none }, s)
  dialed a (ok k, s) = (none, record a { conn = some k }, s)

  unfoldable pub connect : KafkaAdmin → S → Err × KafkaAdmin × S
  connect a s = dialed a (db.dial a.dialer a.broker s)

  unfoldable pub disconnect : KafkaAdmin → S → KafkaAdmin × S
  disconnect a s = elim a.conn [
    | none ↦ (a, s)
    | some k ↦ (record a { conn = none }, db.close_conn k s)
  ]

  unfoldable pub is_connected : KafkaAdmin → Bool
  is_connected a = elim a.conn [ none ↦ false | some k ↦ true ]

  module _ {A : Type 0} (fail : Error → A) (f : db.Conn → S → A × S) where
    abbrev pub use_conn : KafkaAdmin → A × S → A × KafkaAdmin × S
    use_conn a (x, s) = (x, a, s)

    -- `defer c.Disconnect()`
    abbrev pub then_disconnect : KafkaAdmin → A × S → A × KafkaAdmin × S
    then_disconnect a (x, s) = let (a', t) = disconnect a s in (x, a', t)

    -- After `Connect`, which set the connection or returned an error.
    abbrev pub with_new : KafkaAdmin → Result db.Conn × S → A × KafkaAdmin × S
    with_new a (err e, s) = (fail e, record a { conn = none }, s)
    with_new a (ok k, s) = then_disconnect (record a { conn = some k }) (f k s)

    -- What each operation begins with: without a connection, one for this call alone.
    unfoldable pub with_conn : KafkaAdmin → S → A × KafkaAdmin × S
    unfolding disconnect
    with_conn a s = elim a.conn [
      | none ↦ with_new a (db.dial a.dialer a.broker s)
      | some k ↦ use_conn a (f k s)
    ]

  unfoldable pub get_topics :
      List Bytes → KafkaAdmin → S → Result (List db.Partition) × KafkaAdmin × S
  unfolding with_conn
  get_topics topics a s = with_conn err (λ k t. db.read_partitions k topics t) a s

  abbrev pub topics_of : Result (List db.Partition) × S → Result (List Bytes) × S
  topics_of (err e, s) = (err e, s)
  topics_of (ok ps, s) = (ok (map db.topic_of ps), s)

  -- The topic of each partition, one after the other.
  unfoldable pub list_topics : KafkaAdmin → S → Result (List Bytes) × KafkaAdmin × S
  unfolding with_conn
  list_topics a s = with_conn err (λ k t. topics_of (db.read_partitions k [] t)) a s

  abbrev pub exists_in : Bytes → Result (List Bytes) × KafkaAdmin × S → Result Bool × KafkaAdmin × S
  exists_in topic (err e, a, s) = (err e, a, s)
  exists_in topic (ok topics, a, s) = (ok (has_topic topic topics), a, s)

  unfoldable pub topic_exists : Bytes → KafkaAdmin → S → Result Bool × KafkaAdmin × S
  unfolding list_topics
  topic_exists topic a s = exists_in topic (list_topics a s)

  unfoldable pub create_topic : TopicConfig → KafkaAdmin → S → Err × KafkaAdmin × S
  unfolding with_conn
  create_topic c a s = with_conn some (λ k t. db.create_topics k c t) a s

  unfoldable pub delete_topic : Bytes → KafkaAdmin → S → Err × KafkaAdmin × S
  unfolding with_conn
  delete_topic topic a s = with_conn some (λ k t. db.delete_topics k topic t) a s
