-- ===== src/Kafka/Producer.antt =====
-- provider/kafka/producer.go. A call on a nil writer panics; a panic is `none`. Values of Go that
-- are encoded as JSON are a type `J`, with encoding/json as `marshal`.
use blueprint.Prelude.{Bytes, Bool, true, false, Option, none, some, List, [], ◌∷◌, map}
use blueprint.Errors.{
  Err, Result, ok, err, and_then, err_nil_config, err_missing_producer_broker,
  err_missing_producer_topic, err_producer_closed,
}
use blueprint.Config.Text.{split}
use blueprint.Tls.{Crypto, ClientConfig}
use blueprint.Kafka.{
  Driver, WriterConfig, Dialer, Message, required, check_auth_type, unless_error, dialer_of,
}

pub record ProducerConfig : Type 0 where
  pub brokers : Bytes
  pub topic : Bytes
  pub auth_type : Bytes
  pub username : Bytes
  pub password : Bytes
  pub client_config : ClientConfig

unfoldable pub validate : ProducerConfig → Err
validate c =
    required c.brokers err_missing_producer_broker
      (required c.topic err_missing_producer_topic (check_auth_type c.auth_type))

-- `if len(key) > 0 { k = key[0] }`
abbrev pub first_key : List Bytes → Option Bytes
first_key [] = none
first_key (k ∷ ks) = some k

abbrev pub bare : Bytes → Message
bare v = record { key = none; value = v }

module _ {os : Crypto} {S : Type 0} (db : Driver os S) where
  pub record KafkaProducer : Type 0 where
    pub brokers : Bytes
    pub topic : Bytes
    pub writer : Option db.Writer

  abbrev pub writer_config : ProducerConfig → Dialer os db.Mechanism → WriterConfig os db.Mechanism
  writer_config c d = record {
    addr = split b',' c.brokers;
    topic = c.topic;
    allow_auto_topic_creation = true;
    transport = d;
  }

  abbrev pub with_writer : ProducerConfig → db.Writer × S → Result KafkaProducer × S
  with_writer c (w, s) = (ok (record { brokers = c.brokers; topic = c.topic; writer = some w }), s)

  abbrev pub written_by :
      ProducerConfig → Result (Dialer os db.Mechanism) → S → Result KafkaProducer × S
  written_by c (err e) s = (err e, s)
  written_by c (ok d) s = with_writer c (db.new_writer (writer_config c d) s)

  unfoldable pub producer_of : ProducerConfig → S → Result KafkaProducer × S
  unfolding validate dialer_of
  producer_of c s =
      written_by c
        (unless_error (validate c) (dialer_of db c.auth_type c.username c.password c.client_config))
        s

  unfoldable pub new_producer : Option ProducerConfig → S → Result KafkaProducer × S
  unfolding producer_of
  new_producer none s = (err err_nil_config, s)
  new_producer (some c) s = producer_of c s

  unfoldable pub disconnect : KafkaProducer → S → KafkaProducer × S
  disconnect p s = elim p.writer [
    | none ↦ (p, s)
    | some w ↦ (record p { writer = none }, db.close_writer w s)
  ]

  unfoldable pub is_connected : KafkaProducer → Bool
  is_connected p = elim p.writer [ none ↦ false | some w ↦ true ]

  -- `if p.Writer == nil { return ErrProducerClosed }`
  abbrev pub guarded : Option db.Writer → List Message → S → Option (Err × S)
  guarded none ms s = some (some err_producer_closed, s)
  guarded (some w) ms s = some (db.write_messages w ms s)

  -- The writer is used as it is.
  abbrev pub unguarded : Option db.Writer → List Message → S → Option (Err × S)
  unguarded none ms s = none
  unguarded (some w) ms s = some (db.write_messages w ms s)

  unfoldable pub write : KafkaProducer → Bytes → List Bytes → S → Option (Err × S)
  write p value keys s = guarded p.writer (record { key = first_key keys; value = value } ∷ []) s

  unfoldable pub write_multi : KafkaProducer → List Bytes → S → Option (Err × S)
  write_multi p values s = guarded p.writer (map bare values) s

  abbrev pub write_encoded : KafkaProducer → Result (List Message) → S → Option (Err × S)
  write_encoded p (err e) s = some (some e, s)
  write_encoded p (ok ms) s = unguarded p.writer ms s

  module _ {J : Type 0} (marshal : J → Result Bytes) where
    unfoldable pub write_json : KafkaProducer → J → List Bytes → S → Option (Err × S)
    write_json p value keys s =
        write_encoded p
          (and_then (marshal value) λ v. ok (record { key = first_key keys; value = v } ∷ [])) s

    -- The loop that fills the slice of messages.
    unfoldable pub messages_of : List J → Result (List Message)
    messages_of [] = ok []
    messages_of (v ∷ vs) =
        and_then (marshal v) λ b. and_then (messages_of vs) λ ms. ok (bare b ∷ ms)

    unfoldable pub write_multi_json : KafkaProducer → List J → S → Option (Err × S)
    unfolding messages_of
    write_multi_json p values s = write_encoded p (messages_of values) s
