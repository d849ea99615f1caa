-- ===== src/Kafka/Consumer.antt =====
-- provider/kafka/consumer.go. The endless loops are run for a number of rounds; `none` says that
-- the call is still running then. A handler is a function on the state of the world that leaves the
-- consumer itself alone.
use blueprint.Prelude.{ℕ, zero, suc, Bytes, Bool, true, false, Option, none, some, if◌then◌else◌}
use blueprint.Errors.{
  Error, Err, Result, ok, err, and_then, err_nil_config, err_missing_consumer_broker,
  err_missing_consumer_topic, err_missing_consumer_group, err_consumer_already_connected,
}
use blueprint.Config.Text.{split}
use blueprint.Tls.{Crypto, ClientConfig}
use blueprint.Kafka.{
  Driver, ReaderConfig, Dialer, Message, required, check_auth_type, unless_error, dialer_of,
}

pub record ConsumerConfig : Type 0 where
  pub brokers : Bytes
  pub topic : Bytes
  pub group : Bytes
  pub auth_type : Bytes
  pub username : Bytes
  pub password : Bytes
  pub client_config : ClientConfig

-- What a round of a loop comes to.
pub data Round (S : Type 0) : Type 0 where
  leaves : Err → S → Round S
  again : S → Round S

abbrev pub ConsumerFunc : Type 0 → Type 0
ConsumerFunc S = Message → S → Err × S

unfoldable pub validate : ConsumerConfig → Err
validate c = required c.brokers err_missing_consumer_broker (
    required c.topic err_missing_consumer_topic
      (required c.group err_missing_consumer_group (check_auth_type c.auth_type)))

module _ {os : Crypto} {S : Type 0} (db : Driver os S) where
  pub record KafkaConsumer : Type 0 where
    pub brokers : Bytes
    pub group : Bytes
    pub topic : Bytes
    pub config : ReaderConfig os db.Mechanism
    pub reader : Option db.Reader

  abbrev pub reader_config : ConsumerConfig → Dialer os db.Mechanism → ReaderConfig os db.Mechanism
  reader_config c d = record {
    brokers = split b',' c.brokers;
    group_id = c.group;
    topic = c.topic;
    dialer = d;
    start_offset = none;
  }

  unfoldable pub consumer_of : ConsumerConfig → Result KafkaConsumer
  unfolding validate dialer_of
  consumer_of c = unless_error (validate c) (
      and_then (dialer_of db c.auth_type c.username c.password c.client_config) λ d. ok (record {
        brokers = c.brokers;
        group = c.group;
        topic = c.topic;
        config = reader_config c d;
        reader = none;
      }))

  unfoldable pub new_consumer : Option ConsumerConfig → Result KafkaConsumer
  unfolding consumer_of
  new_consumer none = err err_nil_config
  new_consumer (some c) = consumer_of c

  unfoldable pub get_config : KafkaConsumer → ReaderConfig os db.Mechanism
  get_config c = c.config

  abbrev pub from_first : KafkaConsumer → KafkaConsumer
  from_first c = record c { config = record c.config { start_offset = some true } }

  -- `start_offset = some true` is kafka.FirstOffset.
  unfoldable pub rewind : KafkaConsumer → Err × KafkaConsumer
  rewind c = elim c.reader [
    | none ↦ (none, from_first c)
    | some r ↦ (some err_consumer_already_connected, c)
  ]

  abbrev pub with_reader : KafkaConsumer → db.Reader × S → KafkaConsumer × S
  with_reader c (r, s) = (record c { reader = some r }, s)

  unfoldable pub connect : KafkaConsumer → S → KafkaConsumer × S
  connect c s = with_reader c (db.new_reader c.config s)

  unfoldable pub disconnect : KafkaConsumer → S → KafkaConsumer × S
  disconnect c s = elim c.reader [
    | none ↦ (c, s)
    | some r ↦ (record c { reader = none }, db.close_reader r s)
  ]

  unfoldable pub is_connected : KafkaConsumer → Bool
  is_connected c = elim c.reader [ none ↦ false | some r ↦ true ]

  -- `if !c.IsConnected() { c.Connect() }`, with the reader that there is then.
  abbrev pub ready : KafkaConsumer → S → db.Reader × S
  ready c s = elim c.reader [ none ↦ db.new_reader c.config s | some r ↦ (r, s) ]

  -- A clean exit is a nil error.
  abbrev pub unless_canceled : Error → Err
  unless_canceled e = if db.is_canceled e then none else some e

  module _ (read : db.Reader → S → Result Message × S) (handler : ConsumerFunc S) where
    abbrev pub after_handler : Err × S → Round S
    after_handler (none, s) = again s
    after_handler (some e, s) = leaves (some e) s

    abbrev pub round : Result Message × S → Round S
    round (err e, s) = leaves (unless_canceled e) s
    round (ok m, s) = after_handler (handler m s)

    unfoldable pub read_loop : ℕ → db.Reader → S → Option (Err × S)
    read_loop zero r s = none
    read_loop (suc n) r s = elim (round (read r s)) [
      | leaves e t ↦ some (e, t)
      | again t ↦ read_loop n r t
    ]

    -- `defer c.Reader.Close()` closes the reader and leaves the field as it is.
    abbrev pub closing :
        KafkaConsumer → db.Reader → Option (Err × S) → Option (Err × KafkaConsumer × S)
    closing c r none = none
    closing c r (some (e, t)) = some (e, record c { reader = some r }, db.close_reader r t)

    abbrev pub consume : ℕ → KafkaConsumer → db.Reader × S → Option (Err × KafkaConsumer × S)
    consume n c (r, s) = closing c r (read_loop n r s)

  unfoldable pub subscribe :
      ConsumerFunc S → ℕ → KafkaConsumer → S → Option (Err × KafkaConsumer × S)
  unfolding read_loop
  subscribe handler n c s = consume db.read_message handler n c (ready c s)

  -- `send` is `ch <- msg`, once a receiver takes the message.
  unfoldable pub channel_subscribe :
      (Message → S → S) → ℕ → KafkaConsumer → S → Option (Err × KafkaConsumer × S)
  unfolding read_loop
  channel_subscribe send n c s = consume db.read_message (λ m t. (none, send m t)) n c (ready c s)

  unfoldable pub subscribe_with_offsets :
      ConsumerFunc S → ℕ → KafkaConsumer → S → Option (Err × KafkaConsumer × S)
  unfolding read_loop
  subscribe_with_offsets handler n c s = consume db.fetch_message handler n c (ready c s)

  abbrev pub read_with : KafkaConsumer → db.Reader × S → Result Message × KafkaConsumer × S
  read_with c (r, s) = let (m, t) = db.read_message r s in (m, record c { reader = some r }, t)

  unfoldable pub read_message : KafkaConsumer → S → Result Message × KafkaConsumer × S
  read_message c s = read_with c (ready c s)
