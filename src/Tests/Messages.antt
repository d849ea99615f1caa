-- ===== src/Tests/Messages.antt =====
-- The clients of provider/kafka, on a toy library.
use blueprint.Prelude.{
  ℕ, suc, ◌-◌, pos, Bytes, codes, bytes_eq, true, false, none, some, List, [], ◌∷◌, ◌++◌, ◌≡◌, refl,
  arith, if◌then◌else◌,
}
use blueprint.Errors.{Err, Result, ok, err, foreign, err_no_key}
use blueprint.Tls.{contains_name, is_empty, client_tls_config}
use blueprint.Kafka.{Driver, Message, TopicConfig, Dialer, mechanism_of, dialer_of}
use blueprint.Kafka.Consumer.{
  ConsumerConfig, KafkaConsumer, validate, consumer_of, new_consumer, subscribe, is_connected,
  reader_config,
}
use blueprint.Kafka.Admin.{
  KafkaAdmin, get_topics, list_topics, topic_exists, create_topic, delete_topic,
}
use blueprint.Kafka.Producer.{KafkaProducer, write_multi, write_multi_json}
use blueprint.Kafka.Connection.{IsCounted, Keeps, operations_keep}
use blueprint.Kafka.Batch.{Closed, write_multi_json-write_multi, if_connected}
use blueprint.Kafka.Secured.{IsSecured, new_consumer-IsSecured}
use blueprint.Kafka.Subscription.{IsLog, IsDelivered, subscribe_lem}
use blueprint.Tests.Certificates.{os}

-- A topic that waits, the messages handled, and the number of open connections.
record World : Type 0 where
  queue : List Message
  done : List Message
  open_conns : ℕ

abbrev next : World → Result Message × World
next w = elim w.queue [ [] ↦ (err (foreign 1), w) | m ∷ ms ↦ (ok m, record w { queue = ms }) ]

-- Credentials are put together, only the error 1 says that the context was cancelled, and a topic
-- "t" exists.
abbrev db : Driver os World
db = record {
  Mechanism = Bytes;
  Reader = ℕ;
  Writer = ℕ;
  Conn = ℕ;
  Partition = Bytes;
  topic_of = λ p. p;
  plain = λ u p. u ++ p;
  scram = λ a u p. ok (u ++ p);
  is_canceled = λ e. elim e [ foreign n ↦ true | _ ↦ false ];
  new_reader = λ c w. (5, w);
  read_message = λ r w. next w;
  fetch_message = λ r w. next w;
  close_reader = λ r w. w;
  new_writer = λ c w. (6, w);
  write_messages = λ k ms w. (none, record w { done = w.done ++ ms });
  close_writer = λ k w. w;
  dial = λ d b w. (ok 7, record w { open_conns = suc w.open_conns });
  read_partitions = λ k ts w. (ok (codes "t" ∷ []), w);
  create_topics = λ k c w. (none, w);
  delete_topics = λ k t w. (none, w);
  close_conn = λ k w. record w { open_conns = w.open_conns - 1 };
}

abbrev plain_config : ConsumerConfig
plain_config = record {
  brokers = codes "a,b";
  topic = codes "t";
  group = codes "g";
  auth_type = codes "plain";
  username = codes "u";
  password = codes "p";
  client_config = record {
    client_ca = [];
    client_cert = [];
    client_key = [];
    client_key_pwd = [];
    client_enable = false;
    client_insecure_skip_verify = false;
  };
}

abbrev dialer : Dialer os Bytes
dialer = record { sasl_mechanism = some (codes "up"); tls = none }

abbrev consumer : KafkaConsumer db
consumer = record {
  brokers = codes "a,b";
  group = codes "g";
  topic = codes "t";
  config = reader_config db plain_config dialer;
  reader = none;
}

consumer_made : new_consumer db (some plain_config) ≡ ok consumer
unfolding new_consumer consumer_of validate contains_name bytes_eq dialer_of mechanism_of
    client_tls_config
consumer_made = refl

new_consumer-IsSecured_example :
    (is_empty plain_config.brokers ≡ false)
    × (is_empty plain_config.topic ≡ false)
    × (is_empty plain_config.group ≡ false)
    × IsSecured db plain_config.auth_type plain_config.client_config dialer
    × (is_connected db consumer ≡ false)
new_consumer-IsSecured_example = new_consumer-IsSecured db plain_config consumer consumer_made

abbrev message : Bytes → Message
message v = record { key = none; value = v }

-- The handler keeps the messages, and fails on an empty one.
abbrev keep_message : Message → List Message → Err × List Message
keep_message m ms = (if is_empty m.value then some err_no_key else none, ms ++ m ∷ [])

abbrev handler : Message → World → Err × World
handler m w = ((keep_message m w.done).0, record w { done = (keep_message m w.done).1 })

abbrev start_world : World
start_world = record {
  queue = message (codes "x") ∷ message (codes "") ∷ message (codes "y") ∷ [];
  done = [];
  open_conns = 0;
}

abbrev queue_of : World → List Message
queue_of w = w.queue

abbrev done_of : World → List Message
done_of w = w.done

next-view : (w : World) → (next w).1.done ≡ w.done
next-view w = ground arith

world-IsLog : IsLog next handler keep_message done_of queue_of (λ w. foreign 1)
world-IsLog = record {
  read_end = λ s o. ground (arith, o);
  end_stays = λ s o. ground (arith, o);
  read_next = λ s m ms o. ground (arith, o);
  next_ahead = λ s m ms o. ground (arith, o);
  next_failure = λ s m ms o. refl;
  read_view = next-view;
  handles = λ m s. refl;
  handler_view = λ m s. refl;
  handler_ahead = λ m s. refl;
  handler_failure = λ m s. refl;
}

subscribe_lem_example :
    (e : Err) × (t : World) × (c : KafkaConsumer db) × (subscribe db handler 4 consumer start_world
      ≡ some (e, c, t))
    × (is_connected db c ≡ true)
    × IsDelivered db db.read_message 5 handler keep_message done_of queue_of
        (λ w. foreign 1)
        start_world
        e
        t
subscribe_lem_example =
    subscribe_lem db handler keep_message done_of queue_of (λ w. foreign 1) consumer 5 start_world
      start_world refl world-IsLog 4 (omega arith)

opens : World → ℕ
opens w = w.open_conns

counted : IsCounted db opens
unfolding opens
counted = record {
  dial_ok = λ d b s k t o. ground (arith, o);
  dial_err = λ d b s e t o. ground (arith, o);
  closes = λ k s. refl;
  reads = λ k ts s. refl;
  creates = λ k c s. refl;
  deletes = λ k t s. refl;
}

abbrev admin : KafkaAdmin db
admin = record { broker = codes "a"; dialer = dialer; conn = none }

abbrev new_topic : TopicConfig
new_topic = record { topic = codes "n"; num_partitions = pos 1; replication_factor = pos 1 }

operations_keep_example :
    Keeps db opens counted admin start_world (get_topics db [] admin start_world)
    × Keeps db opens counted admin start_world (list_topics db admin start_world)
    × Keeps db opens counted admin start_world (topic_exists db (codes "t") admin start_world)
    × Keeps db opens counted admin start_world (create_topic db new_topic admin start_world)
    × Keeps db opens counted admin start_world (delete_topic db (codes "t") admin start_world)
operations_keep_example =
    operations_keep db opens counted admin start_world [] (codes "t") new_topic

-- Only non-empty strings can be encoded.
abbrev marshal : Bytes → Result Bytes
marshal [] = err err_no_key
marshal (c ∷ s) = ok (c ∷ s)

abbrev producer : KafkaProducer db
producer = record { brokers = codes "a"; topic = codes "t"; writer = some 6 }

write_multi_json-write_multi_example :
    (write_multi_json db marshal producer (codes "x" ∷ codes "y" ∷ []) start_world
      ≡ if_connected db marshal producer
          (write_multi db producer (codes "x" ∷ codes "y" ∷ []) start_world))
    × Closed db marshal true start_world
        (write_multi db producer (codes "x" ∷ codes "y" ∷ []) start_world)
unfolding blueprint.Kafka.Producer.is_connected
write_multi_json-write_multi_example =
    write_multi_json-write_multi db marshal producer (codes "x" ∷ codes "y" ∷ []) start_world
