-- ===== src/Kafka/Connection.antt =====
-- The connections that provider/kafka/admin.go opens.
use blueprint.Prelude.{ℕ, suc, ◌-◌, Bytes, Option, none, some, List, [], ◌≡◌, refl, arith}
use blueprint.Errors.{Error, Result, ok, err}
use blueprint.Tls.{Crypto}
use blueprint.Kafka.{Driver, Dialer, TopicConfig}
use blueprint.Kafka.Admin.{
  KafkaAdmin, with_conn, with_new, disconnect, topics_of, exists_in, get_topics, list_topics,
  topic_exists, create_topic, delete_topic,
}

module _ {os : Crypto} {S : Type 0} (db : Driver os S) where
  -- A count of the open connections: a dial that succeeds opens one, and a close closes one.
  pub record IsCounted (opens : S → ℕ) : Type 0 where
    pub dial_ok :
        (d : Dialer os db.Mechanism) (b : Bytes) (s : S) (k : db.Conn) (t : S)
        → ◌≡◌ {A = Result db.Conn × S} (db.dial d b s) (ok k, t)
        → opens t ≡ suc (opens s)
    pub dial_err :
        (d : Dialer os db.Mechanism) (b : Bytes) (s : S) (e : Error) (t : S)
        → ◌≡◌ {A = Result db.Conn × S} (db.dial d b s) (err e, t)
        → opens t ≡ opens s
    pub closes : (k : db.Conn) (s : S) → opens (db.close_conn k s) ≡ opens s - 1
    pub reads :
        (k : db.Conn) (ts : List Bytes) (s : S) → opens (db.read_partitions k ts s).1 ≡ opens s
    pub creates :
        (k : db.Conn) (c : TopicConfig) (s : S) → opens (db.create_topics k c s).1 ≡ opens s
    pub deletes : (k : db.Conn) (t : Bytes) (s : S) → opens (db.delete_topics k t s).1 ≡ opens s

  module _ (opens : S → ℕ) (law : IsCounted opens) where
    -- The admin has the connection that it had, and as many are open as before.
    abbrev pub Keeps : {A : Type 0} → KafkaAdmin db → S → A × KafkaAdmin db × S → Type 0
    Keeps a s (x, a', t) = (a'.conn ≡ a.conn) × (opens t ≡ opens s)

    module _ {A : Type 0} (fail : Error → A) (f : db.Conn → S → A × S)
        (quiet : (k : db.Conn) (s : S) → opens (f k s).1 ≡ opens s) where
      with_new-Keeps :
          (b : Bytes) (d : Dialer os db.Mechanism) (s : S) (r : Result db.Conn × S)
          → ◌≡◌ {A = Result db.Conn × S} (db.dial d b s) r
          → Keeps
              (record { broker = b; dialer = d; conn = none })
              s
              (with_new db fail f (record { broker = b; dialer = d; conn = none }) r)
      unfolding disconnect
      with_new-Keeps b d s (err e, t) h = (refl, law.dial_err d b s e t h)
      with_new-Keeps b d s (ok k, t) h =
          (refl, omega (arith, law.dial_ok d b s k t h, law.closes k (f k t).1, quiet k t))

      with_conn-Keeps :
          (b : Bytes) (d : Dialer os db.Mechanism) (o : Option db.Conn) (s : S)
          → Keeps
              (record { broker = b; dialer = d; conn = o })
              s
              (with_conn db fail f (record { broker = b; dialer = d; conn = o }) s)
      unfolding with_conn
      with_conn-Keeps b d none s = with_new-Keeps b d s (db.dial d b s) refl
      with_conn-Keeps b d (some k) s = (refl, quiet k s)

    topics_of-quiet :
        (s : S) (r : Result (List db.Partition) × S)
        → opens r.1 ≡ opens s
        → opens (topics_of db r).1 ≡ opens s
    topics_of-quiet s (err e, t) h = h
    topics_of-quiet s (ok ps, t) h = h

    exists_in-Keeps :
        (topic : Bytes) (a : KafkaAdmin db) (s : S) (r : Result (List Bytes) × KafkaAdmin db × S)
        → Keeps a s r
        → Keeps a s (exists_in db topic r)
    exists_in-Keeps topic a s (err e, a', t) h = h
    exists_in-Keeps topic a s (ok ts, a', t) h = h

    list_topics-Keeps : (a : KafkaAdmin db) (s : S) → Keeps a s (list_topics db a s)
    unfolding list_topics
    list_topics-Keeps a s =
        with_conn-Keeps err (λ k t. topics_of db (db.read_partitions k [] t))
          (λ k t. topics_of-quiet t (db.read_partitions k [] t) (law.reads k [] t)) a.broker
          a.dialer a.conn s

    -- With a count of the open connections that a dial and a close change by one and nothing else
    -- changes: every operation of the admin, on any branch, leaves as many connections open as
    -- there were, and leaves the admin connected or not as it was.
    pub operations_keep :
        (a : KafkaAdmin db) (s : S) (topics : List Bytes) (topic : Bytes) (c : TopicConfig)
        → Keeps a s (get_topics db topics a s)
          × Keeps a s (list_topics db a s)
          × Keeps a s (topic_exists db topic a s)
          × Keeps a s (create_topic db c a s)
          × Keeps a s (delete_topic db topic a s)
    unfolding get_topics topic_exists create_topic delete_topic
    operations_keep a s topics topic c = (
      with_conn-Keeps err (λ k t. db.read_partitions k topics t) (λ k t. law.reads k topics t)
          a.broker a.dialer a.conn s,
      list_topics-Keeps a s,
      exists_in-Keeps topic a s (list_topics db a s) (list_topics-Keeps a s),
      with_conn-Keeps some (λ k t. db.create_topics k c t) (λ k t. law.creates k c t) a.broker
          a.dialer a.conn s,
      with_conn-Keeps some (λ k t. db.delete_topics k topic t) (λ k t. law.deletes k topic t)
          a.broker a.dialer a.conn s,
    )
