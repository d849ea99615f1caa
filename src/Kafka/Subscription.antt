-- ===== src/Kafka/Subscription.antt =====
-- The loops of provider/kafka/consumer.go over the messages that a reader gives.
use blueprint.Prelude.{
  ℕ, zero, suc, ◌<◌, true, false, if◌then◌else◌, none, some, List, [], ◌∷◌, length, ◌≡◌, refl, ap,
  ◌∙◌, inl, inr, arith, Option-cases,
}
use blueprint.Errors.{Error, Err, Result, ok, err}
use blueprint.Tls.{Crypto}
use blueprint.Kafka.{Driver, Message}
use blueprint.Kafka.Consumer.{
  KafkaConsumer, ConsumerFunc, leaves, again, unless_canceled, after_handler, round, read_loop,
  consume, ready, subscribe, is_connected,
}

-- What a handler does to the messages of a list, on the part `A` of the world that it works on: its
-- error if it has one, the state then, and the messages that it was not given.
unfoldable pub deliver :
    {A : Type 0} → (Message → A → Err × A) → List Message → A → Err × A × List Message
deliver h [] a = (none, a, [])
deliver h (m ∷ ms) a = elim (h m a).0 [
  | some e ↦ (some e, (h m a).1, ms)
  | none ↦ deliver h ms (h m a).1
]

-- What is known of the reads of a reader: `ahead` are the messages that it gives before it fails,
-- and `failure` is the error that it fails with. The handler works as `h` on the part of the world
-- that `view` shows, which the reader does not touch, and does not touch what is ahead.
pub record IsLog {A S : Type 0} (read : S → Result Message × S) (handler : ConsumerFunc S)
    (h : Message → A → Err × A) (view : S → A) (ahead : S → List Message) (failure : S → Error)
    : Type 0 where
  pub read_end : (s : S) → ahead s ≡ [] → (read s).0 ≡ err (failure s)
  pub end_stays : (s : S) → ahead s ≡ [] → ahead (read s).1 ≡ []
  pub read_next : (s : S) (m : Message) (ms : List Message) → ahead s ≡ m ∷ ms → (read s).0 ≡ ok m
  pub next_ahead :
      (s : S) (m : Message) (ms : List Message) → ahead s ≡ m ∷ ms → ahead (read s).1 ≡ ms
  pub next_failure :
      (s : S) (m : Message) (ms : List Message) → ahead s ≡ m ∷ ms → failure (read s).1 ≡ failure s
  pub read_view : (s : S) → view (read s).1 ≡ view s
  pub handles : (m : Message) (s : S) → (handler m s).0 ≡ (h m (view s)).0
  pub handler_view : (m : Message) (s : S) → view (handler m s).1 ≡ (h m (view s)).1
  pub handler_ahead : (m : Message) (s : S) → ahead (handler m s).1 ≡ ahead s
  pub handler_failure : (m : Message) (s : S) → failure (handler m s).1 ≡ failure s

module _ {os : Crypto} {S : Type 0} (db : Driver os S) where
  -- The error returned: the handler's, or that of the last read unless the context was cancelled.
  abbrev pub outcome : Err → Error → Err
  outcome (some e) f = some e
  outcome none f = elim (db.is_canceled f) [ true ↦ none | false ↦ some f ]

  unless_canceled-outcome : (f : Error) → unless_canceled db f ≡ outcome none f
  unless_canceled-outcome f =
      elim (db.is_canceled f)
        as (λ b.
          ◌≡◌ {A = Err} (if b then none else some f) (elim b [ true ↦ none | false ↦ some f ])) [
            | true ↦ refl
            | false ↦ refl
          ]

  module _ {A : Type 0} (read : db.Reader → S → Result Message × S) (r : db.Reader)
      (handler : ConsumerFunc S) (h : Message → A → Err × A) (view : S → A)
      (ahead : S → List Message) (failure : S → Error) where
    -- The loop ends with this error in this state, from `s`.
    pub record IsDelivered (s : S) (e : Err) (t : S) : Type 0 where
      pub returned : e ≡ outcome (deliver h (ahead s) (view s)).0 (failure s)
      pub reached : view t ≡ (deliver h (ahead s) (view s)).1
      pub left : ahead t ≡ (deliver h (ahead s) (view s)).2

    round-err :
        (x : Result Message × S) (f : Error)
        → x.0 ≡ err f
        → round db read handler x ≡ leaves (unless_canceled db f) x.1
    round-err (err e, s) f o = ground arith
    round-err (ok m, s) f o = ground arith

    round-ok :
        (x : Result Message × S) (m : Message)
        → x.0 ≡ ok m
        → round db read handler x ≡ after_handler db read handler (handler m x.1)
    round-ok (err e, s) m o = ground arith
    round-ok (ok n, s) m o = let same : n ≡ m = ground arith in rw same refl

    handler-some :
        (y : Err × S) (e : Error)
        → y.0 ≡ some e
        → after_handler db read handler y ≡ leaves (some e) y.1
    handler-some (some d, s) e o = ground arith
    handler-some (none, s) e o = ground arith

    handler-none : (y : Err × S) → y.0 ≡ none → after_handler db read handler y ≡ again y.1
    handler-none (some d, s) o = ground arith
    handler-none (none, s) o = refl

    -- A loop that leaves in its first round, and one that goes on.
    loop-leaves :
        (n : ℕ) (s : S) (e : Err) (t : S)
        → round db read handler (read r s) ≡ leaves e t
        → read_loop db read handler (suc n) r s ≡ some (e, t)
    unfolding read_loop
    loop-leaves n s e t o = rw (read_loop, o) refl

    loop-again :
        (n : ℕ) (s t : S)
        → round db read handler (read r s) ≡ again t
        → read_loop db read handler (suc n) r s ≡ read_loop db read handler n r t
    unfolding read_loop
    loop-again n s t o = rw (read_loop, o) refl

    module _ (law : IsLog (read r) handler h view ahead failure) where
      -- The handler of a message that is next works on what `view` shows.
      handled-next : (s : S) (m : Message) → (handler m (read r s).1).0 ≡ (h m (view s)).0
      handled-next s m = law.handles m (read r s).1 ∙ ap (λ a. (h m a).0) (law.read_view s)

      view-next : (s : S) (m : Message) → view (handler m (read r s).1).1 ≡ (h m (view s)).1
      view-next s m = law.handler_view m (read r s).1 ∙ ap (λ a. (h m a).1) (law.read_view s)

      ahead-next :
          (s : S) (m : Message) (ms : List Message)
          → ahead s ≡ m ∷ ms
          → ahead (handler m (read r s).1).1 ≡ ms
      ahead-next s m ms o = law.handler_ahead m (read r s).1 ∙ law.next_ahead s m ms o

      failure-next :
          (s : S) (m : Message) (ms : List Message)
          → ahead s ≡ m ∷ ms
          → failure (handler m (read r s).1).1 ≡ failure s
      failure-next s m ms o = law.handler_failure m (read r s).1 ∙ law.next_failure s m ms o

      IsDelivered-end :
          (s : S) → ahead s ≡ [] → IsDelivered s (unless_canceled db (failure s)) (read r s).1
      unfolding deliver
      IsDelivered-end s o = record {
        returned = rw o (unless_canceled-outcome (failure s));
        reached = rw o (law.read_view s);
        left = rw o (law.end_stays s o);
      }

      IsDelivered-stop :
          (s : S) (m : Message) (ms : List Message) (e : Error)
          → ahead s ≡ m ∷ ms
          → (h m (view s)).0 ≡ some e
          → IsDelivered s (some e) (handler m (read r s).1).1
      unfolding deliver
      IsDelivered-stop s m ms e o d = record {
        returned = rw (o, deliver, d) refl;
        reached = rw (o, deliver, d) (view-next s m);
        left = rw (o, deliver, d) (ahead-next s m ms o);
      }

      IsDelivered-next :
          (s : S) (m : Message) (ms : List Message) (e : Err) (t : S)
          → ahead s ≡ m ∷ ms
          → (h m (view s)).0 ≡ none
          → IsDelivered (handler m (read r s).1).1 e t
          → IsDelivered s e t
      unfolding deliver
      IsDelivered-next s m ms e t o d rest =
          let u : S = (handler m (read r s).1).1 in
          record {
            returned =
                rw (o, deliver, d)
                  (rw (ahead-next s m ms o, view-next s m, failure-next s m ms o) at rest.returned);
            reached = rw (o, deliver, d) (rw (ahead-next s m ms o, view-next s m) at rest.reached);
            left = rw (o, deliver, d) (rw (ahead-next s m ms o, view-next s m) at rest.left);
          }

      abbrev Ends : ℕ → S → Type 0
      Ends n s =
          (e : Err) × (t : S) × (read_loop db read handler n r s ≡ some (e, t)) × IsDelivered s e t

      -- One round more than there are messages is enough.
      loop-Ends : (n : ℕ) (ms : List Message) (s : S) → ahead s ≡ ms → length ms < n → Ends n s
      loop-Ends zero ms s o l = absurd (omega arith)
      loop-Ends (suc n) [] s o l = (
        unless_canceled db (failure s),
        (read r s).1,
        loop-leaves n s _ _ (round-err (read r s) (failure s) (law.read_end s o)),
        IsDelivered-end s o,
      )
      loop-Ends (suc n) (m ∷ ms) s o l =
          let turn = round-ok (read r s) m (law.read_next s m ms o) in
          let u : S = (handler m (read r s).1).1 in
          elim (Option-cases (h m (view s)).0) [
            | inr (e, d) ↦ (
              some e,
              u,
              loop-leaves n s _ _
                  (turn ∙ handler-some (handler m (read r s).1) e (handled-next s m ∙ d)),
              IsDelivered-stop s m ms e o d,
            )
            | inl d ↦
                let (e, t, ran, rest) = loop-Ends n ms u (ahead-next s m ms o) (omega (arith, l)) in
                (
                  e,
                  t,
                  loop-again n s u
                        (turn ∙ handler-none (handler m (read r s).1) (handled-next s m ∙ d))
                      ∙ ran,
                  IsDelivered-next s m ms e t o d rest,
                )
          ]

      consume-read_loop :
          (n : ℕ) (c : KafkaConsumer db) (s : S) (e : Err) (t : S)
          → read_loop db read handler n r s ≡ some (e, t)
          → consume db read handler n c (r, s)
            ≡ some (e, record c { reader = some r }, db.close_reader r t)
      consume-read_loop n c s e t o = rw o refl

  -- `Subscribe`, with a reader that gives a list of messages and then fails with an error, and with
  -- a handler that leaves both alone: given more rounds than there are messages, it returns. The
  -- handler has been given the messages in their order, each once, up to the first that it fails
  -- on. The error returned is the handler's, or else that of the reader, or nil if that is a
  -- cancelled context. The reader is closed at the end, and the consumer still counts as connected.
  pub subscribe_lem :
      {A : Type 0} (handler : ConsumerFunc S) (h : Message → A → Err × A) (view : S → A)
      (ahead : S → List Message) (failure : S → Error) (c : KafkaConsumer db) (r : db.Reader)
      (s s' : S)
      → ready db c s ≡ (r, s')
      → IsLog (db.read_message r) handler h view ahead failure
      → (n : ℕ) → length (ahead s') < n
      → (e : Err) × (t : S) × (c' : KafkaConsumer db) × (subscribe db handler n c s
          ≡ some (e, c', db.close_reader r t))
        × (is_connected db c' ≡ true)
        × IsDelivered db.read_message r handler h view ahead failure s' e t
  unfolding subscribe is_connected
  subscribe_lem handler h view ahead failure c r s s' opened law n l =
      let (e, t, ran, delivered) =
        loop-Ends db.read_message r handler h view ahead failure law n (ahead s') s' refl l in
      (
        e,
        t,
        record c { reader = some r },
        ap (consume db db.read_message handler n c) opened
            ∙ consume-read_loop db.read_message r handler h view ahead failure law n c s' e t ran,
        refl,
        delivered,
      )
