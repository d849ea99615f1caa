-- ===== src/Kafka/Batch.antt =====
-- The two ways to write of provider/kafka/producer.go: bytes, and values that are encoded as JSON.
use blueprint.Prelude.{
  Bool, true, false, Bytes, Option, none, some, List, [], ◌∷◌, map, if◌then◌else◌, ◌≡◌, refl,
}
use blueprint.Errors.{Error, Err, Result, ok, err, and_then, err_producer_closed}
use blueprint.Tls.{Crypto}
use blueprint.Kafka.{Driver, Message}
use blueprint.Kafka.Producer.{
  KafkaProducer, bare, guarded, is_connected, write_multi, write_encoded, messages_of,
  write_multi_json,
}

abbrev pub errors_in : {A : Type 0} → List (Result A) → List Error
errors_in [] = []
errors_in (ok a ∷ rs) = errors_in rs
errors_in (err e ∷ rs) = e ∷ errors_in rs

abbrev pub values_in : {A : Type 0} → List (Result A) → List A
values_in [] = []
values_in (ok a ∷ rs) = a ∷ values_in rs
values_in (err e ∷ rs) = values_in rs

-- The first of the errors is returned and nothing is done; without one, what is left to do.
abbrev pub unless_first : {S : Type 0} → List Error → S → Option (Err × S) → Option (Err × S)
unless_first [] s o = o
unless_first (e ∷ es) s o = some (some e, s)

abbrev joined : List Error → List Bytes → Result (List Message)
joined [] bs = ok (map bare bs)
joined (e ∷ es) bs = err e

module _ {os : Crypto} {S : Type 0} (db : Driver os S) {J : Type 0}
    (marshal : J → Result Bytes) where
  messages_of-cons :
      (r : Result Bytes) (rs : List (Result Bytes))
      → (and_then r λ b. and_then (joined (errors_in rs) (values_in rs)) λ ms. ok (bare b ∷ ms))
        ≡ joined (errors_in (r ∷ rs)) (values_in (r ∷ rs))
  messages_of-cons (err e) rs = refl
  messages_of-cons (ok b) rs =
      elim (errors_in rs)
        as (λ es.
          (and_then (joined es (values_in rs)) λ ms. ok (bare b ∷ ms))
          ≡ joined es (b ∷ values_in rs)) [ [] ↦ refl | e ∷ es ↦ refl ]

  messages_of_lem :
      (vs : List J)
      → messages_of db marshal vs ≡ joined (errors_in (map marshal vs)) (values_in (map marshal vs))
  unfolding messages_of
  messages_of_lem [] = refl
  messages_of_lem (v ∷ vs) = rw (messages_of_lem vs) (messages_of-cons (marshal v) (map marshal vs))

  -- What a write that looks at the writer first comes to, where the writer is not looked at.
  abbrev pub if_connected : KafkaProducer db → Option (Err × S) → Option (Err × S)
  if_connected p o = if is_connected db p then o else none

  encoded_then :
      (b a : Bytes) (w : Option db.Writer) (es : List Error) (bs : List Bytes) (s : S)
      → write_encoded db (record { brokers = b; topic = a; writer = w }) (joined es bs) s
        ≡ unless_first es s (
            if_connected
              (record { brokers = b; topic = a; writer = w })
              (guarded db w (map bare bs) s))
  unfolding is_connected
  encoded_then b a none [] bs s = refl
  encoded_then b a none (e ∷ es) bs s = refl
  encoded_then b a (some w) [] bs s = refl
  encoded_then b a (some w) (e ∷ es) bs s = refl

  -- A call on a producer that is not connected.
  abbrev pub Closed : Bool → S → Option (Err × S) → Type 0
  Closed true s o = Unit
  Closed false s o = o ≡ some (some err_producer_closed, s)

  write_multi-Closed :
      (p : KafkaProducer db) (bs : List Bytes) (s : S)
      → Closed (is_connected db p) s (write_multi db p bs s)
  unfolding write_multi is_connected
  write_multi-Closed p bs s =
      elim (p.writer)
        as (λ w.
          Closed (is_connected db (record p { writer = w })) s (guarded db w (map bare bs) s)) [
            | none ↦ refl
            | some w ↦ tt
          ]

  -- `WriteMultiJson` returns the error of the first value that cannot be encoded, and writes
  -- nothing then. Otherwise it is `WriteMulti` of the encoded values, in their order, if the
  -- producer is connected; if it is not, where `WriteMulti` returns `ErrProducerClosed` and does
  -- nothing, `WriteMultiJson` panics.
  pub write_multi_json-write_multi :
      (p : KafkaProducer db) (vs : List J) (s : S)
      → (write_multi_json db marshal p vs s
          ≡ unless_first
              (errors_in (map marshal vs))
              s
              (if_connected p (write_multi db p (values_in (map marshal vs)) s)))
        × Closed (is_connected db p) s (write_multi db p (values_in (map marshal vs)) s)
  unfolding write_multi_json
  write_multi_json-write_multi p vs s = (
    rw (messages_of_lem vs) (
        unfold write_multi in
        encoded_then p.brokers p.topic p.writer (errors_in (map marshal vs))
          (values_in (map marshal vs)) s),
    write_multi-Closed p (values_in (map marshal vs)) s,
  )
