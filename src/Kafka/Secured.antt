-- ===== src/Kafka/Secured.antt =====
-- The authentication and encryption of what provider/kafka connects with.
use blueprint.Prelude.{
  Bytes, bytes_eq, Bool, true, false, not, Option, none, some, [], ◌∷◌, ◌≡◌, refl, arith,
  Bool-cases, inl, inr, bytes_eq_sound, sym, ap, ◌∙◌,
}
use blueprint.Errors.{Error, Err, Result, ok, and_then-ok}
use blueprint.Tls.{Crypto, ClientConfig, TlsConfig, contains_name, client_tls_config, is_empty}
use blueprint.Kafka.{
  Driver, Dialer, mechanism_of, dialer_of, required, check_auth_type, unless_error, auth_type_none,
}
use blueprint.Kafka.Consumer.{
  ConsumerConfig, KafkaConsumer, is_connected, validate, consumer_of, new_consumer,
}

abbrev pub is_set : {A : Type 0} → Option A → Bool
is_set none = false
is_set (some a) = true

module _ {os : Crypto} {S : Type 0} (db : Driver os S) where
  mechanism_of-none : (u p : Bytes) → mechanism_of db auth_type_none u p ≡ ok none
  unfolding mechanism_of bytes_eq
  mechanism_of-none u p = refl

  -- Every valid type of authentication but "none" has a mechanism.
  mechanism_of-some :
      (a u p : Bytes) (o : Option db.Mechanism)
      → check_auth_type a ≡ none
      → bytes_eq auth_type_none a ≡ false
      → mechanism_of db a u p ≡ ok o
      → is_set o ≡ true
  unfolding mechanism_of contains_name
  mechanism_of-some a u p o h n e = ground (arith, h, n, e)

  mechanism_of-is_set :
      (a u p : Bytes) (o : Option db.Mechanism)
      → check_auth_type a ≡ none
      → mechanism_of db a u p ≡ ok o
      → is_set o ≡ not (bytes_eq auth_type_none a)
  mechanism_of-is_set a u p o h e = elim (Bool-cases (bytes_eq auth_type_none a)) [
    | inl y ↦
        let same : auth_type_none ≡ a = bytes_eq_sound auth_type_none a y in
        ground (arith, y, mechanism_of-none u p, rw (sym same) at e)
    | inr n ↦ mechanism_of-some a u p o h n e ∙ sym (ap not n)
  ]

  client_tls_config-is_set :
      (c : ClientConfig) (o : Option (TlsConfig os))
      → client_tls_config os c ≡ ok o
      → is_set o ≡ c.client_enable
  unfolding client_tls_config
  client_tls_config-is_set c o e = ground arith

  -- A mechanism unless the type of authentication is "none", and TLS exactly if it is enabled.
  pub record IsSecured (auth_type : Bytes) (c : ClientConfig) (d : Dialer os db.Mechanism)
      : Type 0 where
    pub authenticated : is_set d.sasl_mechanism ≡ not (bytes_eq auth_type_none auth_type)
    pub encrypted : is_set d.tls ≡ c.client_enable

  dialer_of-IsSecured :
      (a u p : Bytes) (c : ClientConfig) (d : Dialer os db.Mechanism)
      → check_auth_type a ≡ none
      → dialer_of db a u p c ≡ ok d
      → IsSecured a c d
  unfolding dialer_of
  dialer_of-IsSecured a u p c d h e =
      let (m, e1, r1) = and_then-ok (mechanism_of db a u p) _ d e in
      let (t, e2, r2) = and_then-ok (client_tls_config os c) _ d r1 in
      record {
        authenticated = ground (arith, mechanism_of-is_set a u p m h e1, r2);
        encrypted = ground (arith, client_tls_config-is_set c t e2, r2);
      }

  unless_error-ok :
      {A : Type 0} (e : Err) (r : Result A) (a : A)
      → unless_error e r ≡ ok a
      → (e ≡ none) × (r ≡ ok a)
  unless_error-ok none r a h = (refl, h)
  unless_error-ok (some e) r a h = ground arith

  required-none :
      (s : Bytes) (e : Error) (rest : Err)
      → required s e rest ≡ none
      → (is_empty s ≡ false) × (rest ≡ none)
  required-none [] e rest h = ground arith
  required-none (c ∷ s) e rest h = (refl, h)

  -- A consumer that could be made has a broker, a topic and a group, connects with a mechanism of
  -- authentication unless the configured type is "none", and with TLS exactly if that is enabled;
  -- it is not connected yet.
  pub new_consumer-IsSecured :
      (c : ConsumerConfig) (k : KafkaConsumer db)
      → new_consumer db (some c) ≡ ok k
      → (is_empty c.brokers ≡ false)
        × (is_empty c.topic ≡ false)
        × (is_empty c.group ≡ false)
        × IsSecured c.auth_type c.client_config k.config.dialer
        × (is_connected db k ≡ false)
  unfolding new_consumer consumer_of validate is_connected
  new_consumer-IsSecured c k e =
      let (valid, made) = unless_error-ok (validate c) _ k e in
      let (b, v1) = required-none c.brokers _ _ valid in
      let (t, v2) = required-none c.topic _ _ v1 in
      let (g, v3) = required-none c.group _ _ v2 in
      let (d, e1, r1) =
        and_then-ok (dialer_of db c.auth_type c.username c.password c.client_config) _ k made in
      let secured = dialer_of-IsSecured c.auth_type c.username c.password c.client_config d v3 e1 in
      let same : d ≡ k.config.dialer = ground (arith, r1) in
      (b, t, g, rw same at secured, ground (arith, r1))
