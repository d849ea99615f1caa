-- ===== src/Mqtt/Built.antt =====
-- What a client that `NewClient` of provider/mqtt/client.go returns is set up with.
use blueprint.Prelude.{
  ℕ, zero, suc, ◌%◌, ◌≤◌, ℤ, pos, negsuc, pos_part, ltz, Bytes, codes, bytes_eq, bytes_eq_sound,
  length, Bool, true, false, not, ◌&&◌, ◌||◌, Option, none, List, [], ◌∷◌, ◌++◌, map, if◌then◌else◌,
  ◌≡◌, refl, sym, ap, ◌∙◌, ◌⊎◌, inl, inr, arith, Bool-cases, Option-cases,
}
use blueprint.Errors.{Result, ok, err, and_then, and_then-ok}
use blueprint.Tls.{Crypto, TlsConfig, is_empty, client_tls_config}
use blueprint.Mqtt.{
  Config, ClientOptions, Paho, client_options, validate, named, tls_of, add_brokers, over_tls,
  options_of, random_string, optioned,
}
use blueprint.Mqtt.Client.{Client, new_client, made}

-- Adding one text after the other.
abbrev pub add_all : (Bytes → List Bytes → List Bytes) → List Bytes → List Bytes → List Bytes
add_all add [] servers = servers
add_all add (u ∷ us) servers = add_all add us (add u servers)

abbrev pub scheme : Bool → Bytes → Bytes
scheme tls protocol = if tls then codes "ssl" else protocol

module _ {os : Crypto} {H S : Type 0} (paho : Paho os H S) where
  length-random_string : (n : ℕ) (s : S) → length (random_string paho n s).0 ≡ n
  unfolding random_string
  length-random_string zero s = refl
  length-random_string (suc n) s = ap suc (length-random_string n (paho.int63 s).1)

  -- What a configuration can be when `Validate` returns nil.
  pub record IsValid (c : Config H) : Type 0 where
    pub has_broker : is_empty c.brokers ≡ false
    pub has_protocol : (c.protocol ≡ codes "tcp") ⊎ (c.protocol ≡ codes "ssl")
    pub qos_le : (q : ℕ) × (c.qos ≡ pos q) × (q ≤ 2)
    pub timeout_le : ltz c.timeout (pos 0) ≡ false

  protocol_of :
      (p : Bytes)
      → (not (bytes_eq p (codes "tcp")) && not (bytes_eq p (codes "ssl"))) ≡ false
      → (p ≡ codes "tcp") ⊎ (p ≡ codes "ssl")
  protocol_of p h = elim (Bool-cases (bytes_eq p (codes "tcp"))) [
    | inl y ↦ inl (bytes_eq_sound p (codes "tcp") y)
    | inr n ↦ inr (bytes_eq_sound p (codes "ssl") (ground (arith, h, n)))
  ]

  qos_of : (q : ℤ) → (ltz q (pos 0) || ltz (pos 2) q) ≡ false → (n : ℕ) × (q ≡ pos n) × (n ≤ 2)
  qos_of (pos n) h = (n, refl, ground arith)
  qos_of (negsuc n) h = ground arith

  validate-IsValid : (c : Config H) → validate paho c ≡ none → IsValid c
  unfolding validate
  validate-IsValid c h = record {
    has_broker = ground (arith, h);
    has_protocol = protocol_of c.protocol (ground (arith, h));
    qos_le = qos_of c.qos (ground (arith, h));
    timeout_le = ground (arith, h);
  }

  -- The configuration that the options are made of.
  abbrev final : Config H → Bytes → Config H
  final c id = record c {
    client_id = id;
    protocol = scheme c.client_config.client_enable c.protocol;
  }

  over_tls_lem :
      (c : Config H)
      → over_tls paho c ≡ record c { protocol = scheme c.client_config.client_enable c.protocol }
  over_tls_lem c =
      elim (c.client_config.client_enable)
        as (λ b.
          ◌≡◌ {A = Config H} (if b then record c { protocol = codes "ssl" } else c)
            (record c { protocol = scheme b c.protocol })) [ true ↦ refl | false ↦ refl ]

  named_lem :
      (c : Config H) (s : S)
      → (id : Bytes) × (s' : S) × (named paho c s ≡ (record c { client_id = id }, s'))
        × (is_empty id ≡ false)
  unfolding named random_string
  named_lem c s = elim (Bool-cases (is_empty c.client_id)) [
    | inl e ↦ ((random_string paho 12 s).0, (random_string paho 12 s).1, rw e refl, refl)
    | inr e ↦ (c.client_id, s, rw e refl, e)
  ]

  abbrev optioned_by : Config H → S → Result (ClientOptions os H) × Config H × S
  optioned_by d s = (and_then (tls_of paho d) (λ t. ok (options_of paho d t)), d, s)

  client_options-optioned :
      (c : Config H) (s : S)
      → validate paho c ≡ none
      → client_options paho c s ≡ optioned paho (named paho c s)
  unfolding client_options
  client_options-optioned c s v = rw (client_options, v) refl

  client_options_lem :
      (c : Config H) (s : S)
      → validate paho c ≡ none
      → (id : Bytes) × (s' : S) × (client_options paho c s ≡ optioned_by (final c id) s')
        × (is_empty id ≡ false)
  client_options_lem c s v =
      let (id, s', e, g) = named_lem c s in
      (
        id,
        s',
        client_options-optioned c s v
            ∙ ap (optioned paho) e
            ∙ ap (λ d. optioned_by d s') (over_tls_lem (record c { client_id = id })),
        g,
      )

  client_options-valid :
      (c : Config H) (s : S) (o : ClientOptions os H)
      → (client_options paho c s).0 ≡ ok o
      → validate paho c ≡ none
  unfolding client_options
  client_options-valid c s o e = elim (Option-cases (validate paho c)) [
    | inl v ↦ v
    | inr (d, v) ↦ ground (arith, v, e)
  ]

  -- A client was made of options that were given for the configuration as it was left.
  made-ok :
      (r : Result (ClientOptions os H) × Config H × S) (k : Client paho)
      → (made paho r).0 ≡ ok k
      → (o : ClientOptions os H) × (r.0 ≡ ok o)
        × (k.client_options ≡ o)
        × (k.qos ≡ pos_part r.1.qos % 256)
        × (k.retain ≡ true)
  made-ok (err e, c, s) k h = ground arith
  made-ok (ok o, c, s) k h = (o, refl, ground arith, ground arith, ground arith)

  -- The brokers with their scheme, in the order of the configuration.
  abbrev pub urls : Config H → List Bytes
  urls c =
      map (λ b. scheme c.client_config.client_enable c.protocol ++ (codes "://" ++ b)) c.brokers

  add_brokers_lem :
      (p : Bytes) (bs servers : List Bytes)
      → add_brokers paho p bs servers
        ≡ add_all paho.add_broker (map (λ b. p ++ (codes "://" ++ b)) bs) servers
  unfolding add_brokers
  add_brokers_lem p [] servers = refl
  add_brokers_lem p (b ∷ bs) servers =
      add_brokers_lem p bs (paho.add_broker (p ++ (codes "://" ++ b)) servers)

  pub record IsBuilt (c : Config H) (k : Client paho) : Type 0 where
    pub valid : IsValid c
    pub qos_kept : pos k.qos ≡ c.qos
    pub retains : k.retain ≡ true
    pub servers :
        k.client_options.servers ≡ add_all paho.add_broker (urls c) paho.new_client_options.servers
    pub has_id : is_empty k.client_options.client_id ≡ false
    pub session : k.client_options.clean_session ≡ not c.persistent_session
    pub encrypted :
        (elim c.client_config.client_enable [
          | true ↦ client_tls_config os c.client_config
          | false ↦ ok paho.new_client_options.tls_config
        ])
        ≡ ok k.client_options.tls_config

  tls_of_lem :
      (c : Config H)
      → tls_of paho c ≡ (elim c.client_config.client_enable [
        | true ↦ client_tls_config os c.client_config
        | false ↦ ok paho.new_client_options.tls_config
      ])
  unfolding tls_of
  tls_of_lem c = ground arith

  options-IsBuilt :
      (c : Config H) (id : Bytes) (t : Option (TlsConfig os)) (k : Client paho)
      → validate paho c ≡ none
      → is_empty id ≡ false
      → tls_of paho c ≡ ok t
      → k.client_options ≡ options_of paho (final c id) t
      → k.qos ≡ pos_part c.qos % 256
      → k.retain ≡ true
      → IsBuilt c k
  options-IsBuilt c id t k v g e o q r =
      let h = validate-IsValid c v in
      let (n, c_qos, n_le) = h.qos_le in
      record {
        valid = h;
        qos_kept = ground (arith, q, c_qos, n_le);
        retains = r;
        servers = ap (λ x. x.servers) o ∙ add_brokers_lem (final c id).protocol c.brokers _;
        has_id = ap (λ x. is_empty x.client_id) o ∙ g;
        session = ap (λ x. x.clean_session) o;
        encrypted = sym (tls_of_lem c) ∙ e ∙ ap (λ x. ok x.tls_config) (sym o);
      }

  -- A configuration for which `NewClient` returns a client is valid: it has a broker, the protocol
  -- tcp or ssl, a timeout that is not negative and a QoS level of at most 2, which the client
  -- keeps. The client retains its messages, whatever the configuration says. It has an identifier,
  -- and all the brokers, in their order, with the scheme ssl exactly if TLS is enabled or the
  -- protocol was ssl, and the TLS configuration that was made for it, if TLS is enabled.
  pub new_client-IsBuilt :
      (c : Config H) (s : S) (k : Client paho) → (new_client paho c s).0 ≡ ok k → IsBuilt c k
  unfolding new_client tls_of
  new_client-IsBuilt c s k e =
      let (o, from, k_o, q, r) = made-ok (client_options paho c s) k e in
      let v = client_options-valid c s o from in
      let (id, s', opts, g) = client_options_lem c s v in
      let (t, t_ok, o_eq) =
        and_then-ok (tls_of paho (final c id)) _ o (sym (ap (λ x. x.0) opts) ∙ from) in
      options-IsBuilt c id t k v g t_ok (k_o ∙ ground (arith, o_eq))
        (q ∙ ap (λ x. pos_part x.1.qos % 256) opts) r
