-- ===== src/Mqtt.antt =====
-- provider/mqtt/client.go, with generator/string.go for the identifier of a client. paho is the
-- parameter `Paho`, over a state `S` of the world, with `H` for the handlers of all kinds. A
-- time.Duration is its 64 bits, in nanoseconds.
pub mod Client
pub mod Built
use blueprint.Prelude.{
  seconds, ℕ, zero, suc, ◌*◌, ◌%◌, ◌^◌, ℤ, pos, negsuc, pos_part, ltz, Bytes, codes, bytes_eq,
  length, get_elem?, Bool, true, false, not, ◌&&◌, ◌||◌, Option, none, some, List, [], ◌∷◌, ◌++◌,
  if◌then◌else◌,
}
use blueprint.Errors.{
  Error, Err, Result, ok, err, and_then, err_nil_config, err_missing_broker, err_invalid_protocol,
  err_invalid_timeout, err_invalid_qos_level, err_publish_timeout,
}
use blueprint.Tls.{Crypto, ClientConfig, TlsConfig, is_empty, client_tls_config}

pub record MqttHandlers (H : Type 0) : Type 0 where
  pub default_publish_handler : Option H
  pub on_connect : Option H
  pub on_connection_lost : Option H
  pub on_reconnecting : Option H
  pub on_connect_attempt : Option H
  pub custom_open_connection_fn : Option H

pub record Config (H : Type 0) : Type 0 where
  pub brokers : List Bytes
  pub protocol : Bytes
  pub username : Bytes
  pub password : Bytes
  pub timeout : ℤ
  pub connection_timeout : ℤ
  pub qos : ℤ
  pub client_id : Bytes
  pub retain : Bool
  pub keep_alive : ℤ
  pub auto_reconnect : Bool
  pub persistent_session : Bool
  pub client_config : ClientConfig
  pub handlers : MqttHandlers H

-- The fields of paho.ClientOptions that the source sets; `servers` are the brokers that were added.
pub record ClientOptions (os : Crypto) (H : Type 0) : Type 0 where
  pub servers : List Bytes
  pub client_id : Bytes
  pub username : Bytes
  pub password : Bytes
  pub clean_session : Bool
  pub auto_reconnect : Bool
  pub keep_alive : ℤ
  pub write_timeout : ℕ
  pub connect_timeout : ℕ
  pub tls_config : Option (TlsConfig os)
  pub handlers : MqttHandlers H

-- A token that was waited for: its error and, for one of a connection, whether the session was
-- there.
pub record Token : Type 0 where
  pub error : Err
  pub session_present : Option Bool

-- `publish` says whether the token was done within the timeout; `int63` is rand.Int63.
pub record Paho (os : Crypto) (H S : Type 0) : Type 1 where
  pub Handle : Type 0
  pub new_client_options : ClientOptions os H
  pub add_broker : Bytes → List Bytes → List Bytes
  pub new_client : ClientOptions os H → S → Handle × S
  pub connect : Handle → S → Token × S
  pub is_connected : Handle → S → Bool
  pub disconnect : ℕ → Handle → S → S
  pub publish : Handle → Bytes → ℕ → Bool → Bytes → ℕ → S → Bool × Token × S
  pub subscribe : Handle → Bytes → ℕ → H → S → Token × S
  pub subscribe_multiple : Handle → List (Bytes × ℕ) → H → S → Token × S
  pub add_route : Handle → Bytes → H → S → S
  pub int63 : S → ℕ × S
  pub not_connected_error : Error
  pub keep_alive_error : Error

abbrev no_handlers : {H : Type 0} → MqttHandlers H
no_handlers = record {
  default_publish_handler = none;
  on_connect = none;
  on_connection_lost = none;
  on_reconnecting = none;
  on_connect_attempt = none;
  custom_open_connection_fn = none;
}

unfoldable pub new_config : {H : Type 0} → Config H
new_config = record {
  brokers = [];
  protocol = codes "tcp";
  username = [];
  password = [];
  timeout = pos 5;
  connection_timeout = pos 30;
  qos = pos 0;
  client_id = [];
  retain = false;
  keep_alive = pos 0;
  auto_reconnect = true;
  persistent_session = false;
  client_config = record {
    client_ca = [];
    client_cert = [];
    client_key = [];
    client_key_pwd = [];
    client_enable = false;
    client_insecure_skip_verify = false;
  };
  handlers = no_handlers;
}

abbrev pub letter_bytes : Bytes
letter_bytes = codes "abcdefghijklmnopqrstuvwxyzABCDEFGHIJKLMNOPQRSTUVWXYZ"

-- letterBytes[i], for an index in range
abbrev pub letter : ℕ → ℕ
letter i = elim (get_elem? letter_bytes i) [ none ↦ 0 | some c ↦ c ]

abbrev or_else : {H : Type 0} → Option H → Option H → Option H
or_else none old = old
or_else (some h) old = some h

-- Each handler that is given replaces the default.
abbrev pub with_handlers : {H : Type 0} → MqttHandlers H → MqttHandlers H → MqttHandlers H
with_handlers h old = record {
  default_publish_handler = or_else h.default_publish_handler old.default_publish_handler;
  on_connect = or_else h.on_connect old.on_connect;
  on_connection_lost = or_else h.on_connection_lost old.on_connection_lost;
  on_reconnecting = or_else h.on_reconnecting old.on_reconnecting;
  on_connect_attempt = or_else h.on_connect_attempt old.on_connect_attempt;
  custom_open_connection_fn = old.custom_open_connection_fn;
}

module _ {os : Crypto} {H S : Type 0} (paho : Paho os H S) where
  unfoldable pub random_string : ℕ → S → Bytes × S
  random_string zero s = ([], s)
  random_string (suc n) s =
      let (r, s1) = paho.int63 s in
      let (rest, s2) = random_string n s1 in (letter (r % 52) ∷ rest, s2)

  unfoldable pub validate : Config H → Err
  validate c =
      if is_empty c.brokers
      then some err_missing_broker
      else if not (bytes_eq c.protocol (codes "tcp")) && not (bytes_eq c.protocol (codes "ssl"))
      then some err_invalid_protocol
      else if ltz c.timeout (pos 0)
      then some err_invalid_timeout
      else if ltz c.connection_timeout (pos 0)
      then some err_invalid_timeout
      else if ltz c.qos (pos 0) || ltz (pos 2) c.qos
      then some err_invalid_qos_level
      else if ltz c.keep_alive (pos 0)
      then some paho.keep_alive_error
      else none

  abbrev with_id : Config H → Bytes × S → Config H × S
  with_id c (id, s) = (record c { client_id = id }, s)

  -- What `clientOptions` writes into the configuration that it was given.
  unfoldable pub named : Config H → S → Config H × S
  unfolding random_string
  named c s = if is_empty c.client_id then with_id c (random_string 12 s) else (c, s)

  abbrev pub over_tls : Config H → Config H
  over_tls c = if c.client_config.client_enable then record c { protocol = codes "ssl" } else c

  unfoldable pub add_brokers : Bytes → List Bytes → List Bytes → List Bytes
  add_brokers protocol [] servers = servers
  add_brokers protocol (b ∷ bs) servers =
      add_brokers protocol bs (paho.add_broker (protocol ++ (codes "://" ++ b)) servers)

  -- The options for a configuration with an identifier and its final protocol. Without TLS the
  -- default TLS configuration is left.
  abbrev pub options_of : Config H → Option (TlsConfig os) → ClientOptions os H
  options_of c tls = record {
    servers = add_brokers c.protocol c.brokers paho.new_client_options.servers;
    client_id = c.client_id;
    username = c.username;
    password = c.password;
    clean_session = not c.persistent_session;
    auto_reconnect = c.auto_reconnect;
    keep_alive = c.keep_alive;
    write_timeout = seconds c.timeout;
    connect_timeout = seconds c.connection_timeout;
    tls_config = tls;
    handlers = with_handlers c.handlers paho.new_client_options.handlers;
  }

  unfoldable pub tls_of : Config H → Result (Option (TlsConfig os))
  tls_of c =
      if c.client_config.client_enable
      then client_tls_config os c.client_config
      else ok paho.new_client_options.tls_config

  abbrev pub optioned : Config H × S → Result (ClientOptions os H) × Config H × S
  optioned (c, s) =
      (and_then (tls_of (over_tls c)) (λ t. ok (options_of (over_tls c) t)), over_tls c, s)

  unfoldable pub client_options : Config H → S → Result (ClientOptions os H) × Config H × S
  unfolding named validate tls_of add_brokers
  client_options c s = elim (validate c) [ some e ↦ (err e, c, s) | none ↦ optioned (named c s) ]
