-- ===== src/Mqtt/Client.antt =====
-- The client of provider/mqtt/client.go and its operations.
use blueprint.Prelude.{
  seconds, ℕ, ◌%◌, pos_part, Bytes, Bool, true, false, not, none, some, List, if◌then◌else◌,
}
use blueprint.Errors.{Err, Result, ok, err, err_nil_config, err_publish_timeout}
use blueprint.Tls.{Crypto}
use blueprint.Mqtt.{Config, ClientOptions, Token, Paho, client_options}

module _ {os : Crypto} {H S : Type 0} (paho : Paho os H S) where
  pub record Client : Type 0 where
    pub client_options : ClientOptions os H
    pub client : paho.Handle
    pub qos : ℕ
    pub timeout : ℕ
    pub retain : Bool

  abbrev pub client_of : Config H → ClientOptions os H → paho.Handle → Client
  client_of c o h = record {
    client_options = o;
    client = h;
    qos = pos_part c.qos % 256;
    timeout = seconds c.timeout;
    retain = true;
  }

  abbrev pub with_client :
      Config H → ClientOptions os H → paho.Handle × S → Result Client × Config H × S
  with_client c o (h, s) = (ok (client_of c o h), c, s)

  abbrev pub made : Result (ClientOptions os H) × Config H × S → Result Client × Config H × S
  made (err e, c, s) = (err e, c, s)
  made (ok o, c, s) = with_client c o (paho.new_client o s)

  -- `CustomSettings` does nothing. The configuration is given back as it is left; one that is nil
  -- is `new_client_nil`.
  unfoldable pub new_client : Config H → S → Result Client × Config H × S
  unfolding client_options
  new_client c s = made (client_options paho c s)

  unfoldable pub new_client_nil : Result Client
  new_client_nil = err err_nil_config

  abbrev connected_with : Token × S → Result Bool × S
  connected_with (t, s) = elim t.error [
    | some e ↦ (err e, s)
    | none ↦ elim t.session_present [ none ↦ (ok false, s) | some b ↦ (ok b, s) ]
  ]

  unfoldable pub connect : Client → S → Result Bool × S
  connect c s = connected_with (paho.connect c.client s)

  unfoldable pub close : Client → S → Err × S
  close c s = (none, if paho.is_connected c.client s then paho.disconnect 250 c.client s else s)

  abbrev published : Bool × Token × S → Err × S
  published (in_time, t, s) = if in_time then (t.error, s) else (some err_publish_timeout, s)

  unfoldable pub write : Client → Bytes → Bytes → S → Err × S
  write c topic value s =
      if not (paho.is_connected c.client s)
      then (some paho.not_connected_error, s)
      else published (paho.publish c.client topic c.qos c.retain value c.timeout s)

  unfoldable pub write_json : Client → Bytes → Result Bytes → S → Err × S
  unfolding write
  write_json c topic marshalled s = elim marshalled [
    | err e ↦ (some e, s)
    | ok value ↦ write c topic value s
  ]

  abbrev waited : Token × S → Err × S
  waited (t, s) = (t.error, s)

  unfoldable pub subscribe : Client → Bytes → ℕ → H → S → Err × S
  subscribe c topic qos handler s = waited (paho.subscribe c.client topic qos handler s)

  unfoldable pub subscribe_multiple : Client → List (Bytes × ℕ) → H → S → Err × S
  subscribe_multiple c filters handler s =
      waited (paho.subscribe_multiple c.client filters handler s)

  -- `sender` is the handler that sends each message to the channel.
  unfoldable pub channel_subscribe : Client → Bytes → ℕ → H → S → Err × S
  channel_subscribe c topic qos sender s = waited (paho.subscribe c.client topic qos sender s)

  unfoldable pub add_route : Client → Bytes → H → S → S
  add_route c topic handler s = paho.add_route c.client topic handler s
