-- ===== src/Tests/Broker.antt =====
-- A client of provider/mqtt, on a toy library.
use blueprint.Prelude.{ℕ, ◌+◌, pos, codes, bytes_eq, true, none, some, [], ◌∷◌, ◌++◌, ◌≡◌, refl}
use blueprint.Errors.{ok, foreign}
use blueprint.Mqtt.{
  Config, ClientOptions, Paho, new_config, client_options, validate, named, random_string, tls_of,
  add_brokers,
}
use blueprint.Mqtt.Client.{Client, new_client}
use blueprint.Mqtt.Built.{IsBuilt, new_client-IsBuilt}
use blueprint.Tests.Certificates.{os}

-- The world counts the random numbers, and a handler is a number.
abbrev no_options : ClientOptions os ℕ
unfolding new_config
no_options = record {
  servers = [];
  client_id = [];
  username = [];
  password = [];
  clean_session = true;
  auto_reconnect = true;
  keep_alive = pos 30;
  write_timeout = 0;
  connect_timeout = 30000000000;
  tls_config = none;
  handlers = new_config.handlers;
}

abbrev paho : Paho os ℕ ℕ
unfolding no_options
paho = record {
  Handle = ℕ;
  new_client_options = no_options;
  add_broker = λ u us. us ++ u ∷ [];
  new_client = λ o s. (1, s);
  connect = λ h s. (record { error = none; session_present = some true }, s);
  is_connected = λ h s. true;
  disconnect = λ ms h s. s;
  publish = λ h topic qos retain value timeout s.
      (true, record { error = none; session_present = none }, s);
  subscribe = λ h topic qos f s. (record { error = none; session_present = none }, s);
  subscribe_multiple = λ h filters f s. (record { error = none; session_present = none }, s);
  add_route = λ h topic f s. s;
  int63 = λ s. (s, s + 1);
  not_connected_error = foreign 2;
  keep_alive_error = foreign 3;
}

-- QoS 1, a broker without an identifier for the client, and no wish to retain.
abbrev config : Config ℕ
unfolding new_config
config = record new_config { brokers = codes "h" ∷ []; qos = pos 1 }

abbrev built : Client paho
unfolding new_config no_options paho config
built = record {
  client_options = record no_options {
    servers = codes "tcp://h" ∷ [];
    client_id = codes "abcdefghijkl";
    clean_session = true;
    keep_alive = pos 0;
    write_timeout = 5000000000;
  };
  client = 1;
  qos = 1;
  timeout = 5000000000;
  retain = true;
}

client_made : (new_client paho config 0).0 ≡ ok built
unfolding new_client client_options validate named random_string tls_of add_brokers new_config
    bytes_eq no_options paho config built
client_made = refl

new_client-IsBuilt_example : IsBuilt paho config built
new_client-IsBuilt_example = new_client-IsBuilt paho config 0 built client_made
