-- ===== src/Mqtt/Client.antt =====
-- The constructor of GB4MQTT, `begin`, `publish` and the accessors.
use xbee_mqtt.Base.{
  ℕ, Bool, true, false, List, Option, some, none, take, if◌then◌else◌, pos, overwrite,
  strncpy_bytes, Prog, ◌>>=◌, ◌>>◌, pure, get,
}
use xbee_mqtt.Platform.{Platform}
use xbee_mqtt.Radio.Types.{Sys, new_radio, get_baud, call}
use xbee_mqtt.Radio.Startup
use xbee_mqtt.Radio.Commands
use xbee_mqtt.Mqtt.Types.{
  MqttReturn, MqttState, MqttRequest, new_request, new_packet_id, get_next, Mqtt, Client, on_mqtt,
  on_request, set_mqtt_state, radio,
}

abbrev is_standby : MqttState → Bool
is_standby MqttState.standby = true
is_standby _ = false

-- The arguments of the constructor.
pub record Settings : Type 0 where
  pub radio_baud : ℕ
  pub radio_apn : List ℕ
  pub use_tls : Bool
  pub network_port : ℕ
  pub network_address : List ℕ
  pub id : List ℕ
  pub name : List ℕ
  pub pwd : List ℕ

-- GB4MQTT::GB4MQTT. `raw` is what memory held, for the members with no initializer.
unfoldable pub new_mqtt : Settings → Mqtt → Mqtt
unfolding new_request new_packet_id
new_mqtt a raw = record raw {
  port = a.network_port;
  address = some a.network_address;
  client_id = a.id;
  client_name = a.name;
  client_password = a.pwd;
  connect_start_time = 0;
  allow_connect = false;
  state = MqttState.init;
  err = pos 0;
  packet_id = new_packet_id;
  request = new_request raw.request.topic raw.request.message;
  fetch = record { source = none; head = 0 };
}

unfoldable pub new_client : {W : Type 0} → Platform W → Settings → Client W → Client W
unfolding new_mqtt new_radio
new_client P a raw = record {
  mqtt = new_mqtt a raw.mqtt;
  sys = record raw.sys { radio = new_radio P a.radio_baud a.radio_apn a.use_tls 0 raw.sys.radio };
}

module _ {W : Type 0} (P : Platform W) where
  -- MQTTRequest::MQTTRequest of a topic and a message. The two arrays keep what memory held behind
  -- the bytes that are copied.
  unfoldable pub init_request :
      List ℕ → ℕ → List ℕ → ℕ → ℕ → ℕ → ℕ → Bool → MqttRequest → Prog (Sys W) MqttRequest
  init_request top toplen mes meslen q r id disconn raw = do
    now ← call P.millis
    pure (record {
      topic = overwrite (strncpy_bytes toplen top) raw.topic;
      topic_len = toplen;
      message = overwrite (take meslen mes) raw.message;
      message_len = meslen;
      qos = q;
      retain = r;
      packet_id = id;
      start_time = now;
      tries = 0;
      duplicate = 0;
      got_puback = false;
      ready_to_send = true;
      disconnect = disconn;
      active = false;
    })

  -- GB4MQTT::begin
  unfoldable pub begin : Prog (Client W) Bool
  unfolding Startup.begin
  begin = do
    started ← radio (Startup.begin P)
    if started
        then (do set_mqtt_state MqttState.not_connected; pure true)
        else (do set_mqtt_state MqttState.radio_init_failed; pure false)

  -- GB4MQTT::publish; `topic_len` and `message_len` are the callers', not checked.
  unfoldable pub publish : List ℕ → ℕ → List ℕ → ℕ → ℕ → Bool → Prog (Client W) MqttReturn
  unfolding get_next
  publish topic topic_len message message_len qos disconnect = do
    on_request (λ r. record r {
      topic = overwrite (strncpy_bytes topic_len topic) r.topic;
      topic_len = topic_len;
      message = overwrite (take message_len message) r.message;
      message_len = message_len;
      qos = qos;
      retain = 0;
      duplicate = 0;
    })
    now ← radio (call P.millis)
    on_request (λ r. record r { start_time = now; tries = 0 })
    counter ← get (λ c. c.mqtt.packet_id)
    on_mqtt (λ m. record m { packet_id = (get_next counter).1 })
    on_request (λ r. record r {
      packet_id = (get_next counter).0;
      disconnect = disconnect;
      got_puback = false;
      ready_to_send = true;
      active = true;
    })
    pure MqttReturn.publish_queued

  unfoldable pub get_radio_serial_number : Client W → ℕ
  unfolding Commands.get_serial_number
  get_radio_serial_number c = Commands.get_serial_number P c.sys

module _ {W : Type 0} where
  unfoldable pub get_radio_baud : Client W → ℕ
  get_radio_baud c = get_baud c.sys.radio

  unfoldable pub is_ready : Client W → Bool
  is_ready c = is_standby c.mqtt.state

  unfoldable pub set_address : Option (List ℕ) → Prog (Client W) (Unit {0})
  set_address addr = on_mqtt (λ m. record m { address = addr })

  unfoldable pub set_port : ℕ → Prog (Client W) (Unit {0})
  set_port p = on_mqtt (λ m. record m { port = p })

  unfoldable pub set_client_id : List ℕ → Prog (Client W) (Unit {0})
  set_client_id id = on_mqtt (λ m. record m { client_id = id })

  unfoldable pub set_client_name : List ℕ → Prog (Client W) (Unit {0})
  set_client_name name = on_mqtt (λ m. record m { client_name = name })

  unfoldable pub set_password : List ℕ → Prog (Client W) (Unit {0})
  set_password pwd = on_mqtt (λ m. record m { client_password = pwd })

  unfoldable pub start_connect : Prog (Client W) (Unit {0})
  start_connect = on_mqtt (λ m. record m { allow_connect = true })
