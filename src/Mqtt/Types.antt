-- ===== src/Mqtt/Types.antt =====
-- gb4mqtt.h: the data of classes GB4MQTT and MQTTRequest.
use xbee_mqtt.Base.{ℕ, ◌+◌, ◌*◌, Bool, false, List, Option, ℤ, u8, u16, Prog}
use xbee_mqtt.Radio.Types.{Sys}

-- GB4MQTT::Return
pub data MqttReturn : Type 0 where
  not_ready puback_malformed publish_timeout publish_queue_full publish_queue_empty : MqttReturn
  publish_socket_error publish_packet_error buffer_full dispatch_type_error : MqttReturn
  ping_packet_error ping_socket_error connect_packet_error connect_socket_error : MqttReturn
  connack_timeout connack_rejected connack_error listening radio_ready connect_sent : MqttReturn
  got_connack waiting_message message_received connected keepalive_timer_reconnect : MqttReturn
  keepalive_timer_ping keepalive_timer_running ping_sent dispatched_ping : MqttReturn
  publish_queued publish_sent puback_in_progress got_puback dispatched_puback : MqttReturn
  in_progress : MqttReturn

-- GB4MQTT::State
pub data MqttState : Type 0 where
  radio_init_failed init starting_radio reset_socket restarting_socket not_connected : MqttState
  connecting_socket begin_connect_retry_delay connect_retry_delay connect_mqtt : MqttState
  await_connack begin_standby standby await_suback ping await_pingack : MqttState

abbrev pub gb4mqtt_connack_timeout : ℕ
gb4mqtt_connack_timeout = 10000

abbrev pub gb4mqtt_max_packet_size : ℕ
gb4mqtt_max_packet_size = 128

abbrev pub gb4mqtt_network_timeout_interval_seconds : ℕ
gb4mqtt_network_timeout_interval_seconds = 120

abbrev pub gb4mqtt_network_timeout_interval : ℕ
gb4mqtt_network_timeout_interval = gb4mqtt_network_timeout_interval_seconds * 1000

-- The interval divided by the float 2.0.
abbrev pub gb4mqtt_keepalive_interval : ℕ
gb4mqtt_keepalive_interval = 60000

abbrev pub gb4mqtt_connect_packet_size : ℕ
gb4mqtt_connect_packet_size = 80

abbrev pub gb4mqtt_publish_timeout : ℕ
gb4mqtt_publish_timeout = 10000

abbrev pub gb4mqtt_publish_max_tries : ℕ
gb4mqtt_publish_max_tries = 4

abbrev pub topic_max_size : ℕ
topic_max_size = 64

abbrev pub message_max_size : ℕ
message_max_size = 900

-- class MQTTRequest; `topic` and `message` are the two arrays.
pub record MqttRequest : Type 0 where
  pub topic : List ℕ
  pub topic_len : ℕ
  pub message : List ℕ
  pub message_len : ℕ
  pub qos : ℕ
  pub retain : ℕ
  pub duplicate : ℕ
  pub packet_id : ℕ
  pub start_time : ℕ
  pub tries : ℕ
  pub got_puback : Bool
  pub ready_to_send : Bool
  pub disconnect : Bool
  pub active : Bool

-- MQTTRequest::MQTTRequest(). The two arrays keep what memory held.
unfoldable pub new_request : List ℕ → List ℕ → MqttRequest
new_request raw_topic raw_message = record {
  topic = raw_topic;
  topic_len = 0;
  message = raw_message;
  message_len = 0;
  qos = 0;
  retain = 0;
  duplicate = 0;
  packet_id = 0;
  start_time = 0;
  tries = 0;
  got_puback = false;
  ready_to_send = false;
  disconnect = false;
  active = false;
}

-- class GB4MQTT::PacketId: a uint16_t counter whose `get_next` returns a uint8_t.
pub record PacketId : Type 0 where
  pub packet_id : ℕ

unfoldable pub new_packet_id : PacketId
new_packet_id = record { packet_id = 1 }

unfoldable pub get_next : PacketId → ℕ × PacketId
get_next p = (u8 p.packet_id, record { packet_id = u16 (p.packet_id + 1) })

-- The static variables `_fetch_data` and `_fetch_head`; `source` is `none` for NULL.
pub record Fetch : Type 0 where
  pub source : Option (List ℕ)
  pub head : ℕ

-- The members of GB4MQTT but `radio`; a start time (int32_t) is its bit pattern, a C string its
-- bytes. The statics of gb4mqtt.cpp stand here too.
pub record Mqtt : Type 0 where
  pub state : MqttState
  pub err : ℤ
  pub connect_start_time : ℕ
  pub keepalive_period_start_time : ℕ
  pub ping_period_start_time : ℕ
  pub client_id : List ℕ
  pub client_name : List ℕ
  pub client_password : List ℕ
  pub port : ℕ
  pub address : Option (List ℕ)
  pub allow_connect : Bool
  pub packet_id : PacketId
  pub request : MqttRequest
  pub fetch : Fetch

-- A GB4MQTT with its `radio`, the globals of xbee_notify.cpp and the world.
pub record Client (W : Type 0) : Type 0 where
  pub mqtt : Mqtt
  pub sys : Sys W

module _ {W : Type 0} where
  abbrev pub on_mqtt : (Mqtt → Mqtt) → Prog (Client W) (Unit {0})
  on_mqtt f c = (tt, record c { mqtt = f c.mqtt })

  abbrev pub on_request : (MqttRequest → MqttRequest) → Prog (Client W) (Unit {0})
  on_request f = on_mqtt (λ m. record m { request = f m.request })

  abbrev pub set_mqtt_state : MqttState → Prog (Client W) (Unit {0})
  set_mqtt_state t = on_mqtt (λ m. record m { state = t })

  -- A method of `radio`.
  abbrev pub radio : {A : Type 0} → Prog (Sys W) A → Prog (Client W) A
  radio f c = let (a, sys) = f c.sys in (a, record c { sys = sys })
