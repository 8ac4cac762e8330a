-- ===== src/Tests/Bench.antt =====
-- A scripted platform: the clock stands still, the ticks deliver the listed events in turn, and
-- every other call succeeds.
use xbee_mqtt.Base.{ℕ, ◌+◌, false, List, [], ◌∷◌, none, some, replicate, pos, negsuc}
use xbee_mqtt.Platform.{Platform, Event}
use xbee_mqtt.Notify.{Notify}
use xbee_mqtt.Notify.Receive.{Receive}
use xbee_mqtt.Radio.Types.{RadioState, Radio, Sys, cast_guard_value}
use xbee_mqtt.Mqtt.Types.{MqttReturn, MqttState, MqttRequest, Mqtt, Client}
use xbee_mqtt.Mqtt.Library.{PacketLibrary, connack}

pub record Bench : Type 0 where
  pub clock : ℕ
  pub ticks : List (List Event)

abbrev next_tick : Bench → List Event × Bench
next_tick w = elim w.ticks [ [] ↦ ([], w) | t ∷ ts ↦ (t, record w { ticks = ts }) ]

abbrev pub bench : Platform Bench
bench = record {
  millis = λ w. (w.clock, w);
  serial_write = λ _ w. w;
  serial_available = λ w. (3, w);
  stale_ok_buffer = λ _. replicate 7 0;
  serial_read_bytes = λ _ w. (b'O' ∷ b'K' ∷ 13 ∷ [], w);
  dev_init = λ w. (pos 0, w);
  dev_tick = next_tick;
  cmd_init_device = λ w. w;
  cmd_query_device = λ w. w;
  cmd_query_status = λ w. (pos 0, w);
  cmd_create = λ _ w. (pos 1, w);
  cmd_set_callback = λ _ w. w;
  cmd_set_param_str = λ _ _ w. (pos 0, w);
  cmd_send = λ _ w. (pos 0, w);
  sock_reset = λ w. w;
  protocol_tcp = 1;
  protocol_ssl = 4;
  sock_create = λ _ w. (pos 7, w);
  sock_connect = λ _ _ _ _ w. (pos 0, w);
  sock_send = λ _ _ _ _ w. (pos 0, w);
  ieee_address = λ _. (1, 2);
}

-- A platform whose clock moves on by 1300 ms with every reading.
abbrev pub clocked : Platform Bench
clocked = record bench { millis = λ w. (w.clock, record w { clock = w.clock + 1300 }) }

-- The same, with a driver that cannot create commands.
abbrev pub mute_bench : Platform Bench
mute_bench = record bench { cmd_create = λ _ w. (negsuc 0, w); dev_tick = λ w. ([], w) }

abbrev pub apn : List ℕ
apn = b'e' ∷ b'm' ∷ replicate 30 0

abbrev pub radio_in : RadioState → Radio
radio_in t = record {
  cast_guard = cast_guard_value;
  m_state = t;
  err = pos 0;
  guard_time_start = 0;
  response_start_time = 0;
  connect_start_time = 0;
  connect_retry_delay_start_time = 0;
  socket_create_start_time = 0;
  socket_cooldown_start_time = 0;
  option_start_time = 0;
  send_start_time = 0;
  access_point_name = apn;
  access_point_name_len = 0;
  got_access_point_name = false;
  need_set_access_point_name = false;
  baudrate = 9600;
  sock = pos 7;
  transport_protocol = 4;
  tls_profile = 0;
  notify_count = 0;
  connect_in_progress = false;
}

abbrev pub quiet : Notify
quiet = record { socket = pos 7; type = 0; tx_mesg = 0; sock_mesg = 0; state_mesg = 0; m_count = 0 }

abbrev pub nothing_received : Receive
nothing_received = record {
  socket = pos 7;
  m_count = 0;
  m_dropped_count = 0;
  m_pending = false;
  m_payload_len = 0;
  m_payload = replicate 300 0;
}

-- A radio in the state, the clock, and the ticks to come.
abbrev pub sys_in : RadioState → ℕ → List (List Event) → Sys Bench
sys_in t clock ticks = record {
  radio = radio_in t;
  notify = quiet;
  receive = nothing_received;
  world = record { clock = clock; ticks = ticks };
}

abbrev pub idle_request : MqttRequest
idle_request = record {
  topic = replicate 64 0;
  topic_len = 0;
  message = replicate 900 0;
  message_len = 0;
  qos = 0;
  retain = 0;
  duplicate = 0;
  packet_id = 0;
  start_time = 0;
  tries = 0;
  got_puback = false;
  ready_to_send = false;
  disconnect = false;
  active = false;
}

abbrev pub mqtt_in : MqttState → Mqtt
mqtt_in t = record {
  state = t;
  err = pos 0;
  connect_start_time = 0;
  keepalive_period_start_time = 0;
  ping_period_start_time = 0;
  client_id = [];
  client_name = [];
  client_password = [];
  port = 8883;
  address = some (b'h' ∷ []);
  allow_connect = false;
  packet_id = record { packet_id = 1 };
  request = idle_request;
  fetch = record { source = none; head = 0 };
}

abbrev pub client_in : MqttState → Sys Bench → Client Bench
client_in t s = record { mqtt = mqtt_in t; sys = s }

-- A serializer whose packets have one byte; what it reads is always a CONNACK that accepts.
abbrev pub library : PacketLibrary
library = record {
  serialize_connect = λ _ _. (pos 1, 16 ∷ []);
  serialize_pingreq = λ _. (pos 2, 192 ∷ 0 ∷ []);
  serialize_publish = λ _ _. (pos 1, 48 ∷ []);
  deserialize_connack = λ _ _. some (0, 0);
  deserialize_ack = λ _ _. none;
  connection_accepted = 0;
  packet_read = λ get n f. (connack, (get n f).1, (get n f).2);
  byte_behind = λ i. 0;
  unassigned_status = MqttReturn.listening;
}
