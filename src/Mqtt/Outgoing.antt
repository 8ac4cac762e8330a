-- ===== src/Mqtt/Outgoing.antt =====
-- The packets that GB4MQTT sends, and its keepalive timer.
use xbee_mqtt.Base.{
  ℕ, zero, suc, ◌+◌, List, ◌==◌, if◌then◌else◌, ℤ, pos, negsuc, is_zero, elapsed, to_size,
  signed_gt, Prog, ◌>>=◌, ◌>>◌, pure, get,
}
use xbee_mqtt.Platform.{Platform}
use xbee_mqtt.Radio.Types.{RadioReturn, call}
use xbee_mqtt.Radio.Message.{send_message}
use xbee_mqtt.Mqtt.Library.{PacketLibrary, ConnectData, PublishData}
use xbee_mqtt.Mqtt.Types.{
  MqttReturn, MqttRequest, Mqtt, Client, on_mqtt, radio, gb4mqtt_connect_packet_size,
  gb4mqtt_network_timeout_interval_seconds, gb4mqtt_network_timeout_interval,
  gb4mqtt_keepalive_interval, topic_max_size, message_max_size,
}

abbrev pub pingreq_size : ℕ
pingreq_size = 2

abbrev pub publish_header_size : ℕ
publish_header_size = 6

abbrev pub packet_max_size : ℕ
packet_max_size = topic_max_size + message_max_size + publish_header_size

abbrev pub connect_data : Mqtt → ConnectData
connect_data m = record {
  client_id = m.client_id;
  username = m.client_name;
  password = m.client_password;
  keep_alive_interval = gb4mqtt_network_timeout_interval_seconds;
  clean_session = 1;
}

abbrev pub publish_data : MqttRequest → PublishData
publish_data r = record {
  dup = r.duplicate;
  qos = r.qos;
  retained = r.retain;
  packet_id = r.packet_id;
  topic = r.topic;
  payload = r.message;
  payload_len = r.message_len;
}

-- The three `switch`es on what `sendMessage` returned.
unfoldable pub connect_status : RadioReturn → MqttReturn
connect_status RadioReturn.message_sent = MqttReturn.connect_sent
connect_status RadioReturn.in_progress = MqttReturn.in_progress
connect_status RadioReturn.packet_error = MqttReturn.connect_packet_error
connect_status _ = MqttReturn.connect_socket_error

unfoldable pub ping_status : RadioReturn → MqttReturn
ping_status RadioReturn.message_sent = MqttReturn.ping_sent
ping_status RadioReturn.in_progress = MqttReturn.in_progress
ping_status RadioReturn.packet_error = MqttReturn.ping_packet_error
ping_status _ = MqttReturn.ping_socket_error

unfoldable pub publish_status : RadioReturn → MqttReturn
publish_status RadioReturn.message_sent = MqttReturn.publish_sent
publish_status RadioReturn.in_progress = MqttReturn.in_progress
publish_status _ = MqttReturn.publish_socket_error

module _ {W : Type 0} (P : Platform W) (L : PacketLibrary) where
  unfoldable pub after_connect : MqttReturn → Prog (Client W) MqttReturn
  after_connect MqttReturn.connect_sent = do
    now ← radio (call P.millis)
    on_mqtt (λ m. record m { connect_start_time = now })
    pure MqttReturn.connect_sent
  after_connect status = pure status

  -- GB4MQTT::sendConnectRequest
  unfoldable pub send_connect_request : Prog (Client W) MqttReturn
  send_connect_request = do
    m ← get (λ c. c.mqtt)
    let (len, packet) = L.serialize_connect gb4mqtt_connect_packet_size (connect_data m)
    if is_zero len
        then pure MqttReturn.connect_packet_error
        else (do r ← radio (send_message P packet (to_size len)); after_connect (connect_status r))

  unfoldable pub after_ping : MqttReturn → Prog (Client W) MqttReturn
  after_ping MqttReturn.ping_sent = do
    now ← radio (call P.millis)
    on_mqtt (λ m. record m { ping_period_start_time = now })
    pure MqttReturn.ping_sent
  after_ping status = pure status

  -- GB4MQTT::sendPingRequest
  unfoldable pub send_ping_request : Prog (Client W) MqttReturn
  send_ping_request = do
    let (len, packet) = L.serialize_pingreq pingreq_size
    if to_size len == pingreq_size
        then (do r ← radio (send_message P packet pingreq_size); after_ping (ping_status r))
        else pure MqttReturn.ping_packet_error

  unfoldable pub send_serialized : ℤ → List ℕ → Prog (Client W) MqttReturn
  unfolding publish_status
  send_serialized (pos zero) packet = pure MqttReturn.publish_packet_error
  send_serialized (pos (suc n)) packet = do
    r ← radio (send_message P packet (to_size (pos (suc n))))
    pure (publish_status r)
  send_serialized (negsuc n) packet = pure MqttReturn.publish_packet_error

  -- GB4MQTT::sendPublishRequest
  unfoldable pub send_publish_request : MqttRequest → Prog (Client W) MqttReturn
  send_publish_request req = do
    let (len, packet) = L.serialize_publish packet_max_size (publish_data req)
    send_serialized len packet

module _ {W : Type 0} (P : Platform W) where
  -- GB4MQTT::pollKeepAliveTimer: the two intervals are int32_t.
  unfoldable pub poll_keep_alive_timer : Prog (Client W) MqttReturn
  poll_keep_alive_timer = do
    now ← radio (call P.millis)
    start ← get (λ c. c.mqtt.keepalive_period_start_time)
    if signed_gt (elapsed now start) gb4mqtt_network_timeout_interval
        then pure MqttReturn.keepalive_timer_reconnect
        else (do
          later ← radio (call P.millis)
          ping_start ← get (λ c. c.mqtt.ping_period_start_time)
          pure (
              if signed_gt (elapsed later ping_start) gb4mqtt_keepalive_interval
              then MqttReturn.keepalive_timer_ping
              else MqttReturn.keepalive_timer_running))
