-- ===== src/Mqtt/Poll.antt =====
-- GB4MQTT::poll
use xbee_mqtt.Base.{
  Bool, true, false, Option, none, some, List, ℕ, if◌then◌else◌, Prog, ◌>>=◌, ◌>>◌, pure, get,
}
use xbee_mqtt.Platform.{Platform}
use xbee_mqtt.Radio.Types.{RadioState, lt_state}
use xbee_mqtt.Radio.Timers.{reset_socket}
use xbee_mqtt.Radio.Socket
use xbee_mqtt.Mqtt.Library.{PacketLibrary}
use xbee_mqtt.Mqtt.Types.{MqttReturn, MqttState, Client, set_mqtt_state, radio}
use xbee_mqtt.Mqtt.Incoming.{dispatch_incomming, poll_connack_status}
use xbee_mqtt.Mqtt.Outgoing.{send_connect_request}
use xbee_mqtt.Mqtt.Publish.{handle_publish_requests}

-- The result of `poll` for the state it leaves.
unfoldable pub poll_result : MqttState → MqttReturn
poll_result MqttState.not_connected = MqttReturn.radio_ready
poll_result MqttState.begin_standby = MqttReturn.connected
poll_result MqttState.standby = MqttReturn.connected
poll_result _ = MqttReturn.in_progress

module _ {W : Type 0} (P : Platform W) (L : PacketLibrary) where
  -- `radio.resetSocket(); state = State::NOT_CONNECTED;`
  unfoldable pub drop_connection : Prog (Client W) (Unit {0})
  drop_connection = do _ ← radio (reset_socket P); set_mqtt_state MqttState.not_connected

  unfoldable pub try_connect : Option (List ℕ) → Bool → Prog (Client W) (Unit {0})
  try_connect none active = pure tt
  try_connect (some address) false = pure tt
  try_connect (some address) true = do
    port ← get (λ c. c.mqtt.port)
    sent ← radio (Socket.connect P port address)
    if sent
        then set_mqtt_state MqttState.connecting_socket
        else (do _ ← radio (reset_socket P); pure tt)

  unfoldable pub await_socket : RadioState → Prog (Client W) (Unit {0})
  unfolding drop_connection
  await_socket RadioState.await_connection = pure tt
  await_socket RadioState.await_connect_response = pure tt
  await_socket RadioState.connected = set_mqtt_state MqttState.connect_mqtt
  await_socket _ = drop_connection

  unfoldable pub after_connect_request : MqttReturn → Prog (Client W) (Unit {0})
  unfolding drop_connection
  after_connect_request MqttReturn.connect_sent = set_mqtt_state MqttState.await_connack
  after_connect_request MqttReturn.connect_socket_error = drop_connection
  after_connect_request _ = pure tt

  unfoldable pub after_connack_status : MqttReturn → Prog (Client W) (Unit {0})
  unfolding drop_connection
  after_connack_status MqttReturn.listening = pure tt
  after_connack_status MqttReturn.got_connack = set_mqtt_state MqttState.begin_standby
  after_connack_status _ = drop_connection

  unfoldable pub standby : Prog (Client W) (Unit {0})
  standby = do
    _ ← dispatch_incomming P L
    fine ← handle_publish_requests P L
    if fine then pure tt else drop_connection

  -- The `switch` of `poll`; `radio_state` is what `radio.poll()` returned.
  unfoldable pub client_step : MqttState → RadioState → Prog (Client W) (Unit {0})
  client_step MqttState.not_connected radio_state = do
    m ← get (λ c. c.mqtt)
    try_connect m.address m.request.active
  client_step MqttState.connecting_socket radio_state = await_socket radio_state
  client_step MqttState.connect_mqtt radio_state = do
    r ← send_connect_request P L
    after_connect_request r
  client_step MqttState.await_connack radio_state = do
    r ← poll_connack_status P L
    after_connack_status r
  client_step MqttState.begin_standby radio_state = do set_mqtt_state MqttState.standby; standby
  client_step MqttState.standby radio_state = standby
  client_step _ radio_state = pure tt

  -- GB4MQTT::poll
  unfoldable pub poll : Prog (Client W) MqttReturn
  poll = do
    radio_state ← radio (Socket.poll P)
    if lt_state radio_state RadioState.socket_ready
        then (do set_mqtt_state MqttState.not_connected; pure MqttReturn.in_progress)
        else (do
          st ← get (λ c. c.mqtt.state)
          client_step st radio_state
          left ← get (λ c. c.mqtt.state)
          pure (poll_result left))
