-- ===== src/Mqtt/Keeping.antt =====
-- What in GB4MQTT::poll leaves the queued request alone: everything outside a session, and within
-- it the packets of the broker, of which only a PUBACK is recorded.
use xbee_mqtt.Base.{ℕ, ◌≡◌, refl, Bool, true, false, List, Option, none, some, arith}
use xbee_mqtt.Platform.{Platform}
use xbee_mqtt.Radio.Types.{RadioState}
use xbee_mqtt.Radio.Message.{get_received_message}
use xbee_mqtt.Mqtt.Library.{PacketLibrary, MsgType, connack}
use xbee_mqtt.Mqtt.Types.{MqttReturn, MqttState, MqttRequest, Client, gb4mqtt_max_packet_size}
use xbee_mqtt.Mqtt.Incoming.{
  poll_incomming, read_packet, dispatch, dispatch_read, dispatch_incomming, check_timeout,
  poll_connack_status,
}
use xbee_mqtt.Mqtt.Outgoing.{
  send_connect_request, after_connect, send_serialized, send_publish_request,
}
use xbee_mqtt.Mqtt.Poll.{
  try_connect, await_socket, after_connect_request, after_connack_status, client_step,
}

-- A step that can only record an acknowledgement.
abbrev pub Keeps : MqttRequest → MqttRequest → Type 0
Keeps r r' = r' ≡ record r { got_puback = r'.got_puback }

Keeps-trans : (r r' r'' : MqttRequest) → Keeps r r' → Keeps r' r'' → Keeps r r''
Keeps-trans r r' r'' h k = ground arith

abbrev pub in_session : MqttState → Bool
in_session MqttState.begin_standby = true
in_session MqttState.standby = true
in_session _ = false

module _ {W : Type 0} (P : Platform W) (L : PacketLibrary) where
  poll_incomming-request :
      (n : ℕ) (c : Client W) → (poll_incomming P L n c).1.mqtt.request ≡ c.mqtt.request
  unfolding poll_incomming read_packet get_received_message
  poll_incomming-request n c = ground arith

  dispatch-Keeps :
      (t : MsgType) (message : List ℕ) (n : ℕ) (c : Client W)
      → Keeps c.mqtt.request (dispatch P L t message n c).1.mqtt.request
  unfolding dispatch
  dispatch-Keeps connack message n c = ground arith
  dispatch-Keeps _ message n c = ground arith

  dispatch_read-Keeps :
      (m : MqttReturn × MsgType × List ℕ × ℕ) (c : Client W)
      → Keeps c.mqtt.request (dispatch_read P L m c).1.mqtt.request
  unfolding dispatch_read
  dispatch_read-Keeps (MqttReturn.not_ready, t, message, n) c = dispatch-Keeps t message n c
  dispatch_read-Keeps (MqttReturn.waiting_message, t, message, n) c = refl
  dispatch_read-Keeps (_, t, message, n) c = dispatch-Keeps t message n c

  pub dispatch_incomming-Keeps :
      (c : Client W) → Keeps c.mqtt.request (dispatch_incomming P L c).1.mqtt.request
  unfolding dispatch_incomming
  dispatch_incomming-Keeps c =
      let (read, d) = poll_incomming P L gb4mqtt_max_packet_size c in
      ground (arith, poll_incomming-request gb4mqtt_max_packet_size c, dispatch_read-Keeps read d)

  check_timeout-request :
      (r : MqttReturn) (c : Client W) → (check_timeout P L r c).1.mqtt.request ≡ c.mqtt.request
  unfolding check_timeout
  check_timeout-request MqttReturn.got_connack c = refl
  check_timeout-request _ c = ground arith

  pub send_publish_request-mqtt :
      (r : MqttRequest) (c : Client W) → (send_publish_request P L r c).1.mqtt ≡ c.mqtt
  unfolding send_publish_request send_serialized
  send_publish_request-mqtt r c = ground arith

  try_connect-request :
      (address : Option (List ℕ)) (active : Bool) (c : Client W)
      → (try_connect P L address active c).1.mqtt.request ≡ c.mqtt.request
  unfolding try_connect
  try_connect-request none active c = refl
  try_connect-request (some a) false c = refl
  try_connect-request (some a) true c = ground arith

  await_socket-request :
      (t : RadioState) (c : Client W) → (await_socket P L t c).1.mqtt.request ≡ c.mqtt.request
  unfolding await_socket
  await_socket-request RadioState.start c = refl
  await_socket-request _ c = refl

  send_connect_request-request :
      (c : Client W) → (send_connect_request P L c).1.mqtt.request ≡ c.mqtt.request
  unfolding send_connect_request after_connect
  send_connect_request-request c = ground arith

  after_connect_request-request :
      (r : MqttReturn) (c : Client W)
      → (after_connect_request P L r c).1.mqtt.request ≡ c.mqtt.request
  unfolding after_connect_request
  after_connect_request-request MqttReturn.not_ready c = refl
  after_connect_request-request _ c = refl

  after_connack_status-request :
      (r : MqttReturn) (c : Client W)
      → (after_connack_status P L r c).1.mqtt.request ≡ c.mqtt.request
  unfolding after_connack_status
  after_connack_status-request MqttReturn.not_ready c = refl
  after_connack_status-request _ c = refl

  poll_connack_status-Keeps :
      (c : Client W) → Keeps c.mqtt.request (poll_connack_status P L c).1.mqtt.request
  unfolding poll_connack_status
  poll_connack_status-Keeps c =
      let (r, d) = dispatch_incomming P L c in
      ground (arith, dispatch_incomming-Keeps c, check_timeout-request r d)

  -- Outside a session a step leaves the request to itself.
  pub client_step-Keeps :
      (t : MqttState) (u : RadioState) (c : Client W)
      → in_session t ≡ false
      → Keeps c.mqtt.request (client_step P L t u c).1.mqtt.request
  unfolding client_step
  client_step-Keeps MqttState.not_connected u c s =
      ground (arith, try_connect-request c.mqtt.address c.mqtt.request.active c)
  client_step-Keeps MqttState.connecting_socket u c s = ground (arith, await_socket-request u c)
  client_step-Keeps MqttState.connect_mqtt u c s =
      let (r, d) = send_connect_request P L c in
      ground (arith, send_connect_request-request c, after_connect_request-request r d)
  client_step-Keeps MqttState.await_connack u c s =
      let (r, d) = poll_connack_status P L c in
      ground (arith, poll_connack_status-Keeps c, after_connack_status-request r d)
  client_step-Keeps MqttState.begin_standby u c s = cc
  client_step-Keeps MqttState.standby u c s = cc
  client_step-Keeps _ u c s = refl
