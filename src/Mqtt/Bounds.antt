-- ===== src/Mqtt/Bounds.antt =====
-- The arrays of the client's radio and of the receive buffer keep their sizes in every poll of GB4MQTT.
use xbee_mqtt.Base.{
  ℕ, zero, suc, Bool, true, false, List, Option, none, some, ℤ, pos, negsuc, to_size, is_zero,
  if◌then◌else◌, arith, inl, inr, Prog, Bool-cases,
}
use xbee_mqtt.Platform.{Platform}
use xbee_mqtt.Radio.Types.{RadioState, lt_state}
use xbee_mqtt.Radio.Socket
use xbee_mqtt.Radio.Message.{send_message}
use xbee_mqtt.Radio.Bounds.{
  Sized, poll-Sized, connect-Sized, reset_socket-Sized, send_message-Sized,
  get_received_message-Sized,
}
use xbee_mqtt.Mqtt.Library.{PacketLibrary, MsgType, connack}
use xbee_mqtt.Mqtt.Types.{
  MqttReturn, MqttState, Client, radio, on_request, gb4mqtt_max_packet_size,
  gb4mqtt_connect_packet_size,
}
use xbee_mqtt.Mqtt.Incoming.{
  poll_incomming, read_packet, dispatch, dispatch_read, dispatch_incomming, check_timeout,
  poll_connack_status,
}
use xbee_mqtt.Mqtt.Outgoing.{
  connect_data, connect_status, after_connect, send_connect_request, publish_data, packet_max_size,
  send_serialized, send_publish_request,
}
use xbee_mqtt.Mqtt.Publish.{
  after_publish, send_request, send_disconnect, await_puback, handle_publish_requests,
}
use xbee_mqtt.Mqtt.Poll.{
  drop_connection, try_connect, await_socket, after_connect_request, after_connack_status, standby,
  client_step, poll,
}
use xbee_mqtt.Mqtt.Graph.{poll_dropped, poll_served}

-- A program that keeps the sizes.
abbrev KeepsSizes : {W A : Type 0} → Prog (Client W) A → Type 0
KeepsSizes {W} m = (c : Client W) → Sized c.sys → Sized (m c).1.sys

if_KeepsSizes :
    {W A : Type 0} (b : Bool) (m k : Prog (Client W) A)
    → KeepsSizes m
    → KeepsSizes k
    → KeepsSizes (if b then m else k)
if_KeepsSizes true m k h l = h
if_KeepsSizes false m k h l = l

module _ {W : Type 0} (P : Platform W) (L : PacketLibrary) where
  poll_incomming-Sized : (n : ℕ) → KeepsSizes (poll_incomming P L n)
  unfolding poll_incomming read_packet
  poll_incomming-Sized n c h =
      ground (arith, get_received_message-Sized gb4mqtt_max_packet_size c.sys h)

  dispatch-Sized : (t : MsgType) (message : List ℕ) (n : ℕ) → KeepsSizes (dispatch P L t message n)
  unfolding dispatch
  dispatch-Sized connack message n c h = ground arith
  dispatch-Sized _ message n c h = ground arith

  dispatch_read-Sized : (m : MqttReturn × MsgType × List ℕ × ℕ) → KeepsSizes (dispatch_read P L m)
  unfolding dispatch_read
  dispatch_read-Sized (MqttReturn.not_ready, t, message, n) c h = dispatch-Sized t message n c h
  dispatch_read-Sized (MqttReturn.waiting_message, t, message, n) c h = h
  dispatch_read-Sized (_, t, message, n) c h = dispatch-Sized t message n c h

  dispatch_incomming-Sized : KeepsSizes (dispatch_incomming P L)
  unfolding dispatch_incomming
  dispatch_incomming-Sized c h =
      let (read, d) = poll_incomming P L gb4mqtt_max_packet_size c in
      dispatch_read-Sized read d (poll_incomming-Sized gb4mqtt_max_packet_size c h)

  check_timeout-Sized : (r : MqttReturn) → KeepsSizes (check_timeout P L r)
  unfolding check_timeout
  check_timeout-Sized MqttReturn.got_connack c h = ground arith
  check_timeout-Sized _ c h = ground arith

  poll_connack_status-Sized : KeepsSizes (poll_connack_status P L)
  unfolding poll_connack_status
  poll_connack_status-Sized c h =
      let (r, d) = dispatch_incomming P L c in
      check_timeout-Sized r d (dispatch_incomming-Sized c h)

  after_connect-Sized : (r : MqttReturn) → KeepsSizes (after_connect P L r)
  unfolding after_connect
  after_connect-Sized MqttReturn.connect_sent c h = ground arith
  after_connect-Sized _ c h = h

  send_connect_request-Sized : KeepsSizes (send_connect_request P L)
  unfolding send_connect_request
  send_connect_request-Sized c h =
      let (len, packet) = L.serialize_connect gb4mqtt_connect_packet_size (connect_data c.mqtt) in
      let (r, d) = radio (send_message P packet (to_size len)) c in
      elim (Bool-cases (is_zero len)) [
        | inl none_made ↦ rw none_made h
        | inr made ↦ rw made (
            after_connect-Sized (connect_status r) d
              (send_message-Sized P packet (to_size len) c.sys h))
      ]

  send_serialized-Sized : (len : ℤ) (packet : List ℕ) → KeepsSizes (send_serialized P L len packet)
  unfolding send_serialized
  send_serialized-Sized (pos zero) packet c h = h
  send_serialized-Sized (pos (suc n)) packet c h =
      send_message-Sized P packet (to_size (pos (suc n))) c.sys h
  send_serialized-Sized (negsuc n) packet c h = h

  after_publish-Sized : (r : MqttReturn) → KeepsSizes (after_publish P L r)
  unfolding after_publish
  after_publish-Sized MqttReturn.publish_sent c h = ground arith
  after_publish-Sized _ c h = ground arith

  send_request-Sized : KeepsSizes (send_request P L)
  unfolding send_request send_publish_request
  send_request-Sized c h =
      let d = (on_request (λ r. record r { ready_to_send = false }) c).1 in
      let (len, packet) = L.serialize_publish packet_max_size (publish_data d.mqtt.request) in
      let (r, e) = send_serialized P L len packet d in
      after_publish-Sized r e (send_serialized-Sized len packet d h)

  await_puback-Sized : KeepsSizes (await_puback P L)
  unfolding await_puback send_disconnect send_message
  await_puback-Sized c h = ground arith

  handle_publish_requests-Sized : KeepsSizes (handle_publish_requests P L)
  unfolding handle_publish_requests
  handle_publish_requests-Sized c h =
      let r = c.mqtt.request in
      if_KeepsSizes r.active _ _
        (if_KeepsSizes r.ready_to_send _ _ send_request-Sized await_puback-Sized) (λ d k. k) c h

  drop_connection-Sized : KeepsSizes (drop_connection P L)
  unfolding drop_connection
  drop_connection-Sized c h = reset_socket-Sized P c.sys h

  try_connect-Sized :
      (address : Option (List ℕ)) (active : Bool) → KeepsSizes (try_connect P L address active)
  unfolding try_connect
  try_connect-Sized none active c h = h
  try_connect-Sized (some a) false c h = h
  try_connect-Sized (some a) true c h =
      let (sent, s) = Socket.connect P c.mqtt.port a c.sys in
      let kept = connect-Sized P c.mqtt.port a c.sys h in
      elim (Bool-cases sent) [ inl e ↦ rw e kept | inr e ↦ rw e (reset_socket-Sized P s kept) ]

  await_socket-Sized : (t : RadioState) → KeepsSizes (await_socket P L t)
  unfolding await_socket
  await_socket-Sized RadioState.await_connection c h = h
  await_socket-Sized RadioState.await_connect_response c h = h
  await_socket-Sized RadioState.connected c h = h
  await_socket-Sized _ c h = drop_connection-Sized c h

  after_connect_request-Sized : (r : MqttReturn) → KeepsSizes (after_connect_request P L r)
  unfolding after_connect_request
  after_connect_request-Sized MqttReturn.connect_sent c h = h
  after_connect_request-Sized MqttReturn.connect_socket_error c h = drop_connection-Sized c h
  after_connect_request-Sized _ c h = h

  after_connack_status-Sized : (r : MqttReturn) → KeepsSizes (after_connack_status P L r)
  unfolding after_connack_status
  after_connack_status-Sized MqttReturn.listening c h = h
  after_connack_status-Sized MqttReturn.got_connack c h = h
  after_connack_status-Sized _ c h = drop_connection-Sized c h

  standby-Sized : KeepsSizes (standby P L)
  unfolding standby
  standby-Sized c h =
      let d = (dispatch_incomming P L c).1 in
      let (fine, e) = handle_publish_requests P L d in
      let kept = handle_publish_requests-Sized d (dispatch_incomming-Sized c h) in
      elim (Bool-cases fine) [
        | inl ok ↦ rw ok kept
        | inr broken ↦ rw broken (drop_connection-Sized e kept)
      ]

  client_step-Sized : (t : MqttState) (u : RadioState) → KeepsSizes (client_step P L t u)
  unfolding client_step
  client_step-Sized MqttState.not_connected u c h =
      try_connect-Sized c.mqtt.address c.mqtt.request.active c h
  client_step-Sized MqttState.connecting_socket u c h = await_socket-Sized u c h
  client_step-Sized MqttState.connect_mqtt u c h =
      let (r, d) = send_connect_request P L c in
      after_connect_request-Sized r d (send_connect_request-Sized c h)
  client_step-Sized MqttState.await_connack u c h =
      let (r, d) = poll_connack_status P L c in
      after_connack_status-Sized r d (poll_connack_status-Sized c h)
  client_step-Sized MqttState.begin_standby u c h =
      standby-Sized (record c { mqtt = record c.mqtt { state = MqttState.standby } }) h
  client_step-Sized MqttState.standby u c h = standby-Sized c h
  client_step-Sized _ u c h = h

  -- A poll keeps the sizes, whatever the driver, the clock and the broker do.
  pub client_poll-Sized : KeepsSizes (poll P L)
  client_poll-Sized c h =
      let d = (radio (Socket.poll P) c).1 in
      let kept = poll-Sized P c.sys h in
      elim (Bool-cases (lt_state d.sys.radio.m_state RadioState.socket_ready)) [
        | inl early ↦ rw (poll_dropped P L c early).2 kept
        | inr late ↦
            rw (poll_served P L c late).0
              (client_step-Sized c.mqtt.state d.sys.radio.m_state d kept)
      ]
