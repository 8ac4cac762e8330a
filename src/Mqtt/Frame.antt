-- ===== src/Mqtt/Frame.antt =====
-- What the methods of GB4MQTT leave alone.
use xbee_mqtt.Base.{
  is_zero, to_size, ℤ, pos, negsuc, zero, suc, if◌then◌else◌, false, Prog, ℕ, ◌≡◌, refl, Bool, true,
  List, arith,
}
use xbee_mqtt.Platform.{Platform}
use xbee_mqtt.Radio.Message.{get_received_message, send_message}
use xbee_mqtt.Radio.Phases.{online, send_message-online}
use xbee_mqtt.Mqtt.Library.{PacketLibrary, MsgType, connack}
use xbee_mqtt.Mqtt.Types.{
  MqttReturn, MqttRequest, Client, radio, on_request, gb4mqtt_connect_packet_size,
  gb4mqtt_max_packet_size,
}
use xbee_mqtt.Mqtt.Incoming.{
  dispatch_incomming, dispatch, dispatch_read, read_packet, poll_incomming, poll_connack_status,
  check_timeout,
}
use xbee_mqtt.Mqtt.Outgoing.{
  after_connect, send_serialized, connect_data, connect_status, publish_data, packet_max_size,
  send_connect_request, send_publish_request,
}
use xbee_mqtt.Mqtt.Publish.{
  handle_publish_requests, send_request, await_puback, after_publish, send_disconnect,
}

-- The radio and the state of the client are those of `c`.
pub record SameStates {W : Type 0} (c d : Client W) : Type 0 where
  pub radio : d.sys.radio ≡ c.sys.radio
  pub state : d.mqtt.state ≡ c.mqtt.state

SameStates-trans :
    {W : Type 0} {c d e : Client W} → SameStates c d → SameStates d e → SameStates c e
SameStates-trans h k = record { radio = cc (h.radio, k.radio); state = cc (h.state, k.state) }

module _ {W : Type 0} (P : Platform W) (L : PacketLibrary) where
  poll_incomming-SameStates : (n : ℕ) (c : Client W) → SameStates c (poll_incomming P L n c).1
  unfolding poll_incomming read_packet get_received_message
  poll_incomming-SameStates n c = ground arith

  dispatch-SameStates :
      (t : MsgType) (message : List ℕ) (n : ℕ) (c : Client W)
      → SameStates c (dispatch P L t message n c).1
  unfolding dispatch
  dispatch-SameStates connack message n c = ground arith
  dispatch-SameStates _ message n c = ground arith

  dispatch_read-SameStates :
      (m : MqttReturn × MsgType × List ℕ × ℕ) (c : Client W)
      → SameStates c (dispatch_read P L m c).1
  unfolding dispatch_read
  dispatch_read-SameStates (MqttReturn.not_ready, t, message, n) c =
      dispatch-SameStates t message n c
  dispatch_read-SameStates (MqttReturn.waiting_message, t, message, n) c = record {
    radio = refl;
    state = refl;
  }
  dispatch_read-SameStates (_, t, message, n) c = dispatch-SameStates t message n c

  pub dispatch_incomming-SameStates : (c : Client W) → SameStates c (dispatch_incomming P L c).1
  unfolding dispatch_incomming
  dispatch_incomming-SameStates c =
      let (read, d) = poll_incomming P L gb4mqtt_max_packet_size c in
      SameStates-trans (poll_incomming-SameStates gb4mqtt_max_packet_size c)
        (dispatch_read-SameStates read d)

  check_timeout-SameStates :
      (r : MqttReturn) (c : Client W) → SameStates c (check_timeout P L r c).1
  unfolding check_timeout
  check_timeout-SameStates MqttReturn.got_connack c = ground arith
  check_timeout-SameStates _ c = ground arith

  pub poll_connack_status-SameStates : (c : Client W) → SameStates c (poll_connack_status P L c).1
  unfolding poll_connack_status
  poll_connack_status-SameStates c =
      let (r, d) = dispatch_incomming P L c in
      SameStates-trans (dispatch_incomming-SameStates c) (check_timeout-SameStates r d)

-- The state of the client is that of `c`, and a radio that was online still is.
pub record StaysOnline {W : Type 0} (c d : Client W) : Type 0 where
  pub state : d.mqtt.state ≡ c.mqtt.state
  pub still : online c.sys.radio.m_state ≡ true → online d.sys.radio.m_state ≡ true

pub StaysOnline-trans :
    {W : Type 0} {c d e : Client W} → StaysOnline c d → StaysOnline d e → StaysOnline c e
StaysOnline-trans h k = record { state = cc (h.state, k.state); still = λ o. k.still (h.still o) }

pub SameStates-StaysOnline : {W : Type 0} {c d : Client W} → SameStates c d → StaysOnline c d
SameStates-StaysOnline h = record { state = h.state; still = λ o. rw h.radio o }

if_StaysOnline :
    {W A : Type 0} (b : Bool) (m k : Prog (Client W) A) {c : Client W}
    → StaysOnline c (m c).1
    → StaysOnline c (k c).1
    → StaysOnline c ((if b then m else k) c).1
if_StaysOnline true m k h l = h
if_StaysOnline false m k h l = l

module _ {W : Type 0} (P : Platform W) (L : PacketLibrary) where
  sent_message-StaysOnline :
      (message : List ℕ) (n : ℕ) (c : Client W)
      → StaysOnline c (radio (send_message P message n) c).1
  sent_message-StaysOnline message n c = record {
    state = refl;
    still = send_message-online P message n c.sys;
  }

  after_connect-StaysOnline :
      (r : MqttReturn) (c : Client W) → StaysOnline c (after_connect P L r c).1
  unfolding after_connect
  after_connect-StaysOnline MqttReturn.connect_sent c = record { state = refl; still = λ o. o }
  after_connect-StaysOnline _ c = record { state = refl; still = λ o. o }

  pub send_connect_request-StaysOnline :
      (c : Client W) → StaysOnline c (send_connect_request P L c).1
  unfolding send_connect_request
  send_connect_request-StaysOnline c =
      let (len, packet) = L.serialize_connect gb4mqtt_connect_packet_size (connect_data c.mqtt) in
      let (r, d) = radio (send_message P packet (to_size len)) c in
      let sent =
        StaysOnline-trans (sent_message-StaysOnline packet (to_size len) c)
          (after_connect-StaysOnline (connect_status r) d) in
      if_StaysOnline (is_zero len) _ _ (record { state = refl; still = λ o. o }) sent

  send_serialized-StaysOnline :
      (len : ℤ) (packet : List ℕ) (c : Client W)
      → StaysOnline c (send_serialized P L len packet c).1
  unfolding send_serialized
  send_serialized-StaysOnline (pos zero) packet c = record { state = refl; still = λ o. o }
  send_serialized-StaysOnline (pos (suc n)) packet c =
      sent_message-StaysOnline packet (to_size (pos (suc n))) c
  send_serialized-StaysOnline (negsuc n) packet c = record { state = refl; still = λ o. o }

  pub send_publish_request-StaysOnline :
      (r : MqttRequest) (c : Client W) → StaysOnline c (send_publish_request P L r c).1
  unfolding send_publish_request
  send_publish_request-StaysOnline r c =
      let (len, packet) = L.serialize_publish packet_max_size (publish_data r) in
      send_serialized-StaysOnline len packet c

  after_publish-StaysOnline :
      (r : MqttReturn) (c : Client W) → StaysOnline c (after_publish P L r c).1
  unfolding after_publish
  after_publish-StaysOnline MqttReturn.publish_sent c = ground arith
  after_publish-StaysOnline _ c = ground arith

  send_request-StaysOnline : (c : Client W) → StaysOnline c (send_request P L c).1
  unfolding send_request
  send_request-StaysOnline c =
      let d = (on_request (λ r. record r { ready_to_send = false }) c).1 in
      let (r, e) = send_publish_request P L d.mqtt.request d in
      let first : StaysOnline c d = record { state = refl; still = λ o. o } in
      let rest =
        StaysOnline-trans (send_publish_request-StaysOnline d.mqtt.request d)
          (after_publish-StaysOnline r e) in
      StaysOnline-trans first rest

  await_puback-StaysOnline : (c : Client W) → StaysOnline c (await_puback P L c).1
  unfolding await_puback send_disconnect send_message
  await_puback-StaysOnline c = ground arith

  pub handle_publish_requests-StaysOnline :
      (c : Client W) → StaysOnline c (handle_publish_requests P L c).1
  unfolding handle_publish_requests
  handle_publish_requests-StaysOnline c =
      let r = c.mqtt.request in
      if_StaysOnline r.active _ _
        (if_StaysOnline r.ready_to_send _ _ (send_request-StaysOnline c)
          (await_puback-StaysOnline c))
        (record { state = refl; still = λ o. o })
