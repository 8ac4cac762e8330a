-- ===== src/Mqtt/Handover.antt =====
-- A request on its way: handed to the driver, and acknowledged.
use xbee_mqtt.Base.{
  ℕ, zero, suc, ◌≡◌, ◌⊎◌, inl, inr, refl, ap, ◌∙◌, true, false, List, arith, ℤ, pos, negsuc,
  to_size, ◌==◌, if◌then◌else◌, Bool-cases,
}
use xbee_mqtt.Platform.{Platform}
use xbee_mqtt.Radio.Types.{RadioState, lt_state}
use xbee_mqtt.Radio.Timers.{reset_socket}
use xbee_mqtt.Radio.Message.{send_message, send_status}
use xbee_mqtt.Radio.Socket
use xbee_mqtt.Radio.Sending.{after_sock_send}
use xbee_mqtt.Mqtt.Library.{PacketLibrary}
use xbee_mqtt.Mqtt.Types.{MqttReturn, MqttState, MqttRequest, Client, radio}
use xbee_mqtt.Mqtt.Incoming.{dispatch_incomming}
use xbee_mqtt.Mqtt.Outgoing.{
  publish_data, packet_max_size, publish_status, send_serialized, send_publish_request,
}
use xbee_mqtt.Mqtt.Publish.{
  disconn, after_publish, send_request, send_disconnect, await_puback, handle_publish_requests,
}
use xbee_mqtt.Mqtt.Poll.{drop_connection, standby, client_step, poll}
use xbee_mqtt.Mqtt.Frame.{dispatch_incomming-SameStates}
use xbee_mqtt.Mqtt.Graph.{poll_served}
use xbee_mqtt.Mqtt.Delivery.{is_positive}
use xbee_mqtt.Mqtt.Busy.{IsReady, handle_publish_requests_ready}

module _ {W : Type 0} (P : Platform W) (L : PacketLibrary) where
  -- The packet of a request, and what the driver says to it.
  abbrev pub packet_of : MqttRequest → ℤ × List ℕ
  packet_of r = L.serialize_publish packet_max_size (publish_data r)

  abbrev pub Takes : Client W → Type 0
  Takes c =
      let (len, packet) = packet_of c.mqtt.request in
      (P.sock_send c.sys.radio.sock 0 packet (to_size len) c.sys.world).0 ≡ pos 0

  send_serialized_taken :
      (len : ℤ) (packet : List ℕ) (c : Client W)
      → c.sys.radio.m_state ≡ RadioState.connected
      → is_positive len ≡ true
      → (P.sock_send c.sys.radio.sock 0 packet (to_size len) c.sys.world).0 ≡ pos 0
      → send_serialized P L len packet c
        ≡ (MqttReturn.publish_sent, record c { sys = after_sock_send P packet (to_size len) c.sys })
  unfolding send_serialized send_message send_status publish_status
  send_serialized_taken (pos zero) packet c at h taken = cc
  send_serialized_taken (pos (suc n)) packet c at h taken = rw (at, taken) refl
  send_serialized_taken (negsuc n) packet c at h taken = cc

  -- What remains to be done for a request that was sent.
  after_publish_sent :
      (c : Client W)
      → let (fine, d) = after_publish P L MqttReturn.publish_sent c in
        (fine ≡ true)
        × (d.sys.radio ≡ c.sys.radio)
        × (d.mqtt.state ≡ c.mqtt.state)
        × (d.mqtt.request.ready_to_send ≡ c.mqtt.request.ready_to_send)
        × (d.mqtt.request.active
            ≡ (if c.mqtt.request.qos == 0 then false else c.mqtt.request.active))
  unfolding after_publish
  after_publish_sent c = ground arith

  -- The request was handed over: the driver has its packet.
  abbrev pub Handed : Client W → Client W → Type 0
  Handed c d =
      let (len, packet) = packet_of c.mqtt.request in
      (d.sys.radio ≡ (after_sock_send P packet (to_size len) c.sys).radio)
      × (d.mqtt.state ≡ MqttState.standby)
      × (d.mqtt.request.ready_to_send ≡ false)
      × (d.mqtt.request.active ≡ (if c.mqtt.request.qos == 0 then false else true))

  send_request-Handed :
      (c : Client W)
      → c.mqtt.state ≡ MqttState.standby
      → c.sys.radio.m_state ≡ RadioState.connected
      → IsReady L c.mqtt.request
      → Takes c
      → let (fine, d) = send_request P L c in (fine ≡ true) × Handed c d
  unfolding send_request send_publish_request
  send_request-Handed c in_session at i taken =
      let q = record c.mqtt.request { ready_to_send = false } in
      let d = record c { mqtt = record c.mqtt { request = q } } in
      let (len, packet) = packet_of q in
      let e = record d { sys = after_sock_send P packet (to_size len) d.sys } in
      rw (send_serialized_taken len packet d at i.valid taken)
        (ground (arith, after_publish_sent e, i.active, in_session))

  standby-Handed :
      (c : Client W)
      → let e = (dispatch_incomming P L c).1 in
        c.mqtt.state ≡ MqttState.standby
        → c.sys.radio.m_state ≡ RadioState.connected
        → IsReady L e.mqtt.request
        → Takes e
        → Handed e (standby P L c).1
  unfolding standby
  standby-Handed c in_session at i taken =
      let e = (dispatch_incomming P L c).1 in
      let same = dispatch_incomming-SameStates P L c in
      let handed =
        send_request-Handed e (same.state ∙ in_session) (ap (λ r. r.m_state) same.radio ∙ at) i
          taken in
      rw (handle_publish_requests_ready P L e i.active i.ready, handed.0) handed.1

  -- What `radio.poll()` leaves of a client in a session.
  abbrev pub entered : Client W → Client W
  entered c = record c {
    mqtt = record c.mqtt { state = MqttState.standby };
    sys = (Socket.poll P c.sys).1;
  }

  -- `poll` of a session does what `standby` does after `radio.poll()`.
  pub poll-standby :
      (c : Client W)
      → (c.mqtt.state ≡ MqttState.begin_standby) ⊎ (c.mqtt.state ≡ MqttState.standby)
      → lt_state (Socket.poll P c.sys).1.radio.m_state RadioState.socket_ready ≡ false
      → (poll P L c).1 ≡ (standby P L (entered c)).1
  unfolding client_step
  poll-standby c (inl first_poll) late =
      let d = (radio (Socket.poll P) c).1 in
      (poll_served P L c late).0 ∙ ap (λ t. (client_step P L t d.sys.radio.m_state d).1) first_poll
  poll-standby c (inr later) late =
      let d = (radio (Socket.poll P) c).1 in
      (poll_served P L c late).0
      ∙ ap (λ t. (client_step P L t d.sys.radio.m_state d).1) later
      ∙ ap (λ t. (standby P L (record d { mqtt = record c.mqtt { state = t } })).1) later

  -- A poll in a session, whose radio is CONNECTED after `radio.poll()`, with a request that is ready to
  -- be sent and that the serializer makes a packet of, where the driver takes that packet: the driver
  -- was given the packet on the radio's socket, the radio is SENDING, its send timer at the clock's
  -- reading after the driver's call, the session goes on, and the request is not ready any more; with
  -- QoS 0 it is done, and otherwise it waits for its acknowledgement. The request and the driver are
  -- those after the message that the poll received, if any, was dispatched.
  pub poll_hands_over :
      (c : Client W)
      → let e = (dispatch_incomming P L (entered c)).1 in
        (c.mqtt.state ≡ MqttState.begin_standby) ⊎ (c.mqtt.state ≡ MqttState.standby)
        → (Socket.poll P c.sys).1.radio.m_state ≡ RadioState.connected
        → IsReady L e.mqtt.request
        → Takes e
        → Handed e (poll P L c).1
  poll_hands_over c in_session at i taken =
      rw (poll-standby c in_session (rw at)) (standby-Handed (entered c) refl at i taken)

  await_puback_done :
      (c : Client W)
      → c.mqtt.request.got_puback ≡ true
      → let r = c.mqtt.request in
        let done = record c { mqtt = record c.mqtt { request = record r { active = false } } } in
        await_puback P L c ≡ (
          if r.disconnect
          then (false, record done { sys = (send_message P disconn 2 c.sys).1 })
          else (true, done))
  unfolding await_puback send_disconnect
  await_puback_done c got = rw got (ground arith)

  -- What an acknowledgement makes of the client.
  abbrev pub Acknowledged : Client W → Client W → Type 0
  Acknowledged c d =
      let last = c.mqtt.request.disconnect in
      (d.mqtt.request ≡ record c.mqtt.request { active = false })
      × (d.mqtt.state ≡ (if last then MqttState.not_connected else MqttState.standby))
      × (d.sys ≡ (if last then (reset_socket P (send_message P disconn 2 c.sys).1).1 else c.sys))

  handle_publish_requests_sent :
      (c : Client W)
      → c.mqtt.request.active ≡ true
      → c.mqtt.request.ready_to_send ≡ false
      → handle_publish_requests P L c ≡ await_puback P L c
  unfolding handle_publish_requests
  handle_publish_requests_sent c a b = simp (a, b)

  standby-Acknowledged :
      (c : Client W)
      → let e = (dispatch_incomming P L c).1 in
        c.mqtt.state ≡ MqttState.standby
        → e.mqtt.request.active ≡ true
        → e.mqtt.request.ready_to_send ≡ false
        → e.mqtt.request.got_puback ≡ true
        → Acknowledged e (standby P L c).1
  unfolding standby drop_connection
  standby-Acknowledged c in_session active sent got =
      let e = (dispatch_incomming P L c).1 in
      let same : e.mqtt.state ≡ MqttState.standby =
        (dispatch_incomming-SameStates P L c).state ∙ in_session in
      let done = handle_publish_requests_sent e active sent ∙ await_puback_done e got in
      elim (Bool-cases e.mqtt.request.disconnect) [
        | inl last ↦ simp (done, last) (refl, refl, refl)
        | inr more ↦ simp (done, more) (refl, same, refl)
      ]

  -- A poll in a session whose radio keeps its socket, with a request that was sent and that, once the
  -- message of this poll is dispatched, is acknowledged: the request is done and otherwise as it was. If
  -- it asks to disconnect, DISCONNECT is handed to the radio, which is then reset, and the client has no
  -- connection; otherwise the session goes on and nothing else is done.
  pub poll-Acknowledged :
      (c : Client W)
      → let e = (dispatch_incomming P L (entered c)).1 in
        (c.mqtt.state ≡ MqttState.begin_standby) ⊎ (c.mqtt.state ≡ MqttState.standby)
        → lt_state (Socket.poll P c.sys).1.radio.m_state RadioState.socket_ready ≡ false
        → e.mqtt.request.active ≡ true
        → e.mqtt.request.ready_to_send ≡ false
        → e.mqtt.request.got_puback ≡ true
        → Acknowledged e (poll P L c).1
  poll-Acknowledged c in_session late active sent got =
      rw (poll-standby c in_session late) (standby-Acknowledged (entered c) refl active sent got)
