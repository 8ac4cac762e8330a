-- ===== src/Mqtt/Completion.antt =====
-- A PUBACK, from the receive buffer to the end of the request.
use xbee_mqtt.Base.{ℕ, Bool, ◌≡◌, ◌⊎◌, ◌∙◌, refl, ap, true, false, List, if◌then◌else◌}
use xbee_mqtt.Platform.{Platform}
use xbee_mqtt.Notify.Receive.{pending}
use xbee_mqtt.Radio.Types.{RadioState, lt_state}
use xbee_mqtt.Radio.Timers.{reset_socket}
use xbee_mqtt.Radio.Message.{get_received_message, send_message}
use xbee_mqtt.Mqtt.Library.{PacketLibrary, MsgType, puback}
use xbee_mqtt.Mqtt.Types.{MqttReturn, MqttState, MqttRequest, Client, gb4mqtt_max_packet_size}
use xbee_mqtt.Mqtt.Incoming.{
  poll_incomming, read_packet, dispatch, dispatch_read, dispatch_incomming,
}
use xbee_mqtt.Mqtt.Publish.{disconn}
use xbee_mqtt.Mqtt.Poll.{poll}
use xbee_mqtt.Mqtt.Frame.{dispatch_incomming-SameStates}
use xbee_mqtt.Mqtt.Acknowledge.{acknowledges, dispatch-puback}
use xbee_mqtt.Mqtt.Handover.{entered, poll-Acknowledged}

module _ {W : Type 0} (P : Platform W) (L : PacketLibrary) where
  -- What `pollIncomming` makes of the message that is pending.
  abbrev pub incoming : Client W → MqttReturn × MsgType × List ℕ × ℕ
  incoming c = (poll_incomming P L gb4mqtt_max_packet_size c).0

  poll_incomming-pending :
      (c : Client W)
      → pending c.sys.receive ≡ true
      → ((incoming c).0 ≡ MqttReturn.message_received)
        × ((poll_incomming P L gb4mqtt_max_packet_size c).1.mqtt.request ≡ c.mqtt.request)
  unfolding poll_incomming get_received_message read_packet
  poll_incomming-pending c h = rw h (refl, refl)

  dispatch_read_received :
      (read : MqttReturn × MsgType × List ℕ × ℕ) (c : Client W)
      → read.0 ≡ MqttReturn.message_received
      → read.1 ≡ puback
      → dispatch_read P L read c ≡ dispatch P L puback read.2 read.3 c
  unfolding dispatch_read
  dispatch_read_received (r, t, message, len) c e f = rw (e, f) refl

  dispatch_incomming-puback :
      (c : Client W)
      → pending c.sys.receive ≡ true
      → (incoming c).1 ≡ puback
      → acknowledges L c.mqtt.request.packet_id (incoming c).2 (incoming c).3 ≡ true
      → (dispatch_incomming P L c).1.mqtt.request ≡ record c.mqtt.request { got_puback = true }
  unfolding dispatch_incomming
  dispatch_incomming-puback c h t ack =
      let d = (poll_incomming P L gb4mqtt_max_packet_size c).1 in
      let (received, same) = poll_incomming-pending c h in
      let final : record d.mqtt.request {
        got_puback =
            if acknowledges L d.mqtt.request.packet_id (incoming c).2 (incoming c).3
            then true
            else d.mqtt.request.got_puback;
      }
          ≡ record c.mqtt.request { got_puback = true } =
        rw (same, ack) refl in
      ap (λ x. x.1.mqtt.request) (dispatch_read_received (incoming c) d received t)
      ∙ (dispatch-puback P L (incoming c).2 (incoming c).3 d).1
      ∙ final

  acknowledged-m_state :
      (last : Bool) (e : Client W)
      → (if last
          then (reset_socket P (send_message P disconn 2 e.sys).1).1
          else e.sys).radio.m_state
        ≡ (if last then RadioState.socket_cooldown_period else e.sys.radio.m_state)
  unfolding reset_socket
  acknowledged-m_state true e = refl
  acknowledged-m_state false e = refl

  -- A poll in a session whose radio keeps its socket and brings a message that is read as a PUBACK and
  -- acknowledges the packet of the request, which was sent and is active: the request is done, and is
  -- otherwise as it was. If it asks to disconnect, the client has no connection afterwards and the radio
  -- is in its cooldown; otherwise the session goes on, and the radio is as `radio.poll()` left it.
  pub poll-puback :
      (c : Client W)
      → let r = c.mqtt.request in
        let d = entered P L c in
        let last = r.disconnect in
        (c.mqtt.state ≡ MqttState.begin_standby) ⊎ (c.mqtt.state ≡ MqttState.standby)
        → lt_state d.sys.radio.m_state RadioState.socket_ready ≡ false
        → pending d.sys.receive ≡ true
        → (incoming d).1 ≡ puback
        → acknowledges L r.packet_id (incoming d).2 (incoming d).3 ≡ true
        → r.active ≡ true
        → r.ready_to_send ≡ false
        → ((poll P L c).1.mqtt.request ≡ record r { got_puback = true; active = false })
          × ((poll P L c).1.mqtt.state
              ≡ (if last then MqttState.not_connected else MqttState.standby))
          × ((poll P L c).1.sys.radio.m_state
              ≡ (if last then RadioState.socket_cooldown_period else d.sys.radio.m_state))
  poll-puback c in_session late arrived t ack active sent =
      let e = (dispatch_incomming P L (entered P L c)).1 in
      let heard = dispatch_incomming-puback (entered P L c) arrived t ack in
      let last = ap (λ r. r.disconnect) heard in
      let radio_same = (dispatch_incomming-SameStates P L (entered P L c)).radio in
      let (done, state, sys) =
        poll-Acknowledged P L c in_session late (ap (λ r. r.active) heard ∙ active)
          (ap (λ r. r.ready_to_send) heard ∙ sent) (ap (λ r. r.got_puback) heard) in
      (
        done ∙ ap {A = MqttRequest} {B = MqttRequest} (λ q. record q { active = false }) heard,
        state ∙ ap (λ b. if b then MqttState.not_connected else MqttState.standby) last,
        ap (λ s. s.radio.m_state) sys ∙ acknowledged-m_state _ e ∙ rw (last, radio_same) refl,
      )
