-- ===== src/Mqtt/Acknowledge.antt =====
-- What the packets of the broker do: CONNACK, PUBACK, PUBLISH.
use xbee_mqtt.Base.{
  ℕ, ◌≡◌, refl, ◌⊎◌, Bool, true, false, ◌==◌, List, none, some, arith, if◌then◌else◌,
}
use xbee_mqtt.Platform.{Platform}
use xbee_mqtt.Mqtt.Library.{PacketLibrary, MsgType, connack, publish, puback}
use xbee_mqtt.Mqtt.Types.{MqttReturn, Client, gb4mqtt_max_packet_size}
use xbee_mqtt.Mqtt.Incoming.{
  poll_incomming, dispatch, dispatch_read, dispatch_incomming, check_timeout, poll_connack_status,
}

-- The packet decodes as a CONNACK with the code for accepted.
abbrev pub accepts : PacketLibrary → List ℕ → ℕ → Bool
accepts L message len = elim (L.deserialize_connack message len) [
  | none ↦ false
  | some (_, code) ↦ code == L.connection_accepted
]

-- The packet decodes as an acknowledgement of the packet `id`.
abbrev pub acknowledges : PacketLibrary → ℕ → List ℕ → ℕ → Bool
acknowledges L id message len = elim (L.deserialize_ack message len) [
  | none ↦ false
  | some (_, _, acked) ↦ id == acked
]

-- What a packet of type `t` must be to count as the acceptance of the connection: a CONNACK that
-- accepts; or any PUBLISH, if the unassigned `status` happens to hold GOT_CONNACK.
abbrev pub Accepting : PacketLibrary → MsgType → List ℕ → ℕ → Type 0
Accepting L t message len =
    ((t ≡ connack) × (accepts L message len ≡ true))
    ⊎ ((t ≡ publish) × (L.unassigned_status ≡ MqttReturn.got_connack))

module _ {W : Type 0} (P : Platform W) (L : PacketLibrary) where
  dispatch_got_connack :
      (t : MsgType) (message : List ℕ) (len : ℕ) (c : Client W)
      → (dispatch P L t message len c).0 ≡ MqttReturn.got_connack
      → Accepting L t message len
  unfolding dispatch
  dispatch_got_connack connack message len c h = ground arith
  dispatch_got_connack _ message len c h = ground arith

  dispatch_read_got_connack :
      (m : MqttReturn × MsgType × List ℕ × ℕ) (c : Client W)
      → (dispatch_read P L m c).0 ≡ MqttReturn.got_connack
      → Accepting L m.1 m.2 m.3
  unfolding dispatch_read
  dispatch_read_got_connack (MqttReturn.not_ready, t, message, len) c h =
      dispatch_got_connack t message len c h
  dispatch_read_got_connack (MqttReturn.waiting_message, t, message, len) c h = cc
  dispatch_read_got_connack (_, t, message, len) c h = dispatch_got_connack t message len c h

  check_timeout_got_connack :
      (r : MqttReturn) (c : Client W)
      → (check_timeout P L r c).0 ≡ MqttReturn.got_connack
      → r ≡ MqttReturn.got_connack
  unfolding check_timeout
  check_timeout_got_connack MqttReturn.got_connack c h = refl
  check_timeout_got_connack _ c h = ground arith

  -- GOT_CONNACK is reported only for a packet that was received and accepts the connection.
  pub poll_connack_status-Accepting :
      (c : Client W)
      → (poll_connack_status P L c).0 ≡ MqttReturn.got_connack
      → let (_, t, message, len) = (poll_incomming P L gb4mqtt_max_packet_size c).0 in
        Accepting L t message len
  unfolding poll_connack_status dispatch_incomming
  poll_connack_status-Accepting c h =
      let (r, d) = dispatch_incomming P L c in
      let (read, e) = poll_incomming P L gb4mqtt_max_packet_size c in
      dispatch_read_got_connack read e (check_timeout_got_connack r d h)

  -- A PUBACK packet is always reported as DISPATCHED_PUBACK, also if it does not decode or
  -- acknowledges another packet: PUBACK_MALFORMED is never returned. Of the request it changes only
  -- `got_puback`, and sets that exactly if it acknowledges the request's packet.
  pub dispatch-puback :
      (message : List ℕ) (len : ℕ) (c : Client W)
      → let (r, d) = dispatch P L puback message len c in
        (r ≡ MqttReturn.dispatched_puback)
        × (d.mqtt.request ≡ record c.mqtt.request {
          got_puback =
              if acknowledges L c.mqtt.request.packet_id message len
              then true
              else c.mqtt.request.got_puback;
        })
  unfolding dispatch
  dispatch-puback message len c = ground arith
