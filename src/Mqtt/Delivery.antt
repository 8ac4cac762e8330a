-- ===== src/Mqtt/Delivery.antt =====
-- When a queued request is given up.
use xbee_mqtt.Base.{
  ℕ, zero, suc, ◌<◌, ◌≡◌, ◌≢◌, refl, ◌⊎◌, inl, inr, Bool, true, false, List, arith, ℤ, pos, negsuc,
  Bool-cases,
}
use xbee_mqtt.Platform.{Platform}
use xbee_mqtt.Radio.Types.{RadioState, RadioReturn, lt_state}
use xbee_mqtt.Radio.Socket
use xbee_mqtt.Mqtt.Library.{PacketLibrary}
use xbee_mqtt.Mqtt.Types.{
  MqttReturn, MqttState, MqttRequest, Client, radio, gb4mqtt_publish_max_tries,
}
use xbee_mqtt.Mqtt.Incoming.{dispatch_incomming}
use xbee_mqtt.Mqtt.Outgoing.{
  publish_data, packet_max_size, publish_status, send_serialized, send_publish_request,
}
use xbee_mqtt.Mqtt.Publish.{
  after_publish, send_request, send_disconnect, await_puback, handle_publish_requests,
}
use xbee_mqtt.Mqtt.Poll.{drop_connection, standby, client_step, poll}
use xbee_mqtt.Mqtt.Graph.{poll_dropped, poll_served}
use xbee_mqtt.Mqtt.Keeping.{dispatch_incomming-Keeps, client_step-Keeps, send_publish_request-mqtt}

abbrev pub is_positive : ℤ → Bool
is_positive (pos zero) = false
is_positive (pos (suc n)) = true
is_positive (negsuc n) = false

-- Whether the serializer makes a packet of the request.
abbrev pub serializes : PacketLibrary → MqttRequest → Bool
serializes L r = is_positive (L.serialize_publish packet_max_size (publish_data r)).0

-- Why a request is given up in the step from `r` to `r'`: it was to be sent, and has no quality of
-- service or no packet; or it was sent, and is acknowledged, asks to disconnect or has no try left.
abbrev pub Ended : PacketLibrary → MqttRequest → MqttRequest → Type 0
Ended L r r' =
    ((r.ready_to_send ≡ true) × ((r.qos ≡ 0) ⊎ (serializes L r ≡ false)))
    ⊎ ((r.ready_to_send ≡ false)
        × ((r'.got_puback ≡ true)
            ⊎ ((r.disconnect ≡ true) ⊎ (gb4mqtt_publish_max_tries < r.tries))))

module _ {W : Type 0} (P : Platform W) (L : PacketLibrary) where
  publish_status_valid : (r : RadioReturn) → publish_status r ≢ MqttReturn.publish_packet_error
  unfolding publish_status
  publish_status_valid RadioReturn.message_sent h = cc
  publish_status_valid RadioReturn.in_progress h = cc
  publish_status_valid _ h = cc

  send_serialized_packet_error :
      (len : ℤ) (packet : List ℕ) (c : Client W)
      → (send_serialized P L len packet c).0 ≡ MqttReturn.publish_packet_error
      → is_positive len ≡ false
  unfolding send_serialized
  send_serialized_packet_error (pos zero) packet c h = refl
  send_serialized_packet_error (pos (suc n)) packet c h = absurd (publish_status_valid _ h)
  send_serialized_packet_error (negsuc n) packet c h = refl

  after_publish_end :
      (r : MqttReturn) (c : Client W)
      → c.mqtt.request.active ≡ true
      → (after_publish P L r c).1.mqtt.request.active ≡ false
      → (c.mqtt.request.qos ≡ 0) ⊎ (r ≡ MqttReturn.publish_packet_error)
  unfolding after_publish
  after_publish_end MqttReturn.publish_sent c a h = ground arith
  after_publish_end MqttReturn.publish_packet_error c a h = inr refl
  after_publish_end _ c a h = cc

  send_publish_request_error :
      (r : MqttRequest) (c : Client W)
      → (send_publish_request P L r c).0 ≡ MqttReturn.publish_packet_error
      → serializes L r ≡ false
  unfolding send_publish_request
  send_publish_request_error r c h =
      let (len, packet) = L.serialize_publish packet_max_size (publish_data r) in
      send_serialized_packet_error len packet c h

  send_request_end :
      (c : Client W)
      → c.mqtt.request.active ≡ true
      → (send_request P L c).1.mqtt.request.active ≡ false
      → (c.mqtt.request.qos ≡ 0) ⊎ (serializes L c.mqtt.request ≡ false)
  unfolding send_request
  send_request_end c a h =
      let q = record c.mqtt.request { ready_to_send = false } in
      let d = record c { mqtt = record c.mqtt { request = q } } in
      let (r, e) = send_publish_request P L q d in
      ground (
        arith,
        send_publish_request-mqtt P L q d,
        after_publish_end r e,
        send_publish_request_error q d,
      )

  await_puback_end :
      (c : Client W)
      → c.mqtt.request.active ≡ true
      → c.mqtt.request.ready_to_send ≡ false
      → (await_puback P L c).1.mqtt.request.active ≡ false
      → Ended L c.mqtt.request (await_puback P L c).1.mqtt.request
  unfolding await_puback send_disconnect
  await_puback_end c a b h = ground arith

  handle_publish_requests_end :
      (c : Client W)
      → c.mqtt.request.active ≡ true
      → (handle_publish_requests P L c).1.mqtt.request.active ≡ false
      → Ended L c.mqtt.request (handle_publish_requests P L c).1.mqtt.request
  unfolding handle_publish_requests
  handle_publish_requests_end c a h = elim (Bool-cases c.mqtt.request.ready_to_send) [
    | inl ready ↦ ground (arith, send_request_end c)
    | inr sent ↦ ground (arith, await_puback_end c)
  ]

  standby_end :
      (c : Client W)
      → c.mqtt.request.active ≡ true
      → (standby P L c).1.mqtt.request.active ≡ false
      → Ended L c.mqtt.request (standby P L c).1.mqtt.request
  unfolding standby drop_connection
  standby_end c a h =
      let d = (dispatch_incomming P L c).1 in
      ground (arith, dispatch_incomming-Keeps P L c, handle_publish_requests_end d)

  client_step_end :
      (t : MqttState) (u : RadioState) (c : Client W)
      → c.mqtt.request.active ≡ true
      → (client_step P L t u c).1.mqtt.request.active ≡ false
      → Ended L c.mqtt.request (client_step P L t u c).1.mqtt.request
  unfolding client_step
  client_step_end MqttState.begin_standby u c a h =
      standby_end (record c { mqtt = record c.mqtt { state = MqttState.standby } }) a h
  client_step_end MqttState.standby u c a h = standby_end c a h
  client_step_end t u c a h = absurd (ground (arith, client_step-Keeps P L t u c refl))

  -- An active request is given up by a poll only for one of these reasons. It was to be sent, and
  -- its quality of service is 0 or the serializer makes no packet of it; or it is not ready to be sent
  -- (it was sent, or lost its readiness to a busy radio), and it is acknowledged, asks to disconnect,
  -- or was tried more than four times. A connection that is dropped is no reason.
  pub poll_end :
      (c : Client W)
      → c.mqtt.request.active ≡ true
      → (poll P L c).1.mqtt.request.active ≡ false
      → Ended L c.mqtt.request (poll P L c).1.mqtt.request
  poll_end c a h =
      let d = (radio (Socket.poll P) c).1 in
      elim (Bool-cases (lt_state d.sys.radio.m_state RadioState.socket_ready)) [
        | inl early ↦ absurd (ground (arith, poll_dropped P L c early))
        | inr late ↦
            ground
              (arith, poll_served P L c late, client_step_end c.mqtt.state d.sys.radio.m_state d)
      ]
