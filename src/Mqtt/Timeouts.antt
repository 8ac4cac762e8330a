-- ===== src/Mqtt/Timeouts.antt =====
-- The waits of GB4MQTT in real time, the clock's wrap included, in a poll that receives no message.
use xbee_mqtt.Base.{
  ℕ, ◌+◌, ◌<◌, ◌≤◌, ◌^◌, ◌≡◌, ◌⊎◌, inl, inr, refl, sym, subst, ◌∙◌, Bool, true, false, not, arith,
  ltb, if◌then◌else◌, u32, elapsed-add,
}
use xbee_mqtt.Platform.{Platform}
use xbee_mqtt.Notify.Receive.{pending}
use xbee_mqtt.Radio.Types.{RadioState, lt_state}
use xbee_mqtt.Radio.Message.{get_received_message}
use xbee_mqtt.Radio.Socket
use xbee_mqtt.Mqtt.Library.{PacketLibrary}
use xbee_mqtt.Mqtt.Types.{
  MqttReturn, MqttState, MqttRequest, Client, radio, gb4mqtt_connack_timeout,
  gb4mqtt_publish_timeout, gb4mqtt_publish_max_tries,
}
use xbee_mqtt.Mqtt.Incoming.{
  poll_incomming, read_packet, dispatch_read, dispatch_incomming, check_timeout,
  poll_connack_status,
}
use xbee_mqtt.Mqtt.Publish.{await_puback, handle_publish_requests}
use xbee_mqtt.Mqtt.Poll.{drop_connection, after_connack_status, standby, client_step, poll}
use xbee_mqtt.Mqtt.Frame.{poll_connack_status-SameStates}
use xbee_mqtt.Mqtt.Graph.{poll_served}

-- An active request that is not ready to be sent, has no acknowledgement, does not disconnect and has
-- a try left.
pub record IsWaiting (r : MqttRequest) : Type 0 where
  pub active : r.active ≡ true
  pub sent : r.ready_to_send ≡ false
  pub unacknowledged : r.got_puback ≡ false
  pub stays : r.disconnect ≡ false
  pub left : r.tries ≤ gb4mqtt_publish_max_tries

-- What `d` milliseconds of waiting make of it.
abbrev pub Retried : ℕ → MqttRequest → MqttRequest → Type 0
Retried d r r' =
    (r'.active ≡ true)
    × (r'.ready_to_send ≡ not (ltb d gb4mqtt_publish_timeout))
    × (r'.tries ≡ (if ltb d gb4mqtt_publish_timeout then r.tries else r.tries + 1))

module _ {W : Type 0} (P : Platform W) (L : PacketLibrary) where
  -- With no message pending nothing is dispatched.
  pub dispatch_incomming-nothing :
      (c : Client W)
      → pending c.sys.receive ≡ false
      → dispatch_incomming P L c ≡ (MqttReturn.listening, c)
  unfolding dispatch_incomming poll_incomming get_received_message read_packet dispatch_read
  dispatch_incomming-nothing c h = rw h refl

  poll_connack_status_after :
      (c : Client W) (start d : ℕ)
      → pending c.sys.receive ≡ false
      → c.mqtt.connect_start_time ≡ u32 start
      → (P.millis c.sys.world).0 ≡ u32 (start + d)
      → d < 2 ^ 32
      → (poll_connack_status P L c).0 ≡ (
          if ltb gb4mqtt_connack_timeout d
          then MqttReturn.connack_timeout
          else MqttReturn.listening)
  unfolding poll_connack_status check_timeout
  poll_connack_status_after c start d quiet begun now h =
      rw (dispatch_incomming-nothing c quiet, now, begun, elapsed-add start d h) refl

  after_connack_status_timeout :
      (r : MqttReturn) (late : Bool) (c : Client W)
      → c.mqtt.state ≡ MqttState.await_connack
      → r ≡ (if late then MqttReturn.connack_timeout else MqttReturn.listening)
      → (after_connack_status P L r c).1.mqtt.state
        ≡ (if late then MqttState.not_connected else MqttState.await_connack)
  unfolding after_connack_status drop_connection
  after_connack_status_timeout r true c at e = rw e refl
  after_connack_status_timeout r false c at e = rw e at

  client_step_connack :
      (u : RadioState) (c : Client W) (start d : ℕ)
      → c.mqtt.state ≡ MqttState.await_connack
      → c.mqtt.connect_start_time ≡ u32 start
      → pending c.sys.receive ≡ false
      → (P.millis c.sys.world).0 ≡ u32 (start + d)
      → d < 2 ^ 32
      → (client_step P L MqttState.await_connack u c).1.mqtt.state ≡ (
          if ltb gb4mqtt_connack_timeout d
          then MqttState.not_connected
          else MqttState.await_connack)
  unfolding client_step
  client_step_connack u c start d at begun quiet now h =
      let (r, f) = poll_connack_status P L c in
      after_connack_status_timeout r (ltb gb4mqtt_connack_timeout d) f
        ((poll_connack_status-SameStates P L c).state ∙ at)
        (poll_connack_status_after c start d quiet begun now h)

  -- A poll in AWAIT_CONNACK whose radio keeps its socket and receives nothing, `d` milliseconds after
  -- the CONNECT was sent (fewer than 2 ^ 32): the connection is given up exactly when more than 10000
  -- have passed.
  pub poll_connack_timeout :
      (c : Client W) (start d : ℕ)
      → c.mqtt.state ≡ MqttState.await_connack
      → c.mqtt.connect_start_time ≡ u32 start
      → lt_state (Socket.poll P c.sys).1.radio.m_state RadioState.socket_ready ≡ false
      → pending (Socket.poll P c.sys).1.receive ≡ false
      → (P.millis (Socket.poll P c.sys).1.world).0 ≡ u32 (start + d)
      → d < 2 ^ 32
      → (poll P L c).1.mqtt.state ≡ (
          if ltb gb4mqtt_connack_timeout d
          then MqttState.not_connected
          else MqttState.await_connack)
  poll_connack_timeout c start d at begun late quiet now h =
      let e = (radio (Socket.poll P) c).1 in
      let u = e.sys.radio.m_state in
      rw (poll_served P L c late).0 (
        subst
          (λ t. (client_step P L t u e).1.mqtt.state ≡ (
            if ltb gb4mqtt_connack_timeout d
            then MqttState.not_connected
            else MqttState.await_connack))
          (sym at) (client_step_connack u e start d at begun quiet now h))

  await_puback_after :
      (c : Client W) (start d : ℕ)
      → IsWaiting c.mqtt.request
      → c.mqtt.request.start_time ≡ u32 start
      → (P.millis c.sys.world).0 ≡ u32 (start + d)
      → d < 2 ^ 32
      → Retried d c.mqtt.request (await_puback P L c).1.mqtt.request
  unfolding await_puback
  await_puback_after c start d i begun now h =
      rw (i.unacknowledged, i.stays, begun, now, elapsed-add start d h)
        (ground (arith, i.active, i.sent, i.left))

  standby_after :
      (c : Client W) (start d : ℕ)
      → pending c.sys.receive ≡ false
      → IsWaiting c.mqtt.request
      → c.mqtt.request.start_time ≡ u32 start
      → (P.millis c.sys.world).0 ≡ u32 (start + d)
      → d < 2 ^ 32
      → Retried d c.mqtt.request (standby P L c).1.mqtt.request
  unfolding standby drop_connection handle_publish_requests
  standby_after c start d quiet i begun now h =
      rw (dispatch_incomming-nothing c quiet, i.active, i.sent)
        (ground (arith, await_puback_after c start d i begun now h))

  session_after :
      (t : MqttState) (u : RadioState) (c : Client W) (start d : ℕ)
      → (t ≡ MqttState.begin_standby) ⊎ (t ≡ MqttState.standby)
      → pending c.sys.receive ≡ false
      → IsWaiting c.mqtt.request
      → c.mqtt.request.start_time ≡ u32 start
      → (P.millis c.sys.world).0 ≡ u32 (start + d)
      → d < 2 ^ 32
      → Retried d c.mqtt.request (client_step P L t u c).1.mqtt.request
  unfolding client_step
  session_after t u c start d (inl at) quiet i begun now h =
      let e = record c { mqtt = record c.mqtt { state = MqttState.standby } } in
      subst (λ t. Retried d c.mqtt.request (client_step P L t u c).1.mqtt.request) (sym at)
        (standby_after e start d quiet i begun now h)
  session_after t u c start d (inr at) quiet i begun now h =
      subst (λ t. Retried d c.mqtt.request (client_step P L t u c).1.mqtt.request) (sym at)
        (standby_after c start d quiet i begun now h)

  -- A poll in BEGIN_STANDBY or STANDBY whose radio keeps its socket and brings no message, with an
  -- active request that is not ready to be sent, has no PUBACK, was tried at most four times and does
  -- not disconnect, `d` milliseconds (fewer than 2 ^ 32) after the start time that it keeps, which its
  -- first sending sets: before 10000 the request waits on; from then on it is ready to be sent again,
  -- and counts one try more. It stays active in both cases.
  pub poll_retry :
      (c : Client W) (start d : ℕ)
      → (c.mqtt.state ≡ MqttState.begin_standby) ⊎ (c.mqtt.state ≡ MqttState.standby)
      → IsWaiting c.mqtt.request
      → c.mqtt.request.start_time ≡ u32 start
      → lt_state (Socket.poll P c.sys).1.radio.m_state RadioState.socket_ready ≡ false
      → pending (Socket.poll P c.sys).1.receive ≡ false
      → (P.millis (Socket.poll P c.sys).1.world).0 ≡ u32 (start + d)
      → d < 2 ^ 32
      → Retried d c.mqtt.request (poll P L c).1.mqtt.request
  poll_retry c start d at i begun late quiet now h =
      let e = (radio (Socket.poll P) c).1 in
      rw (poll_served P L c late).0
        (session_after c.mqtt.state e.sys.radio.m_state e start d at quiet i begun now h)
