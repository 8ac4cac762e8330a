-- ===== src/Mqtt/Session.antt =====
-- How the state of GB4MQTT goes with the state of its radio: a session stands on a connected socket.
use xbee_mqtt.Base.{
  ℕ, ◌≡◌, refl, ◌∙◌, inl, inr, Bool, true, false, ◌||◌, List, Option, none, some, arith, Bool-cases,
}
use xbee_mqtt.Platform.{Platform}
use xbee_mqtt.Radio.Types.{RadioState, Radio, Sys, lt_state, eq_state}
use xbee_mqtt.Radio.Timers.{reset_socket}
use xbee_mqtt.Radio.Socket
use xbee_mqtt.Radio.Phases.{
  online, at_rest, is_connecting, poll_lem, poll-at_rest, poll-is_connecting, poll-online,
}
use xbee_mqtt.Mqtt.Library.{PacketLibrary}
use xbee_mqtt.Mqtt.Types.{MqttReturn, MqttState, Client, radio}
use xbee_mqtt.Mqtt.Incoming.{dispatch_incomming, poll_connack_status}
use xbee_mqtt.Mqtt.Outgoing.{send_connect_request}
use xbee_mqtt.Mqtt.Publish.{handle_publish_requests}
use xbee_mqtt.Mqtt.Poll.{
  drop_connection, try_connect, await_socket, after_connect_request, after_connack_status, standby,
  client_step, poll,
}
use xbee_mqtt.Mqtt.Frame.{
  StaysOnline-trans, SameStates-StaysOnline, dispatch_incomming-SameStates,
  poll_connack_status-SameStates, send_connect_request-StaysOnline,
  handle_publish_requests-StaysOnline,
}

-- With no connection the radio rests; while the socket connects, the radio connects; from then on
-- the radio is online. The other states are not used once `begin` has succeeded.
abbrev pub fits : MqttState → Radio → Bool
fits MqttState.not_connected r = at_rest r
fits MqttState.connecting_socket r = is_connecting r
fits MqttState.connect_mqtt r = online r.m_state
fits MqttState.await_connack r = online r.m_state
fits MqttState.begin_standby r = online r.m_state
fits MqttState.standby r = online r.m_state
fits _ r = false

abbrev pub is_coherent : {W : Type 0} → Client W → Bool
is_coherent c = fits c.mqtt.state c.sys.radio

-- What holds between `radio.poll()` and the `switch` of `poll`.
abbrev pub polled : MqttState → Radio → Bool
polled MqttState.not_connected r = at_rest r
polled MqttState.connecting_socket r =
    is_connecting r || (online r.m_state || eq_state r.m_state RadioState.socket_cooldown_period)
polled MqttState.connect_mqtt r =
    online r.m_state || eq_state r.m_state RadioState.socket_cooldown_period
polled MqttState.await_connack r =
    online r.m_state || eq_state r.m_state RadioState.socket_cooldown_period
polled MqttState.begin_standby r =
    online r.m_state || eq_state r.m_state RadioState.socket_cooldown_period
polled MqttState.standby r =
    online r.m_state || eq_state r.m_state RadioState.socket_cooldown_period
polled _ r = false

module _ {W : Type 0} (P : Platform W) (L : PacketLibrary) where
  pub radio_poll-polled :
      (t : MqttState) (s : Sys W)
      → fits t s.radio ≡ true
      → polled t (Socket.poll P s).1.radio ≡ true
  radio_poll-polled MqttState.not_connected s h = poll-at_rest P s h
  radio_poll-polled MqttState.connecting_socket s h = poll-is_connecting P s h
  radio_poll-polled MqttState.connect_mqtt s h = poll-online P s h
  radio_poll-polled MqttState.await_connack s h = poll-online P s h
  radio_poll-polled MqttState.begin_standby s h = poll-online P s h
  radio_poll-polled MqttState.standby s h = poll-online P s h
  radio_poll-polled _ s h = cc

  drop_connection-coherent : (c : Client W) → is_coherent (drop_connection P L c).1 ≡ true
  unfolding drop_connection reset_socket
  drop_connection-coherent c = refl

  try_connect-coherent :
      (address : Option (List ℕ)) (active : Bool) (c : Client W)
      → c.mqtt.state ≡ MqttState.not_connected
      → at_rest c.sys.radio ≡ true
      → lt_state c.sys.radio.m_state RadioState.socket_ready ≡ false
      → is_coherent (try_connect P L address active c).1 ≡ true
  unfolding try_connect Socket.connect reset_socket
  try_connect-coherent none active c e h k = ground arith
  try_connect-coherent (some a) false c e h k = ground arith
  try_connect-coherent (some a) true c e h k = ground arith

  await_socket-coherent :
      (t : RadioState) (c : Client W)
      → c.mqtt.state ≡ MqttState.connecting_socket
      → c.sys.radio.m_state ≡ t
      → polled MqttState.connecting_socket c.sys.radio ≡ true
      → lt_state t RadioState.socket_ready ≡ false
      → is_coherent (await_socket P L t c).1 ≡ true
  unfolding await_socket drop_connection reset_socket
  await_socket-coherent RadioState.start c e r h k = ground arith
  await_socket-coherent _ c e r h k = ground arith

  after_connect_request-coherent :
      (r : MqttReturn) (c : Client W)
      → c.mqtt.state ≡ MqttState.connect_mqtt
      → online c.sys.radio.m_state ≡ true
      → is_coherent (after_connect_request P L r c).1 ≡ true
  unfolding after_connect_request drop_connection reset_socket
  after_connect_request-coherent MqttReturn.not_ready c e h = ground arith
  after_connect_request-coherent _ c e h = ground arith

  after_connack_status-coherent :
      (r : MqttReturn) (c : Client W)
      → c.mqtt.state ≡ MqttState.await_connack
      → online c.sys.radio.m_state ≡ true
      → is_coherent (after_connack_status P L r c).1 ≡ true
  unfolding after_connack_status drop_connection reset_socket
  after_connack_status-coherent MqttReturn.not_ready c e h = ground arith
  after_connack_status-coherent _ c e h = ground arith

  standby_fits :
      (d : Client W)
      → d.mqtt.state ≡ MqttState.standby
      → online d.sys.radio.m_state ≡ true
      → is_coherent d ≡ true
  standby_fits d e h = ground arith

  standby-coherent :
      (c : Client W)
      → c.mqtt.state ≡ MqttState.standby
      → online c.sys.radio.m_state ≡ true
      → is_coherent (standby P L c).1 ≡ true
  unfolding standby
  standby-coherent c e h =
      let d = (dispatch_incomming P L c).1 in
      let both =
        StaysOnline-trans (SameStates-StaysOnline (dispatch_incomming-SameStates P L c))
          (handle_publish_requests-StaysOnline P L d) in
      elim (Bool-cases (handle_publish_requests P L d).0) [
        | inl fine ↦
            rw fine (standby_fits (handle_publish_requests P L d).1 (both.state ∙ e) (both.still h))
        | inr reset ↦ rw reset (drop_connection-coherent (handle_publish_requests P L d).1)
      ]

  pub online_polled :
      (r : Radio)
      → (online r.m_state || eq_state r.m_state RadioState.socket_cooldown_period) ≡ true
      → lt_state r.m_state RadioState.socket_ready ≡ false
      → online r.m_state ≡ true
  online_polled r h k = ground arith

  client_step-coherent :
      (t : MqttState) (c : Client W)
      → c.mqtt.state ≡ t
      → polled t c.sys.radio ≡ true
      → lt_state c.sys.radio.m_state RadioState.socket_ready ≡ false
      → is_coherent (client_step P L t c.sys.radio.m_state c).1 ≡ true
  unfolding client_step
  client_step-coherent MqttState.not_connected c e h k =
      try_connect-coherent c.mqtt.address c.mqtt.request.active c e h k
  client_step-coherent MqttState.connecting_socket c e h k =
      await_socket-coherent c.sys.radio.m_state c e refl h k
  client_step-coherent MqttState.connect_mqtt c e h k =
      let (r, d) = send_connect_request P L c in
      let kept = send_connect_request-StaysOnline P L c in
      after_connect_request-coherent r d (cc (kept.state))
        (kept.still (online_polled c.sys.radio h k))
  client_step-coherent MqttState.await_connack c e h k =
      let (r, d) = poll_connack_status P L c in
      let kept = SameStates-StaysOnline (poll_connack_status-SameStates P L c) in
      after_connack_status-coherent r d (cc (kept.state))
        (kept.still (online_polled c.sys.radio h k))
  client_step-coherent MqttState.begin_standby c e h k =
      standby-coherent (record c { mqtt = record c.mqtt { state = MqttState.standby } }) refl
        (online_polled c.sys.radio h k)
  client_step-coherent MqttState.standby c e h k =
      standby-coherent c e (online_polled c.sys.radio h k)
  client_step-coherent _ c e h k = cc

  -- Below SOCKET_READY a polled radio rests.
  pub polled-at_rest :
      (t : MqttState) (r : Radio)
      → polled t r ≡ true
      → lt_state r.m_state RadioState.socket_ready ≡ true
      → at_rest r ≡ true
  polled-at_rest MqttState.not_connected r h k = h
  polled-at_rest _ r h k = ground arith

  -- `poll` keeps a coherent client coherent, whatever the platform and the broker do.
  pub poll-coherent : (c : Client W) → is_coherent c ≡ true → is_coherent (poll P L c).1 ≡ true
  unfolding poll
  poll-coherent c h =
      let d = (radio (Socket.poll P) c).1 in
      let p = radio_poll-polled c.mqtt.state c.sys h in
      elim (Bool-cases (lt_state d.sys.radio.m_state RadioState.socket_ready)) [
        | inl early ↦ rw (poll_lem P c.sys, early) (polled-at_rest c.mqtt.state d.sys.radio p early)
        | inr late ↦ rw (poll_lem P c.sys, late) (client_step-coherent c.mqtt.state d refl p late)
      ]
