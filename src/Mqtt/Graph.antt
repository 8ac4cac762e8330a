-- ===== src/Mqtt/Graph.antt =====
-- The transition diagram of GB4MQTT, and what starts a session.
use xbee_mqtt.Base.{
  ℕ, ◌≡◌, refl, ap, sym, subst, ◌∙◌, ◌≢◌, ◌⊎◌, inl, inr, Bool, true, false, List, Option, none,
  some, arith, Bool-cases,
}
use xbee_mqtt.Platform.{Platform}
use xbee_mqtt.Radio.Types.{RadioState, lt_state}
use xbee_mqtt.Radio.Socket
use xbee_mqtt.Radio.Phases.{poll_lem}
use xbee_mqtt.Mqtt.Library.{PacketLibrary}
use xbee_mqtt.Mqtt.Types.{MqttReturn, MqttState, Client, radio, gb4mqtt_max_packet_size}
use xbee_mqtt.Mqtt.Incoming.{poll_incomming, dispatch_incomming, poll_connack_status}
use xbee_mqtt.Mqtt.Outgoing.{send_connect_request}
use xbee_mqtt.Mqtt.Poll.{
  drop_connection, try_connect, await_socket, after_connect_request, after_connack_status, standby,
  client_step, poll, poll_result,
}
use xbee_mqtt.Mqtt.Frame.{
  dispatch_incomming-SameStates, poll_connack_status-SameStates, send_connect_request-StaysOnline,
  handle_publish_requests-StaysOnline,
}
use xbee_mqtt.Mqtt.Acknowledge.{Accepting, poll_connack_status-Accepting}

infix 40 ◌⟿◌
pub data ◌⟿◌ : MqttState → MqttState → Type 0 where
  stay : {t : MqttState} → t ⟿ t
  drop : {t : MqttState} → t ⟿ MqttState.not_connected
  connect_socket : MqttState.not_connected ⟿ MqttState.connecting_socket
  socket_connected : MqttState.connecting_socket ⟿ MqttState.connect_mqtt
  connect_sent : MqttState.connect_mqtt ⟿ MqttState.await_connack
  got_connack : MqttState.await_connack ⟿ MqttState.begin_standby
  enter : MqttState.begin_standby ⟿ MqttState.standby

ruleset edges = (stay, drop, connect_socket, socket_connected, connect_sent, got_connack, enter)

module _ {W : Type 0} (P : Platform W) (L : PacketLibrary) where
  try_connect-⟿ :
      (address : Option (List ℕ)) (active : Bool) (c : Client W)
      → c.mqtt.state ≡ MqttState.not_connected
      → MqttState.not_connected ⟿ (try_connect P L address active c).1.mqtt.state
  unfolding try_connect
  try_connect-⟿ none active c e = rw e stay
  try_connect-⟿ (some a) false c e = rw e stay
  try_connect-⟿ (some a) true c e = grind (arith, edges)

  await_socket-⟿ :
      (t : RadioState) (c : Client W)
      → c.mqtt.state ≡ MqttState.connecting_socket
      → MqttState.connecting_socket ⟿ (await_socket P L t c).1.mqtt.state
  unfolding await_socket
  await_socket-⟿ RadioState.start c e = grind (arith, edges)
  await_socket-⟿ _ c e = grind (arith, edges)

  after_connect_request-⟿ :
      (r : MqttReturn) (c : Client W)
      → c.mqtt.state ≡ MqttState.connect_mqtt
      → MqttState.connect_mqtt ⟿ (after_connect_request P L r c).1.mqtt.state
  unfolding after_connect_request
  after_connect_request-⟿ MqttReturn.not_ready c e = grind (arith, edges)
  after_connect_request-⟿ _ c e = grind (arith, edges)

  after_connack_status-⟿ :
      (r : MqttReturn) (c : Client W)
      → c.mqtt.state ≡ MqttState.await_connack
      → MqttState.await_connack ⟿ (after_connack_status P L r c).1.mqtt.state
  unfolding after_connack_status
  after_connack_status-⟿ MqttReturn.not_ready c e = grind (arith, edges)
  after_connack_status-⟿ _ c e = grind (arith, edges)

  standby-state :
      (c : Client W)
      → c.mqtt.state ≡ MqttState.standby
      → ((standby P L c).1.mqtt.state ≡ MqttState.standby)
        ⊎ ((standby P L c).1.mqtt.state ≡ MqttState.not_connected)
  unfolding standby drop_connection
  standby-state c e = ground (
    arith,
    dispatch_incomming-SameStates P L c,
    handle_publish_requests-StaysOnline P L (dispatch_incomming P L c).1,
  )

  client_step-⟿ :
      (t : MqttState) (u : RadioState) (c : Client W)
      → c.mqtt.state ≡ t
      → t ⟿ (client_step P L t u c).1.mqtt.state
  unfolding client_step
  client_step-⟿ MqttState.not_connected u c e =
      try_connect-⟿ c.mqtt.address c.mqtt.request.active c e
  client_step-⟿ MqttState.connecting_socket u c e = await_socket-⟿ u c e
  client_step-⟿ MqttState.connect_mqtt u c e =
      let (r, d) = send_connect_request P L c in
      after_connect_request-⟿ r d ((send_connect_request-StaysOnline P L c).state ∙ e)
  client_step-⟿ MqttState.await_connack u c e =
      let (r, d) = poll_connack_status P L c in
      after_connack_status-⟿ r d ((poll_connack_status-SameStates P L c).state ∙ e)
  client_step-⟿ MqttState.begin_standby u c e =
      elim (standby-state (record c { mqtt = record c.mqtt { state = MqttState.standby } }) refl) [
        | inl s ↦ rw s enter
        | inr s ↦ rw s drop
      ]
  client_step-⟿ MqttState.standby u c e = elim (standby-state c e) [
    | inl s ↦ rw s stay
    | inr s ↦ rw s drop
  ]
  client_step-⟿ _ u c e = rw e stay

  -- The two branches of `poll` after `radio.poll()`: below SOCKET_READY the client has no connection.
  pub poll_dropped :
      (c : Client W)
      → lt_state (Socket.poll P c.sys).1.radio.m_state RadioState.socket_ready ≡ true
      → ((poll P L c).0 ≡ MqttReturn.in_progress)
        × ((poll P L c).1.mqtt ≡ record c.mqtt { state = MqttState.not_connected })
        × ((poll P L c).1.sys ≡ (Socket.poll P c.sys).1)
  unfolding poll
  poll_dropped c early = rw (poll_lem P c.sys, early) (refl, refl, refl)

  pub poll_served :
      (c : Client W)
      → lt_state (Socket.poll P c.sys).1.radio.m_state RadioState.socket_ready ≡ false
      → let d = (radio (Socket.poll P) c).1 in
        let e = (client_step P L c.mqtt.state d.sys.radio.m_state d).1 in
        ((poll P L c).1 ≡ e) × ((poll P L c).0 ≡ poll_result e.mqtt.state)
  unfolding poll
  poll_served c late = rw (poll_lem P c.sys, late) (refl, refl)

  -- One call of `poll`, whatever the platform and the broker do, follows an edge of the diagram.
  pub poll-⟿ : (c : Client W) → c.mqtt.state ⟿ (poll P L c).1.mqtt.state
  poll-⟿ c =
      let d = (radio (Socket.poll P) c).1 in
      elim (Bool-cases (lt_state d.sys.radio.m_state RadioState.socket_ready)) [
        | inl early ↦ rw (poll_dropped c early).1 drop
        | inr late ↦
            rw (poll_served c late).0 (client_step-⟿ c.mqtt.state d.sys.radio.m_state d refl)
      ]

  session_edge :
      {t u : MqttState} → t ⟿ u → t ≢ u → u ≡ MqttState.begin_standby → t ≡ MqttState.await_connack
  session_edge stay n e = absurd (n refl)
  session_edge _ n e = ground arith

  after_connack_status_session :
      (r : MqttReturn) (c : Client W)
      → c.mqtt.state ≡ MqttState.await_connack
      → (after_connack_status P L r c).1.mqtt.state ≡ MqttState.begin_standby
      → r ≡ MqttReturn.got_connack
  unfolding after_connack_status drop_connection
  after_connack_status_session MqttReturn.not_ready c e h = ground arith
  after_connack_status_session _ c e h = ground arith

  session_start_at :
      (c : Client W)
      → c.mqtt.state ≡ MqttState.await_connack
      → (poll P L c).1.mqtt.state ≡ MqttState.begin_standby
      → let d = (radio (Socket.poll P) c).1 in
        let (_, t, message, len) = (poll_incomming P L gb4mqtt_max_packet_size d).0 in
        Accepting L t message len
  unfolding client_step
  session_start_at c at h =
      let d = (radio (Socket.poll P) c).1 in
      let (r, e) = poll_connack_status P L d in
      elim (Bool-cases (lt_state d.sys.radio.m_state RadioState.socket_ready)) [
        | inl early ↦ absurd (ground (arith, poll_dropped c early))
        | inr late ↦
            let step =
              subst
                (λ t.
                  (client_step P L t d.sys.radio.m_state d).1.mqtt.state ≡ MqttState.begin_standby)
                at (sym (ap (λ (x : Client W). x.mqtt.state) (poll_served c late).0) ∙ h) in
            poll_connack_status-Accepting P L d (
              after_connack_status_session r e ((poll_connack_status-SameStates P L d).state ∙ at)
                step)
      ]

  -- A session begins only where a CONNACK was awaited and the packet that this poll received accepts
  -- the connection, in the sense of `Accepting`.
  pub session_start :
      (c : Client W)
      → c.mqtt.state ≢ MqttState.begin_standby
      → (poll P L c).1.mqtt.state ≡ MqttState.begin_standby
      → let d = (radio (Socket.poll P) c).1 in
        let (_, t, message, len) = (poll_incomming P L gb4mqtt_max_packet_size d).0 in
        (c.mqtt.state ≡ MqttState.await_connack) × Accepting L t message len
  session_start c n h =
      let at = session_edge (poll-⟿ c) (λ e. n (e ∙ h)) h in (at, session_start_at c at h)
