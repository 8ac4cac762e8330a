-- ===== src/Mqtt/Run.antt =====
-- A program that uses GB4MQTT: calls of `begin`, `poll`, `publish`, `startConnect` and the setters in
-- any order.
use xbee_mqtt.Base.{
  ℕ, ◌≡◌, refl, ◌⊎◌, inl, inr, Bool, true, false, ◌&&◌, subst, sym, Option, List, [], ◌∷◌, arith,
  Bool-cases,
}
use xbee_mqtt.Platform.{Platform}
use xbee_mqtt.Radio.Types.{RadioState, Radio, lt_state}
use xbee_mqtt.Radio.Startup
use xbee_mqtt.Radio.Socket
use xbee_mqtt.Radio.Phases.{online, is_connecting}
use xbee_mqtt.Mqtt.Library.{PacketLibrary}
use xbee_mqtt.Mqtt.Types.{MqttReturn, MqttState, Client, radio}
use xbee_mqtt.Mqtt.Client.{
  begin, publish, set_address, set_port, set_client_id, set_client_name, set_password,
  start_connect,
}
use xbee_mqtt.Mqtt.Poll.{client_step, poll, poll_result}
use xbee_mqtt.Mqtt.Requests.{Message, publish_message}
use xbee_mqtt.Mqtt.Session.{
  fits, is_coherent, poll-coherent, polled, radio_poll-polled, polled-at_rest, online_polled,
}
use xbee_mqtt.Mqtt.Graph.{poll_dropped, poll_served}

pub data Action : Type 0 where
  begins polls starts_connect : Action
  publishes : Message → Action
  sets_address : Option (List ℕ) → Action
  sets_client_id sets_client_name sets_password : List ℕ → Action
  sets_port : ℕ → Action

module _ {W : Type 0} (P : Platform W) (L : PacketLibrary) where
  pub act : Action → Client W → Client W
  act begins c = (begin P c).1
  act polls c = (poll P L c).1
  act starts_connect c = (start_connect c).1
  act (publishes m) c = publish_message P m c
  act (sets_address a) c = (set_address a c).1
  act (sets_client_id i) c = (set_client_id i c).1
  act (sets_client_name i) c = (set_client_name i c).1
  act (sets_password i) c = (set_password i c).1
  act (sets_port p) c = (set_port p c).1

  pub run : List Action → Client W → Client W
  run [] c = c
  run (a ∷ calls) c = run calls (act a c)

  -- Whether a call is no `begin` that fails, and whether none of the calls is.
  pub began : Action → Client W → Bool
  began begins c = (begin P c).0
  began _ c = true

  pub all_begun : List Action → Client W → Bool
  all_begun [] c = true
  all_begun (a ∷ calls) c = began a c && all_begun calls (act a c)

  begin-coherent : (c : Client W) → (begin P c).0 ≡ true → is_coherent (begin P c).1 ≡ true
  unfolding begin Startup.begin
  begin-coherent c h = ground arith

  -- A `begin` failed, and the radio is in a state that fits some state of the client.
  abbrev HasFailed : Client W → Type 0
  HasFailed c =
      (c.mqtt.state ≡ MqttState.radio_init_failed) × ((t : MqttState) × (fits t c.sys.radio ≡ true))

  fits_alike :
      (t : MqttState) (r r' : Radio)
      → r'.m_state ≡ r.m_state
      → r'.connect_in_progress ≡ r.connect_in_progress
      → fits t r ≡ true
      → fits t r' ≡ true
  fits_alike MqttState.not_connected r r' p q h = cc
  fits_alike _ r r' p q h = cc

  begin_failed :
      (c : Client W)
      → (begin P c).0 ≡ false
      → let d = (begin P c).1 in
        (d.mqtt.state ≡ MqttState.radio_init_failed)
        × (d.sys.radio.m_state ≡ c.sys.radio.m_state)
        × (d.sys.radio.connect_in_progress ≡ c.sys.radio.connect_in_progress)
  unfolding begin Startup.begin
  begin_failed c k = ground arith

  begin-HasFailed :
      (c : Client W) (t : MqttState)
      → fits t c.sys.radio ≡ true
      → (begin P c).0 ≡ false
      → HasFailed (begin P c).1
  begin-HasFailed c t h k =
      let (failed, p, q) = begin_failed c k in
      (failed, (t, fits_alike t c.sys.radio (begin P c).1.sys.radio p q h))

  late_fits :
      (t : MqttState) (r : Radio)
      → polled t r ≡ true
      → lt_state r.m_state RadioState.socket_ready ≡ false
      → (u : MqttState) × (fits u r ≡ true)
  late_fits MqttState.not_connected r h k = (MqttState.not_connected, h)
  late_fits MqttState.connecting_socket r h k = elim (Bool-cases (is_connecting r)) [
    | inl connects ↦ (MqttState.connecting_socket, connects)
    | inr other ↦ (MqttState.standby, ground (arith, other))
  ]
  late_fits MqttState.connect_mqtt r h k = (MqttState.standby, online_polled P L r h k)
  late_fits MqttState.await_connack r h k = (MqttState.standby, online_polled P L r h k)
  late_fits MqttState.begin_standby r h k = (MqttState.standby, online_polled P L r h k)
  late_fits MqttState.standby r h k = (MqttState.standby, online_polled P L r h k)
  late_fits _ r h k = absurd (cc)

  abbrev Settled : Client W → Type 0
  Settled c = (is_coherent c ≡ true) ⊎ HasFailed c

  poll-HasFailed : (c : Client W) → HasFailed c → Settled (poll P L c).1
  unfolding client_step
  poll-HasFailed c (at, (t, h)) =
      let r = (Socket.poll P c.sys).1.radio in
      let kept = radio_poll-polled P L t c.sys h in
      elim (Bool-cases (lt_state r.m_state RadioState.socket_ready)) [
        | inl early ↦
            inl (ground (arith, poll_dropped P L c early, polled-at_rest P L t r kept early))
        | inr late ↦
            let e = (radio (Socket.poll P) c).1 in
            rw (poll_served P L c late).0 (
              subst (λ s. Settled (client_step P L s e.sys.radio.m_state e).1) (sym at)
                (inr (at, late_fits t r kept late)))
      ]

  -- A call leaves states that fit, or is a `begin` that failed.
  act-coherent :
      (a : Action) (c : Client W)
      → is_coherent c ≡ true
      → (is_coherent (act a c) ≡ true) ⊎ ((began a c ≡ false) × HasFailed (act a c))
  unfolding act began publish set_address set_port set_client_id set_client_name set_password
      start_connect
  act-coherent begins c h = elim (Bool-cases (begin P c).0) [
    | inl begun ↦ inl (begin-coherent c begun)
    | inr failed ↦ inr (failed, begin-HasFailed c c.mqtt.state h failed)
  ]
  act-coherent polls c h = inl (poll-coherent P L c h)
  act-coherent _ c h = inl h

  act-HasFailed : (a : Action) (c : Client W) → HasFailed c → Settled (act a c)
  unfolding act publish set_address set_port set_client_id set_client_name set_password
      start_connect
  act-HasFailed begins c (at, (t, k)) = elim (Bool-cases (begin P c).0) [
    | inl begun ↦ inl (begin-coherent c begun)
    | inr failed ↦ inr (begin-HasFailed c t k failed)
  ]
  act-HasFailed polls c h = poll-HasFailed c h
  act-HasFailed _ c h = inr h

  act-Settled : (a : Action) (c : Client W) → Settled c → Settled (act a c)
  act-Settled a c (inr h) = act-HasFailed a c h
  act-Settled a c (inl h) = elim (act-coherent a c h) [
    | inl fitting ↦ inl fitting
    | inr failed ↦ inr failed.1
  ]

  run-Settled : (calls : List Action) (c : Client W) → Settled c → Settled (run calls c)
  unfolding run
  run-Settled [] c h = h
  run-Settled (a ∷ calls) c h = run-Settled calls (act a c) (act-Settled a c h)

  -- The states of client and radio fit, or a `begin` among the calls failed.
  abbrev pub FitsUnless : List Action → Client W → Type 0
  FitsUnless calls c =
      let d = run calls c in
      (fits d.mqtt.state d.sys.radio ≡ true)
      ⊎ ((d.mqtt.state ≡ MqttState.radio_init_failed) × (all_begun calls c ≡ false))

  run-FitsUnless : (calls : List Action) (c : Client W) → is_coherent c ≡ true → FitsUnless calls c
  unfolding run all_begun
  run-FitsUnless [] c h = inl h
  run-FitsUnless (a ∷ calls) c h = elim (act-coherent a c h) [
    | inl fitting ↦ elim (run-FitsUnless calls (act a c) fitting) [
      | inl still ↦ inl still
      | inr (at, later) ↦ inr (at, ground (arith, later))
    ]
    | inr (failed, h') ↦ elim (run-Settled calls (act a c) (inr h')) [
      | inl fitting ↦ inl fitting
      | inr (at, some_fit) ↦ inr (at, rw failed refl)
    ]
  ]

  -- After a `begin` that succeeded, whatever sequence of `begin`, `poll`, `publish`, `startConnect`
  -- and the setters the program calls, a setAddress(nullptr) included, and whatever the platform and
  -- the broker do: the states of client and radio fit (with no connection the radio rests, while a
  -- socket connects the radio is connecting it, and from CONNECT_MQTT on the radio has a connected
  -- socket), or one of the later calls of `begin` failed and the client is in RADIO_INIT_FAILED.
  pub run-begin-coherent :
      (calls : List Action) (c : Client W) → (begin P c).0 ≡ true → FitsUnless calls (begin P c).1
  run-begin-coherent calls c h = run-FitsUnless calls (begin P c).1 (begin-coherent c h)

  -- Where `poll` of a client whose states fit returns CONNECTED, it has left the client in a session,
  -- and the radio is online.
  pub poll-connected :
      (c : Client W)
      → is_coherent c ≡ true
      → (poll P L c).0 ≡ MqttReturn.connected
      → let d = (poll P L c).1 in
        ((d.mqtt.state ≡ MqttState.begin_standby) ⊎ (d.mqtt.state ≡ MqttState.standby))
        × (online d.sys.radio.m_state ≡ true)
  unfolding poll_result
  poll-connected c h k =
      elim (Bool-cases (lt_state (Socket.poll P c.sys).1.radio.m_state RadioState.socket_ready)) [
        | inl early ↦ absurd (ground (arith, poll_dropped P L c early))
        | inr late ↦ ground (arith, poll_served P L c late, poll-coherent P L c h)
      ]
