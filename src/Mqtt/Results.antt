-- ===== src/Mqtt/Results.antt =====
-- What the result of GB4MQTT::poll says of the client and its radio.
use xbee_mqtt.Base.{◌≡◌, ◌⊎◌, inl, inr, refl, sym, subst, true, false, Bool-cases, ap, ◌∙◌}
use xbee_mqtt.Platform.{Platform}
use xbee_mqtt.Radio.Types.{RadioState, lt_state}
use xbee_mqtt.Radio.Socket
use xbee_mqtt.Radio.Phases.{at_rest, is_connecting, online}
use xbee_mqtt.Mqtt.Library.{PacketLibrary}
use xbee_mqtt.Mqtt.Types.{MqttReturn, MqttState, Mqtt, Client}
use xbee_mqtt.Mqtt.Poll.{poll, poll_result}
use xbee_mqtt.Mqtt.Keeping.{in_session}
use xbee_mqtt.Mqtt.Session.{fits, is_coherent, poll-coherent}
use xbee_mqtt.Mqtt.Graph.{poll_dropped, poll_served}

-- A socket is being connected, or is connected with no session on it yet.
abbrev pub IsOnTheWay : {W : Type 0} → Client W → Type 0
IsOnTheWay c =
    ((c.mqtt.state ≡ MqttState.connecting_socket) × (is_connecting c.sys.radio ≡ true))
    ⊎ (((c.mqtt.state ≡ MqttState.connect_mqtt) ⊎ (c.mqtt.state ≡ MqttState.await_connack))
        × (online c.sys.radio.m_state ≡ true))

-- What a result means for the state in which `radio.poll()` left the radio, and the client afterwards.
abbrev pub Means : {W : Type 0} → MqttReturn → RadioState → Client W → Type 0
Means MqttReturn.connected t c =
    (in_session c.mqtt.state ≡ true) × (online c.sys.radio.m_state ≡ true)
Means MqttReturn.radio_ready t c =
    (lt_state t RadioState.socket_ready ≡ false)
    × (c.mqtt.state ≡ MqttState.not_connected)
    × (at_rest c.sys.radio ≡ true)
Means MqttReturn.in_progress t c =
    ((lt_state t RadioState.socket_ready ≡ true)
      × (c.mqtt.state ≡ MqttState.not_connected)
      × (at_rest c.sys.radio ≡ true))
    ⊎ ((lt_state t RadioState.socket_ready ≡ false) × IsOnTheWay c)
Means _ t c = ⊥

served_Means :
    {W : Type 0} (s : MqttState) (t : RadioState) (c : Client W)
    → c.mqtt.state ≡ s
    → fits s c.sys.radio ≡ true
    → lt_state t RadioState.socket_ready ≡ false
    → Means (poll_result s) t c
unfolding poll_result
served_Means MqttState.not_connected t c e h late = (late, e, h)
served_Means MqttState.connecting_socket t c e h late = inr (late, inl (e, h))
served_Means MqttState.connect_mqtt t c e h late = inr (late, inr (inl e, h))
served_Means MqttState.await_connack t c e h late = inr (late, inr (inr e, h))
served_Means MqttState.begin_standby t c e h late = (rw e refl, h)
served_Means MqttState.standby t c e h late = (rw e refl, h)
served_Means MqttState.init t c e h late = cc
served_Means _ t c e h late = cc

module _ {W : Type 0} (P : Platform W) (L : PacketLibrary) where
  -- For a client whose state fits that of its radio, as it does after any calls, `poll` returns
  -- CONNECTED exactly if it leaves the client in a session, with the radio CONNECTED or SENDING;
  -- RADIO_READY exactly if the radio was at SOCKET_READY or beyond after its own poll and the client is
  -- left NOT_CONNECTED, with a radio that has no connection and asks for none; and otherwise
  -- IN_PROGRESS: the radio has no socket yet, or the client is on its way to a session with a radio that
  -- connects or is connected.
  pub poll-Means :
      (c : Client W)
      → is_coherent c ≡ true
      → Means (poll P L c).0 (Socket.poll P c.sys).1.radio.m_state (poll P L c).1
  poll-Means c h =
      let t = (Socket.poll P c.sys).1.radio.m_state in
      let d = (poll P L c).1 in
      let fitting = poll-coherent P L c h in
      elim (Bool-cases (lt_state t RadioState.socket_ready)) [
        | inl early ↦
            let (result, members, same) = poll_dropped P L c early in
            let left : d.mqtt.state ≡ MqttState.not_connected =
              ap (λ (m : Mqtt). m.state) members in
            let rests : at_rest d.sys.radio ≡ true =
              subst (λ s. fits s d.sys.radio ≡ true) left fitting in
            subst (λ r. Means r t d) (sym result) (inl (early, left, rests))
        | inr late ↦
            let (same, result) = poll_served P L c late in
            let returned = result ∙ ap (λ (e : Client W). poll_result e.mqtt.state) (sym same) in
            subst (λ r. Means r t d) (sym returned)
              (served_Means d.mqtt.state t d refl fitting late)
      ]
