-- ===== src/Mqtt/Connecting.antt =====
-- The whole way of GB4MQTT and its radio to a session, from any state of the two: the radio's way to
-- a socket, and the client's from there on.
use xbee_mqtt.Base.{
  ℕ, ◌+◌, ◌-◌, ◌≤◌, ◌≡◌, inl, inr, arith, Bool, true, ◌&&◌, leb, if◌then◌else◌, Bool-cases,
}
use xbee_mqtt.Platform.{Platform}
use xbee_mqtt.Radio.Types.{RadioState, Sys, lt_state}
use xbee_mqtt.Radio.Socket
use xbee_mqtt.Radio.Ready.{to_ready, advances, poll-to_ready, ready-to_ready}
use xbee_mqtt.Mqtt.Library.{PacketLibrary}
use xbee_mqtt.Mqtt.Types.{Client}
use xbee_mqtt.Mqtt.Poll.{poll}
use xbee_mqtt.Mqtt.Establishing.{to_session, and_true, not_and, found, keeps, poll-to_session}

-- How many answers the client and its radio are away from a session: 20 when the radio is in START.
abbrev pub away : {W : Type 0} → Client W → ℕ
away c = to_ready c.sys.radio.m_state + to_session c.mqtt.state

module _ {W : Type 0} (P : Platform W) (L : PacketLibrary) where
  abbrev pub no_farther : Sys W → Sys W → Bool
  no_farther s t = leb (to_ready t.radio.m_state) (to_ready s.radio.m_state)

  -- A poll in which the radio does not fall back, by itself or by a reset of the client, and the client
  -- keeps what it has of a connection.
  abbrev pub holds_on : Client W → Bool
  holds_on c =
      let s = (Socket.poll P c.sys).1 in
      keeps P L c && (no_farther c.sys s && no_farther s (poll P L c).1.sys)

  -- How many of the two, the radio on its way to a socket and the client on its way to a session, find
  -- in this poll what they wait for.
  abbrev pub progress : Client W → ℕ
  progress c = (if advances P c.sys then 1 else 0) + (if found P L c then 1 else 0)

  found-to_ready :
      (c : Client W) → found P L c ≡ true → to_ready (Socket.poll P c.sys).1.radio.m_state ≡ 0
  found-to_ready c h =
      let t = (Socket.poll P c.sys).1.radio.m_state in
      ready-to_ready P t (not_and (lt_state t RadioState.socket_ready) _ h).0

  radio_poll-to_ready :
      (s : Sys W)
      → no_farther s (Socket.poll P s).1 ≡ true
      → to_ready (Socket.poll P s).1.radio.m_state + (if advances P s then 1 else 0)
        ≤ to_ready s.radio.m_state
  radio_poll-to_ready s h = elim (Bool-cases (advances P s)) [
    | inl e ↦ rw e (omega (arith, poll-to_ready P s e))
    | inr e ↦ rw e (ground arith)
  ]

  pub poll-away : (c : Client W) → holds_on c ≡ true → away (poll P L c).1 ≤ away c - progress c
  poll-away c h =
      let s = (Socket.poll P c.sys).1 in
      let (kept, near) = and_true (keeps P L c) _ h in
      let (near_0, near_1) = and_true (no_farther c.sys s) _ near in
      let there : to_ready (poll P L c).1.sys.radio.m_state ≤ to_ready s.radio.m_state =
        ground arith in
      let radio = radio_poll-to_ready c.sys near_0 in
      let client = poll-to_session P L c kept in
      elim (Bool-cases (found P L c)) [
        | inl e ↦ rw e (omega (arith, radio, there, found-to_ready c e, rw e at client))
        | inr e ↦ rw e (omega (arith, radio, there, rw e at client))
      ]
