-- ===== src/Mqtt/Establishing.antt =====
-- How GB4MQTT comes to a session: what each state of its `poll` waits for, and how many answers it
-- takes from NOT_CONNECTED on.
use xbee_mqtt.Base.{
  ℕ, zero, suc, ◌+◌, ◌-◌, ◌≤◌, ◌≡◌, ◌∙◌, refl, ap, inl, inr, arith, Bool, true, false, ◌&&◌, ◌||◌,
  not, List, Option, none, some, if◌then◌else◌, is_zero, to_size, Bool-cases,
}
use xbee_mqtt.Platform.{Platform}
use xbee_mqtt.Radio.Types.{RadioState, lt_state, eq_state}
use xbee_mqtt.Radio.Message.{send_message, send_status}
use xbee_mqtt.Radio.Socket
use xbee_mqtt.Mqtt.Library.{PacketLibrary}
use xbee_mqtt.Mqtt.Types.{MqttReturn, MqttState, Client, radio, gb4mqtt_connect_packet_size}
use xbee_mqtt.Mqtt.Incoming.{poll_connack_status}
use xbee_mqtt.Mqtt.Outgoing.{connect_data, connect_status, after_connect, send_connect_request}
use xbee_mqtt.Mqtt.Poll.{
  try_connect, await_socket, after_connect_request, after_connack_status, client_step, poll,
}
use xbee_mqtt.Mqtt.Keeping.{in_session}
use xbee_mqtt.Mqtt.Graph.{poll_served, poll-⟿, ◌⟿◌, stay}

-- How many states lie between this one and a session; the states that are not on the way are put
-- behind all others.
abbrev pub to_session : MqttState → ℕ
to_session MqttState.not_connected = 4
to_session MqttState.connecting_socket = 3
to_session MqttState.connect_mqtt = 2
to_session MqttState.await_connack = 1
to_session MqttState.begin_standby = 0
to_session MqttState.standby = 0
to_session _ = 5

abbrev pub is_not_connected : MqttState → Bool
is_not_connected MqttState.not_connected = true
is_not_connected _ = false

abbrev pub is_got_connack : MqttReturn → Bool
is_got_connack MqttReturn.got_connack = true
is_got_connack _ = false

pub not_and : (a b : Bool) → (not a && b) ≡ true → (a ≡ false) × (b ≡ true)
not_and true b h = cc
not_and false b h = (refl, h)

pub and_true : (a b : Bool) → (a && b) ≡ true → (a ≡ true) × (b ≡ true)
and_true true b h = (refl, h)
and_true false b h = cc

module _ {W : Type 0} (P : Platform W) (L : PacketLibrary) where
  -- There is an address, a request is active, and the driver takes the request to connect.
  abbrev pub can_connect : Client W → Bool
  can_connect c = elim c.mqtt.address [
    | none ↦ false
    | some address ↦
        c.mqtt.request.active
        && is_zero (P.sock_connect c.sys.radio.sock c.mqtt.port 0 address c.sys.world).0
  ]

  -- The serializer makes a CONNECT, and the driver takes it.
  abbrev pub can_introduce : Client W → Bool
  can_introduce c =
      let (len, packet) = L.serialize_connect gb4mqtt_connect_packet_size (connect_data c.mqtt) in
      not (is_zero len)
      && (eq_state c.sys.radio.m_state RadioState.connected
          && is_zero (P.sock_send c.sys.radio.sock 0 packet (to_size len) c.sys.world).0)

  -- What the state waits for is there, after `radio.poll()`.
  abbrev pub found_in : MqttState → Client W → Bool
  found_in MqttState.not_connected c = can_connect c
  found_in MqttState.connecting_socket c = eq_state c.sys.radio.m_state RadioState.connected
  found_in MqttState.connect_mqtt c = can_introduce c
  found_in MqttState.await_connack c = is_got_connack (poll_connack_status P L c).0
  found_in MqttState.begin_standby c = true
  found_in MqttState.standby c = true
  found_in _ c = false

  abbrev pub found : Client W → Bool
  found c =
      let d = (radio (Socket.poll P) c).1 in
      not (lt_state d.sys.radio.m_state RadioState.socket_ready) && found_in c.mqtt.state d

  try_connect-to_session :
      (address : Option (List ℕ)) (active : Bool) (c : Client W)
      → c.mqtt.address ≡ address
      → c.mqtt.request.active ≡ active
      → can_connect c ≡ true
      → to_session (try_connect P L address active c).1.mqtt.state ≡ 3
  unfolding try_connect Socket.connect
  try_connect-to_session none active c a b h = ground (arith, h, a)
  try_connect-to_session (some x) false c a b h = ground (arith, h, a, b)
  try_connect-to_session (some x) true c a b h = ground (arith, h, a, b)

  await_socket-to_session :
      (t : RadioState) (c : Client W)
      → eq_state t RadioState.connected ≡ true
      → to_session (await_socket P L t c).1.mqtt.state ≡ 2
  unfolding await_socket
  await_socket-to_session RadioState.connected c h = refl
  await_socket-to_session RadioState.start c h = cc
  await_socket-to_session _ c h = cc

  introduce-to_session :
      (c : Client W)
      → can_introduce c ≡ true
      → let (r, d) = send_connect_request P L c in
        to_session (after_connect_request P L r d).1.mqtt.state ≡ 1
  unfolding after_connect_request send_connect_request after_connect connect_status send_message
      send_status
  introduce-to_session c h = ground (arith, h)

  connack-to_session :
      (r : MqttReturn) (c : Client W)
      → is_got_connack r ≡ true
      → to_session (after_connack_status P L r c).1.mqtt.state ≡ 0
  unfolding after_connack_status
  connack-to_session MqttReturn.got_connack c h = refl
  connack-to_session MqttReturn.not_ready c h = cc
  connack-to_session _ c h = cc

  client_step-to_session :
      (t : MqttState) (c : Client W)
      → c.mqtt.state ≡ t
      → found_in t c ≡ true
      → in_session t ≡ false
      → to_session (client_step P L t c.sys.radio.m_state c).1.mqtt.state ≡ to_session t - 1
  unfolding client_step
  client_step-to_session MqttState.not_connected c e h k =
      try_connect-to_session c.mqtt.address c.mqtt.request.active c refl refl h
  client_step-to_session MqttState.connecting_socket c e h k =
      await_socket-to_session c.sys.radio.m_state c h
  client_step-to_session MqttState.connect_mqtt c e h k = introduce-to_session c h
  client_step-to_session MqttState.await_connack c e h k =
      let (r, d) = poll_connack_status P L c in connack-to_session r d h
  client_step-to_session _ c e h k = cc

  -- A poll that keeps what the client has of a connection.
  abbrev pub keeps : Client W → Bool
  keeps c = is_not_connected c.mqtt.state || not (is_not_connected (poll P L c).1.mqtt.state)

  kept_edge :
      {t u : MqttState}
      → t ⟿ u
      → (is_not_connected t || not (is_not_connected u)) ≡ true
      → to_session u ≤ to_session t
  kept_edge stay h = omega arith
  kept_edge _ h = ground arith

  poll-found :
      (c : Client W)
      → found c ≡ true
      → in_session c.mqtt.state ≡ false
      → to_session (poll P L c).1.mqtt.state ≡ to_session c.mqtt.state - 1
  poll-found c h k =
      let d = (radio (Socket.poll P) c).1 in
      let (late, there) = not_and (lt_state d.sys.radio.m_state RadioState.socket_ready) _ h in
      ap (λ (e : Client W). to_session e.mqtt.state) (poll_served P L c late).0
      ∙ client_step-to_session c.mqtt.state d refl there k

  in_session-to_session : (t : MqttState) → in_session t ≡ true → to_session t ≡ 0
  in_session-to_session MqttState.not_connected h = cc
  in_session-to_session _ h = ground arith

  pub to_session-in_session : (t : MqttState) → to_session t ≤ 0 → in_session t ≡ true
  to_session-in_session MqttState.not_connected h = absurd (omega arith)
  to_session-in_session _ h = ground arith

  pub poll-to_session :
      (c : Client W)
      → keeps c ≡ true
      → to_session (poll P L c).1.mqtt.state ≤ to_session c.mqtt.state - (if found c then 1 else 0)
  poll-to_session c kept =
      let edge = kept_edge (poll-⟿ P L c) kept in
      elim (Bool-cases (in_session c.mqtt.state)) [
        | inl there ↦ omega (arith, edge, in_session-to_session c.mqtt.state there)
        | inr on_way ↦ elim (Bool-cases (found c)) [
          | inl h ↦ rw h (omega (arith, poll-found c h on_way))
          | inr h ↦ rw h (omega (arith, edge))
        ]
      ]

  -- The client after `n` polls; whether all of them keep it; and how many find what they wait for.
  unfoldable pub after_polls : ℕ → Client W → Client W
  after_polls zero c = c
  after_polls (suc n) c = after_polls n (poll P L c).1

  unfoldable pub all_keep : ℕ → Client W → Bool
  all_keep zero c = true
  all_keep (suc n) c = keeps c && all_keep n (poll P L c).1

  unfoldable pub finds : ℕ → Client W → ℕ
  finds zero c = 0
  finds (suc n) c = (if found c then 1 else 0) + finds n (poll P L c).1

  polls-to_session :
      (n : ℕ) (c : Client W)
      → all_keep n c ≡ true
      → to_session (after_polls n c).mqtt.state ≤ to_session c.mqtt.state - finds n c
  unfolding after_polls all_keep finds
  polls-to_session zero c h = omega arith
  polls-to_session (suc n) c h =
      let (first, later) = and_true (keeps c) _ h in
      omega (arith, poll-to_session c first, polls-to_session n (poll P L c).1 later)

  -- If none of `n` polls gives up what the client has of a connection, and as many of them find what
  -- their state waits for as there are states up to the session (4 from NOT_CONNECTED), then the client
  -- is in a session afterwards, however many polls waited in between. NOT_CONNECTED waits for an
  -- address, an active request and a driver that takes the request to connect; CONNECTING_SOCKET for a
  -- radio that is CONNECTED; CONNECT_MQTT for a CONNECT that the serializer makes and the driver takes;
  -- AWAIT_CONNACK for GOT_CONNACK; and all of them for a radio that has a socket.
  pub polls_in_session :
      (n : ℕ) (c : Client W)
      → all_keep n c ≡ true
      → to_session c.mqtt.state ≤ finds n c
      → in_session (after_polls n c).mqtt.state ≡ true
  polls_in_session n c h enough = to_session-in_session _ (omega (arith, polls-to_session n c h))
