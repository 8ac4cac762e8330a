-- ===== src/Mqtt/Sends.antt =====
-- How often a queued request is sent.
use xbee_mqtt.Base.{
  ℕ, zero, suc, ◌+◌, ◌≤◌, ◌≡◌, refl, ap, ◌∙◌, Bool, true, false, ◌&&◌, not, if◌then◌else◌, arith,
}
use xbee_mqtt.Platform.{Platform}
use xbee_mqtt.Radio.Types.{RadioState, lt_state}
use xbee_mqtt.Radio.Socket
use xbee_mqtt.Mqtt.Library.{PacketLibrary}
use xbee_mqtt.Mqtt.Types.{MqttReturn, MqttState, Mqtt, Client, radio}
use xbee_mqtt.Mqtt.Incoming.{dispatch_incomming}
use xbee_mqtt.Mqtt.Outgoing.{send_publish_request}
use xbee_mqtt.Mqtt.Publish.{after_publish, send_request, handle_publish_requests}
use xbee_mqtt.Mqtt.Poll.{drop_connection, standby, client_step, poll}
use xbee_mqtt.Mqtt.Client.{publish}
use xbee_mqtt.Mqtt.Graph.{poll_served}
use xbee_mqtt.Mqtt.Requests.{Message, publish_message}
use xbee_mqtt.Mqtt.Keeping.{in_session, dispatch_incomming-Keeps, send_publish_request-mqtt}
use xbee_mqtt.Mqtt.Retries.{sends_left, sent_between, poll-Spends}

module _ {W : Type 0} (P : Platform W) where
  -- Whether a poll of the client reaches the call of `sendPublishRequest`: `radio.poll()` does not
  -- drop the connection, the client is in a session, and the request is active and ready.
  abbrev pub hands_over : Client W → Bool
  hands_over c =
      not (lt_state (Socket.poll P c.sys).1.radio.m_state RadioState.socket_ready)
      && (in_session c.mqtt.state && (c.mqtt.request.active && c.mqtt.request.ready_to_send))

module _ {W : Type 0} (P : Platform W) (L : PacketLibrary) where
  after_publish-ready_to_send :
      (r : MqttReturn) (c : Client W)
      → (after_publish P L r c).1.mqtt.request.ready_to_send ≡ c.mqtt.request.ready_to_send
  unfolding after_publish
  after_publish-ready_to_send MqttReturn.publish_sent c = ground arith
  after_publish-ready_to_send _ c = refl

  send_request-ready_to_send :
      (c : Client W) → (send_request P L c).1.mqtt.request.ready_to_send ≡ false
  unfolding send_request
  send_request-ready_to_send c =
      let q = record c.mqtt.request { ready_to_send = false } in
      let d = record c { mqtt = record c.mqtt { request = q } } in
      let (r, e) = send_publish_request P L q d in
      after_publish-ready_to_send r e
      ∙ ap (λ (m : Mqtt). m.request.ready_to_send) (send_publish_request-mqtt P L q d)

  standby-ready_to_send :
      (c : Client W)
      → c.mqtt.request.active ≡ true
      → c.mqtt.request.ready_to_send ≡ true
      → (standby P L c).1.mqtt.request.ready_to_send ≡ false
  unfolding standby drop_connection handle_publish_requests
  standby-ready_to_send c a b =
      let d = (dispatch_incomming P L c).1 in
      ground (arith, dispatch_incomming-Keeps P L c, send_request-ready_to_send d)

  client_step-ready_to_send :
      (t : MqttState) (u : RadioState) (c : Client W)
      → in_session t ≡ true
      → c.mqtt.request.active ≡ true
      → c.mqtt.request.ready_to_send ≡ true
      → (client_step P L t u c).1.mqtt.request.ready_to_send ≡ false
  unfolding client_step
  client_step-ready_to_send MqttState.begin_standby u c s a b =
      standby-ready_to_send (record c { mqtt = record c.mqtt { state = MqttState.standby } }) a b
  client_step-ready_to_send MqttState.standby u c s a b = standby-ready_to_send c a b
  client_step-ready_to_send _ u c s a b = cc

  -- A poll that hands the request over takes its readiness back.
  hands_over-sent_between :
      (c : Client W)
      → hands_over P c ≡ true
      → sent_between c.mqtt.request (poll P L c).1.mqtt.request ≡ 1
  hands_over-sent_between c h =
      let d = (radio (Socket.poll P) c).1 in
      ground
        (arith, poll_served P L c, client_step-ready_to_send c.mqtt.state d.sys.radio.m_state d)

  pays :
      (c : Client W)
      → c.mqtt.request.tries ≤ 5
      → sends_left (poll P L c).1.mqtt.request + (if hands_over P c then 1 else 0)
        ≤ sends_left c.mqtt.request
  pays c h = ground (arith, (poll-Spends P L c).pays h, hands_over-sent_between c)

  -- For a request that was tried at most five times, one poll keeps topic, message, quality of
  -- service, id and the wish to disconnect, so that what is sent again is the same message; the
  -- request is still tried at most five times; and if the poll hands it over to be sent, that uses up one
  -- of the sends that the request has left.
  pub poll_request :
      (c : Client W)
      → c.mqtt.request.tries ≤ 5
      → let r = c.mqtt.request in
        let r' = (poll P L c).1.mqtt.request in
        (r'.topic ≡ r.topic)
        × (r'.message ≡ r.message)
        × (r'.message_len ≡ r.message_len)
        × (r'.qos ≡ r.qos)
        × (r'.packet_id ≡ r.packet_id)
        × (r'.disconnect ≡ r.disconnect)
        × (r'.tries ≤ 5)
        × (sends_left r' + (if hands_over P c then 1 else 0) ≤ sends_left r)
  poll_request c h =
      let step = poll-Spends P L c in
      (
        step.topic,
        step.message,
        step.message_len,
        step.qos,
        step.packet_id,
        step.disconnect,
        step.bounded h,
        pays c h,
      )

  -- How many of `n` polls send the request.
  unfoldable pub sends : ℕ → Client W → ℕ
  sends zero c = 0
  sends (suc n) c = let d = (poll P L c).1 in (if hands_over P c then 1 else 0) + sends n d

  -- In any number of polls the request is sent at most as often as it has sends left: no later
  -- acknowledgement, timeout or new connection adds to them.
  pub sends-le-sends_left :
      (n : ℕ) (c : Client W) → c.mqtt.request.tries ≤ 5 → sends n c ≤ sends_left c.mqtt.request
  unfolding sends
  sends-le-sends_left zero c h = omega arith
  sends-le-sends_left (suc n) c h =
      let step = poll-Spends P L c in
      let rest = sends-le-sends_left n (poll P L c).1 (step.bounded h) in omega (arith, pays c h)

  -- After a `publish`, in any number of polls with no other call between them, the request is handed
  -- to `sendPublishRequest` at most six times, and at most once if it asks to disconnect.
  pub publish-sends :
      (m : Message) (n : ℕ) (c : Client W)
      → sends n (publish_message P m c) ≤ (if m.disconnect then 1 else 6)
  unfolding publish
  publish-sends m n c = ground (arith, sends-le-sends_left n (publish_message P m c) (omega arith))
