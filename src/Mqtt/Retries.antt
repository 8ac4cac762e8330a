-- ===== src/Mqtt/Retries.antt =====
-- What each step of GB4MQTT::poll does to the queued request: it keeps what is to be sent, and
-- counts its sends.
use xbee_mqtt.Base.{
  ℕ, ◌+◌, ◌-◌, ◌≤◌, ◌≡◌, refl, ap, inl, inr, Bool, true, false, ◌&&◌, not, arith, if◌then◌else◌,
  Prog, Bool-cases,
}
use xbee_mqtt.Platform.{Platform}
use xbee_mqtt.Radio.Types.{RadioState, lt_state}
use xbee_mqtt.Radio.Socket
use xbee_mqtt.Mqtt.Library.{PacketLibrary}
use xbee_mqtt.Mqtt.Types.{MqttReturn, MqttState, MqttRequest, Mqtt, Client, radio}
use xbee_mqtt.Mqtt.Incoming.{dispatch_incomming}
use xbee_mqtt.Mqtt.Outgoing.{send_publish_request}
use xbee_mqtt.Mqtt.Publish.{
  after_publish, send_request, send_disconnect, await_puback, handle_publish_requests,
}
use xbee_mqtt.Mqtt.Poll.{drop_connection, standby, client_step, poll}
use xbee_mqtt.Mqtt.Graph.{poll_dropped, poll_served}
use xbee_mqtt.Mqtt.Keeping.{
  Keeps, dispatch_incomming-Keeps, send_publish_request-mqtt, client_step-Keeps,
}

-- How many sends the request still has: the one it is ready for, and one for each retry. A request
-- that disconnects has no retries, another at most five in all.
abbrev pub sends_left : MqttRequest → ℕ
sends_left r =
    if r.active
    then (if r.ready_to_send then 1 else 0) + (if r.disconnect then 0 else 5 - r.tries)
    else 0

-- `ready_to_send` is taken back exactly where the request is handed to `sendPublishRequest`.
abbrev pub sent_between : MqttRequest → MqttRequest → ℕ
sent_between r r' = if r.ready_to_send && not r'.ready_to_send then 1 else 0

-- What one step may do to the request: it keeps what is to be sent, and pays for each send.
pub record Spends (r r' : MqttRequest) : Type 0 where
  pub topic : r'.topic ≡ r.topic
  pub topic_len : r'.topic_len ≡ r.topic_len
  pub message : r'.message ≡ r.message
  pub message_len : r'.message_len ≡ r.message_len
  pub qos : r'.qos ≡ r.qos
  pub retain : r'.retain ≡ r.retain
  pub packet_id : r'.packet_id ≡ r.packet_id
  pub disconnect : r'.disconnect ≡ r.disconnect
  pub bounded : r.tries ≤ 5 → r'.tries ≤ 5
  pub pays : r.tries ≤ 5 → sends_left r' + sent_between r r' ≤ sends_left r

Keeps-Spends : (r r' : MqttRequest) → Keeps r r' → Spends r r'
Keeps-Spends r r' k = ground arith

Spends-after_Keeps : (r r' r'' : MqttRequest) → Keeps r r' → Spends r' r'' → Spends r r''
Spends-after_Keeps r r' r'' h k = ground arith

if_Spends :
    {W A : Type 0} (b : Bool) (m k : Prog (Client W) A) (r : MqttRequest) (c : Client W)
    → (b ≡ true → Spends r (m c).1.mqtt.request)
    → (b ≡ false → Spends r (k c).1.mqtt.request)
    → Spends r ((if b then m else k) c).1.mqtt.request
if_Spends true m k r c h l = h refl
if_Spends false m k r c h l = l refl

module _ {W : Type 0} (P : Platform W) (L : PacketLibrary) where
  after_publish-Spends :
      (r : MqttReturn) (q : MqttRequest) (c : Client W)
      → q.active ≡ true
      → q.ready_to_send ≡ true
      → c.mqtt.request ≡ record q { ready_to_send = false }
      → Spends q (after_publish P L r c).1.mqtt.request
  unfolding after_publish
  after_publish-Spends MqttReturn.publish_sent q c a b e = ground arith
  after_publish-Spends _ q c a b e = ground arith

  await_puback-Spends :
      (c : Client W)
      → c.mqtt.request.active ≡ true
      → c.mqtt.request.ready_to_send ≡ false
      → Spends c.mqtt.request (await_puback P L c).1.mqtt.request
  unfolding await_puback send_disconnect
  await_puback-Spends c a b = ground arith

  send_request-Spends :
      (c : Client W)
      → c.mqtt.request.active ≡ true
      → c.mqtt.request.ready_to_send ≡ true
      → Spends c.mqtt.request (send_request P L c).1.mqtt.request
  unfolding send_request
  send_request-Spends c a b =
      let q = record c.mqtt.request { ready_to_send = false } in
      let d = record c { mqtt = record c.mqtt { request = q } } in
      let (r, e) = send_publish_request P L q d in
      after_publish-Spends r c.mqtt.request e a b
        (ap (λ (m : Mqtt). m.request) (send_publish_request-mqtt P L q d))

  handle_publish_requests-Spends :
      (c : Client W) → Spends c.mqtt.request (handle_publish_requests P L c).1.mqtt.request
  unfolding handle_publish_requests
  handle_publish_requests-Spends c =
      let r = c.mqtt.request in
      if_Spends r.active _ _ r c
        (λ a. if_Spends r.ready_to_send _ _ r c (send_request-Spends c a) (await_puback-Spends c a))
        (λ a. Keeps-Spends r r refl)

  standby-Spends : (c : Client W) → Spends c.mqtt.request (standby P L c).1.mqtt.request
  unfolding standby drop_connection
  standby-Spends c =
      let d = (dispatch_incomming P L c).1 in
      let (fine, e) = handle_publish_requests P L d in
      let spent =
        Spends-after_Keeps c.mqtt.request d.mqtt.request e.mqtt.request
          (dispatch_incomming-Keeps P L c) (handle_publish_requests-Spends d) in
      if_Spends fine _ _ c.mqtt.request e (λ _. spent) (λ _. spent)

  client_step-Spends :
      (t : MqttState) (u : RadioState) (c : Client W)
      → Spends c.mqtt.request (client_step P L t u c).1.mqtt.request
  unfolding client_step
  client_step-Spends MqttState.begin_standby u c =
      standby-Spends (record c { mqtt = record c.mqtt { state = MqttState.standby } })
  client_step-Spends MqttState.standby u c = standby-Spends c
  client_step-Spends t u c = Keeps-Spends c.mqtt.request _ (client_step-Keeps P L t u c refl)

  pub poll-Spends : (c : Client W) → Spends c.mqtt.request (poll P L c).1.mqtt.request
  poll-Spends c =
      let d = (radio (Socket.poll P) c).1 in
      elim (Bool-cases (lt_state d.sys.radio.m_state RadioState.socket_ready)) [
        | inl early ↦ Keeps-Spends c.mqtt.request _ (ground (arith, poll_dropped P L c early))
        | inr late ↦
            rw (poll_served P L c late).0 (client_step-Spends c.mqtt.state d.sys.radio.m_state d)
      ]
