-- ===== src/Mqtt/Ending.antt =====
-- How long a request stays active: the polls that it takes from `publish` to its end.
use xbee_mqtt.Base.{
  ℕ, zero, suc, ◌+◌, ◌-◌, ◌*◌, ◌≤◌, ◌≡◌, ◌⊎◌, ◌∙◌, refl, ap, inl, inr, Bool, true, false, ◌&&◌,
  ◌||◌, not, arith, ltb, if◌then◌else◌, elapsed, Prog, Bool-cases,
}
use xbee_mqtt.Platform.{Platform}
use xbee_mqtt.Radio.Types.{RadioState, lt_state}
use xbee_mqtt.Radio.Socket
use xbee_mqtt.Mqtt.Library.{PacketLibrary}
use xbee_mqtt.Mqtt.Types.{
  MqttReturn, MqttState, MqttRequest, Mqtt, Client, radio, gb4mqtt_publish_timeout,
}
use xbee_mqtt.Mqtt.Client.{publish}
use xbee_mqtt.Mqtt.Incoming.{dispatch_incomming}
use xbee_mqtt.Mqtt.Outgoing.{send_publish_request}
use xbee_mqtt.Mqtt.Publish.{
  after_publish, send_request, send_disconnect, await_puback, handle_publish_requests,
}
use xbee_mqtt.Mqtt.Poll.{drop_connection, standby, poll}
use xbee_mqtt.Mqtt.Requests.{Message, publish_message}
use xbee_mqtt.Mqtt.Graph.{poll_dropped, poll_served}
use xbee_mqtt.Mqtt.Keeping.{
  in_session, dispatch_incomming-Keeps, send_publish_request-mqtt, client_step-Keeps,
}
use xbee_mqtt.Mqtt.Retries.{poll-Spends}
use xbee_mqtt.Mqtt.Establishing.{after_polls}
use xbee_mqtt.Mqtt.Handover.{entered, poll-standby}

-- How many steps an active request has left: a send if it is ready, two for each retry, and its end.
abbrev pub steps_left : MqttRequest → ℕ
steps_left r =
    if r.active
    then (if r.ready_to_send then 1 else 0) + (if r.disconnect then 1 else 1 + 2 * (5 - r.tries))
    else 0

module _ {W : Type 0} (P : Platform W) (L : PacketLibrary) where
  -- There is something to be done for the request: it is ready, acknowledged, or overdue.
  abbrev pub is_due : Client W → Bool
  is_due c =
      let r = c.mqtt.request in
      r.ready_to_send
      || (r.got_puback
          || not (ltb (elapsed (P.millis c.sys.world).0 r.start_time) gb4mqtt_publish_timeout))

  after_publish-steps_left :
      (r : MqttReturn) (q : MqttRequest) (c : Client W)
      → q.active ≡ true
      → q.ready_to_send ≡ true
      → c.mqtt.request ≡ record q { ready_to_send = false }
      → 1 + steps_left (after_publish P L r c).1.mqtt.request ≤ steps_left q
  unfolding after_publish
  after_publish-steps_left MqttReturn.publish_sent q c a b e = ground arith
  after_publish-steps_left _ q c a b e = ground arith

  send_request-steps_left :
      (c : Client W)
      → c.mqtt.request.active ≡ true
      → c.mqtt.request.ready_to_send ≡ true
      → 1 + steps_left (send_request P L c).1.mqtt.request ≤ steps_left c.mqtt.request
  unfolding send_request
  send_request-steps_left c a b =
      let q = record c.mqtt.request { ready_to_send = false } in
      let d = record c { mqtt = record c.mqtt { request = q } } in
      let (r, e) = send_publish_request P L q d in
      after_publish-steps_left r c.mqtt.request e a b
        (ap (λ (m : Mqtt). m.request) (send_publish_request-mqtt P L q d))

  await_puback-steps_left :
      (c : Client W)
      → c.mqtt.request.active ≡ true
      → c.mqtt.request.ready_to_send ≡ false
      → c.mqtt.request.tries ≤ 5
      → steps_left (await_puback P L c).1.mqtt.request
        ≤ steps_left c.mqtt.request - (if is_due c then 1 else 0)
  unfolding await_puback send_disconnect
  await_puback-steps_left c a b h = ground arith

  if_steps_left :
      {A : Type 0} (b : Bool) (m k : Prog (Client W) A) (n : ℕ) (c : Client W)
      → (b ≡ true → steps_left (m c).1.mqtt.request ≤ n)
      → (b ≡ false → steps_left (k c).1.mqtt.request ≤ n)
      → steps_left ((if b then m else k) c).1.mqtt.request ≤ n
  if_steps_left true m k n c h l = h refl
  if_steps_left false m k n c h l = l refl

  handle_publish_requests-steps_left :
      (c : Client W)
      → c.mqtt.request.tries ≤ 5
      → steps_left (handle_publish_requests P L c).1.mqtt.request
        ≤ steps_left c.mqtt.request - (if is_due c then 1 else 0)
  unfolding handle_publish_requests
  handle_publish_requests-steps_left c h =
      let r = c.mqtt.request in
      let n = steps_left r - (if is_due c then 1 else 0) in
      if_steps_left r.active _ _ n c
        (λ a.
          if_steps_left r.ready_to_send _ _ n c (λ b. ground (arith, send_request-steps_left c a b))
            (λ b. await_puback-steps_left c a b h))
        (λ a. ground arith)

  standby-steps_left :
      (c : Client W)
      → c.mqtt.request.tries ≤ 5
      → steps_left (standby P L c).1.mqtt.request
        ≤ steps_left c.mqtt.request - (if is_due (dispatch_incomming P L c).1 then 1 else 0)
  unfolding standby drop_connection
  standby-steps_left c h =
      let d = (dispatch_incomming P L c).1 in
      let kept = dispatch_incomming-Keeps P L c in
      let same : steps_left d.mqtt.request ≡ steps_left c.mqtt.request = ap steps_left kept in
      let few : d.mqtt.request.tries ≤ 5 = rw kept h in
      let (fine, e) = handle_publish_requests P L d in
      let step = handle_publish_requests-steps_left d few in
      let n = steps_left c.mqtt.request - (if is_due d then 1 else 0) in
      let bound : steps_left e.mqtt.request ≤ n = omega (arith, step, same) in
      if_steps_left fine _ _ n e (λ _. bound) (λ _. bound)

  -- A poll of a session that keeps its socket, with something to be done once the message that it
  -- brings, if any, is dispatched.
  abbrev pub acts : Client W → Bool
  acts c =
      not (lt_state (Socket.poll P c.sys).1.radio.m_state RadioState.socket_ready)
      && (in_session c.mqtt.state && is_due (dispatch_incomming P L (entered P L c)).1)

  in_session-cases :
      (t : MqttState)
      → in_session t ≡ true
      → (t ≡ MqttState.begin_standby) ⊎ (t ≡ MqttState.standby)
  in_session-cases MqttState.not_connected h = cc
  in_session-cases MqttState.begin_standby h = inl refl
  in_session-cases MqttState.standby h = inr refl
  in_session-cases _ h = cc

  served-steps_left :
      (c : Client W)
      → c.mqtt.request.tries ≤ 5
      → lt_state (Socket.poll P c.sys).1.radio.m_state RadioState.socket_ready ≡ false
      → steps_left (poll P L c).1.mqtt.request
        ≤ steps_left c.mqtt.request - (if acts c then 1 else 0)
  served-steps_left c h late = elim (Bool-cases (in_session c.mqtt.state)) [
    | inl there ↦
        let step = standby-steps_left (entered P L c) h in
        let same =
          ap (λ (e : Client W). steps_left e.mqtt.request)
            (poll-standby P L c (in_session-cases c.mqtt.state there) late) in
        rw (late, there) (omega (arith, same, step))
    | inr outside ↦
        let d = (radio (Socket.poll P) c).1 in
        let kept = client_step-Keeps P L c.mqtt.state d.sys.radio.m_state d outside in
        let same =
          ap (λ (e : Client W). steps_left e.mqtt.request) (poll_served P L c late).0
          ∙ ap steps_left kept in
        rw (late, outside) (omega (arith, same))
  ]

  poll-steps_left :
      (c : Client W)
      → c.mqtt.request.tries ≤ 5
      → steps_left (poll P L c).1.mqtt.request
        ≤ steps_left c.mqtt.request - (if acts c then 1 else 0)
  poll-steps_left c h =
      elim (Bool-cases (lt_state (Socket.poll P c.sys).1.radio.m_state RadioState.socket_ready)) [
        | inl early ↦
            let same = ap (λ (m : Mqtt). steps_left m.request) (poll_dropped P L c early).1 in
            rw early (omega (arith, same))
        | inr late ↦ served-steps_left c h late
      ]

  -- How many of the next `n` polls do something for the request.
  unfoldable pub actions : ℕ → Client W → ℕ
  actions zero c = 0
  actions (suc n) c = (if acts c then 1 else 0) + actions n (poll P L c).1

  polls-steps_left :
      (n : ℕ) (c : Client W)
      → c.mqtt.request.tries ≤ 5
      → steps_left (after_polls P L n c).mqtt.request ≤ steps_left c.mqtt.request - actions n c
  unfolding after_polls actions
  polls-steps_left zero c h = omega arith
  polls-steps_left (suc n) c h = omega (
    arith,
    poll-steps_left c h,
    polls-steps_left n (poll P L c).1 ((poll-Spends P L c).bounded h),
  )

  ended : (r : MqttRequest) → steps_left r ≤ 0 → r.active ≡ false
  ended r h = ground arith

  -- A published request ends: after `n` polls of which twelve find something to be done for it in a
  -- session (that it is ready to be sent, that it is acknowledged, or that 10000 ms have passed since
  -- its start time), it is not active any more, whatever the driver and the broker do and however many
  -- polls waited in between or found no session. If it asks to disconnect, two such polls suffice.
  pub publish_ends :
      (m : Message) (n : ℕ) (c : Client W)
      → (if m.disconnect then 2 else 12) ≤ actions n (publish_message P m c)
      → (after_polls P L n (publish_message P m c)).mqtt.request.active ≡ false
  unfolding publish
  publish_ends m n c enough =
      let d = publish_message P m c in
      ended (after_polls P L n d).mqtt.request
        (ground (arith, polls-steps_left n d (omega arith), enough))
