-- ===== src/Firmware/Sending.antt =====
-- The sixth report, from the buffer of `main` to the driver.
use xbee_mqtt.Base.{
  ℕ, ◌<◌, ◌≡◌, ◌⊎◌, ◌∙◌, inl, inr, ap, sym, subst, true, false, List, [], ◌∷◌, ◌++◌, length,
  elapsed,
}
use xbee_mqtt.Platform.{Platform}
use xbee_mqtt.Notify.Receive.{pending}
use xbee_mqtt.Radio.Types.{RadioState}
use xbee_mqtt.Radio.Socket
use xbee_mqtt.Mqtt.Library.{PacketLibrary}
use xbee_mqtt.Mqtt.Types.{MqttState, Client}
use xbee_mqtt.Mqtt.Poll.{poll}
use xbee_mqtt.Mqtt.Requests.{IsSized}
use xbee_mqtt.Mqtt.Delivery.{serializes}
use xbee_mqtt.Mqtt.Timeouts.{dispatch_incomming-nothing}
use xbee_mqtt.Mqtt.Busy.{IsReady}
use xbee_mqtt.Mqtt.Handover.{entered, Takes, Handed, poll_hands_over}
use xbee_mqtt.Firmware.Report.{ReportLibrary, text_of}
use xbee_mqtt.Firmware.Loop.{Device, iterate}
use xbee_mqtt.Firmware.Batch.{Fills, joined}
use xbee_mqtt.Firmware.Rounds.{Queued, polled, iterate_publishes, FitsNext}

in_session_still :
    {s t : MqttState}
    → s ≡ t
    → (t ≡ MqttState.begin_standby) ⊎ (t ≡ MqttState.standby)
    → (s ≡ MqttState.begin_standby) ⊎ (s ≡ MqttState.standby)
in_session_still e (inl h) = inl (e ∙ h)
in_session_still e (inr h) = inr (e ∙ h)

module _ {W : Type 0} (P : Platform W) (L : PacketLibrary) where
  -- A request that was just queued is handed over by the next poll that receives nothing.
  poll_hands_over-Queued :
      (payload : List ℕ) (c : Client W)
      → (c.mqtt.state ≡ MqttState.begin_standby) ⊎ (c.mqtt.state ≡ MqttState.standby)
      → (Socket.poll P c.sys).1.radio.m_state ≡ RadioState.connected
      → pending (Socket.poll P c.sys).1.receive ≡ false
      → Queued payload c.mqtt.request
      → serializes L c.mqtt.request ≡ true
      → Takes P L (entered P L c)
      → Handed P L (entered P L c) (poll P L c).1
  poll_hands_over-Queued payload c in_session at quiet (_, active, ready, _, _) valid taken =
      let nothing = ap (λ x. x.1) (dispatch_incomming-nothing P L (entered P L c) quiet) in
      let i : IsReady L c.mqtt.request = record { active = active; ready = ready; valid = valid } in
      subst (λ e. Handed P L e (poll P L c).1) nothing
        (poll_hands_over P L c in_session at
          (subst (λ (e : Client W). IsReady L e.mqtt.request) (sym nothing) i)
          (subst (Takes P L) (sym nothing) taken))

module _ {W : Type 0} (P : Platform W) (L : PacketLibrary) (R : ReportLibrary) where
  -- The conditions of a round that publishes, in a session whose radio is CONNECTED after
  -- `radio.poll()` and brings no message, where the serializer makes a packet of the request and the
  -- driver takes it: in this same round the driver is given the packet of a request whose message is a
  -- bracket and the six reports in their order, and the radio is SENDING; the sixth
  -- report must be shorter than 150 bytes, whatever the clock shows.
  pub iterate_hands_over :
      (d : Device W R.Float) (texts : List (List ℕ))
      → let c = polled P L R d in
        FitsNext P L R d
        → Fills d.report texts
        → length texts ≡ 5
        → IsSized d.client.mqtt.request
        → 10000 < elapsed (P.millis d.client.sys.world).0 d.report.delay_start
        → (d.client.mqtt.state ≡ MqttState.begin_standby)
          ⊎ (d.client.mqtt.state ≡ MqttState.standby)
        → (Socket.poll P c.sys).1.radio.m_state ≡ RadioState.connected
        → pending (Socket.poll P c.sys).1.receive ≡ false
        → serializes L c.mqtt.request ≡ true
        → Takes P L (entered P L c)
        → (now : ℕ) × Queued (b'[' ∷ joined (texts ++ text_of R now d.report ∷ [])) c.mqtt.request
          × Handed P L (entered P L c) (iterate P L R d).1.client
  iterate_hands_over d texts short f k sized due in_session at quiet valid taken =
      let c = polled P L R d in
      let (now, same, state, queued, _) = iterate_publishes P L R d texts short f k sized due in
      let handed =
        poll_hands_over-Queued P L _ c (in_session_still state in_session) at quiet queued valid
          taken in
      (now, queued, rw same handed)
