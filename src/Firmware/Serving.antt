-- ===== src/Firmware/Serving.antt =====
-- The loop of `main` from power-up to a session with the broker.
use xbee_mqtt.Base.{ℕ, zero, suc, ◌+◌, ◌-◌, ◌≤◌, ◌≡◌, ap, arith, inl, inr, Bool, true, ◌&&◌, List}
use xbee_mqtt.Platform.{Platform}
use xbee_mqtt.Radio.Types.{Radio}
use xbee_mqtt.Radio.Phases.{online}
use xbee_mqtt.Radio.Ready.{to_ready}
use xbee_mqtt.Mqtt.Library.{PacketLibrary}
use xbee_mqtt.Mqtt.Types.{MqttState, Client}
use xbee_mqtt.Mqtt.Client.{begin, publish}
use xbee_mqtt.Mqtt.Keeping.{in_session}
use xbee_mqtt.Mqtt.Session.{fits, is_coherent}
use xbee_mqtt.Mqtt.Establishing.{to_session, and_true, to_session-in_session}
use xbee_mqtt.Mqtt.Connecting.{away, holds_on, progress, poll-away}
use xbee_mqtt.Firmware.Board.{Board}
use xbee_mqtt.Firmware.Epoch.{TimeLibrary}
use xbee_mqtt.Firmware.Report.{ReportLibrary}
use xbee_mqtt.Firmware.Loop.{
  Device, take_report, publish_reports, iterate, rounds, configure, start,
}
use xbee_mqtt.Firmware.Coherence.{rounds-coherent, start-coherent}
use xbee_mqtt.Firmware.Rounds.{polled, iterate-client}
use xbee_mqtt.Firmware.Booting.{polled-radio}

session_online :
    (t : MqttState) (r : Radio) → in_session t ≡ true → fits t r ≡ true → online r.m_state ≡ true
session_online MqttState.not_connected r h k = cc
session_online _ r h k = ground arith

module _ {W : Type 0} (P : Platform W) (L : PacketLibrary) (R : ReportLibrary) where
  -- Whether the polls of the next `n` rounds all hold on to what is reached, and how often the radio or
  -- the client finds in them what it waits for.
  unfoldable pub rounds_hold_on : ℕ → Device W R.Float → Bool
  rounds_hold_on zero d = true
  rounds_hold_on (suc n) d = holds_on P L (polled P L R d) && rounds_hold_on n (iterate P L R d).1

  unfoldable pub rounds_progress : ℕ → Device W R.Float → ℕ
  rounds_progress zero d = 0
  rounds_progress (suc n) d = progress P L (polled P L R d) + rounds_progress n (iterate P L R d).1

  polled-state : (d : Device W R.Float) → (polled P L R d).mqtt.state ≡ d.client.mqtt.state
  unfolding publish_reports take_report publish
  polled-state d = ground arith

  -- Taking a report and publishing change nothing of the way to a session.
  polled-away : (d : Device W R.Float) → away (polled P L R d) ≡ away d.client
  polled-away d =
      let radio = ap (λ (r : Radio). to_ready r.m_state) (polled-radio P L R d) in
      let client = ap to_session (polled-state d) in omega (arith, radio, client)

  iterate-away :
      (d : Device W R.Float)
      → holds_on P L (polled P L R d) ≡ true
      → away (iterate P L R d).1.client ≤ away d.client - progress P L (polled P L R d)
  iterate-away d h =
      let step = poll-away P L (polled P L R d) h in
      let same = ap (λ (c : Client W). away c) (iterate-client P L R d) in
      omega (arith, step, same, polled-away d)

  rounds-away :
      (n : ℕ) (d : Device W R.Float)
      → rounds_hold_on n d ≡ true
      → away (rounds P L R n d).client ≤ away d.client - rounds_progress n d
  unfolding rounds rounds_hold_on rounds_progress
  rounds-away zero d h = omega arith
  rounds-away (suc n) d h =
      let (first, later) = and_true (holds_on P L (polled P L R d)) _ h in
      omega (arith, iterate-away d first, rounds-away n (iterate P L R d).1 later)

  begun-coherent :
      (B : Board W) (T : TimeLibrary) (compile_time : List ℕ) (raw : Client W)
      → (begin P (configure P L R B raw)).0 ≡ true
      → is_coherent (start P L R B T compile_time raw).client ≡ true
  begun-coherent B T compile_time raw begun = elim (start-coherent P L R B T compile_time raw) [
    | inl failed ↦ cc
    | inr fitting ↦ fitting
  ]

  -- From the start of `main`, with a `begin` that succeeds, and after any `m` rounds of its loop, whatever
  -- failed or was lost in them: if none of the next `n` rounds gives up what is reached, and the radio on
  -- its way to a socket and the client on its way to a session find in them what they wait for as often
  -- as there are states on these ways (16 and 4 from START, 3 and 4 in the cooldown with no connection),
  -- then after these rounds the client is in a session and the radio CONNECTED or SENDING, however many
  -- rounds waited in between and whatever is reported meanwhile.
  pub rounds-in_session :
      (m n : ℕ) (B : Board W) (T : TimeLibrary) (compile_time : List ℕ) (raw : Client W)
      → (begin P (configure P L R B raw)).0 ≡ true
      → rounds_hold_on n (rounds P L R m (start P L R B T compile_time raw)) ≡ true
      → away (rounds P L R m (start P L R B T compile_time raw)).client
        ≤ rounds_progress n (rounds P L R m (start P L R B T compile_time raw))
      → let c = (rounds P L R n (rounds P L R m (start P L R B T compile_time raw))).client in
        (in_session c.mqtt.state ≡ true) × (online c.sys.radio.m_state ≡ true)
  rounds-in_session m n B T compile_time raw begun held enough =
      let s = start P L R B T compile_time raw in
      let d = rounds P L R m s in
      let there = to_session-in_session P L _ (omega (arith, rounds-away n d held, enough)) in
      let fitting = rounds-coherent P L R m s (begun-coherent B T compile_time raw begun) in
      (there, session_online _ _ there (rounds-coherent P L R n d fitting))
