-- ===== src/Firmware/Booting.antt =====
-- The startup of the radio within the loop of `main`.
use xbee_mqtt.Base.{
  ℕ, zero, suc, ◌+◌, ◌-◌, ◌≤◌, ◌≡◌, ◌∙◌, ap, inl, inr, true, false, List, arith, if◌then◌else◌,
  Bool-cases,
}
use xbee_mqtt.Platform.{Platform}
use xbee_mqtt.Radio.Types.{RadioState, Radio, lt_state}
use xbee_mqtt.Radio.Startup
use xbee_mqtt.Radio.Socket
use xbee_mqtt.Radio.Phases.{startup_edge}
use xbee_mqtt.Radio.Graph.{poll-⟶}
use xbee_mqtt.Radio.Progress.{to_go, answered, poll-to_go}
use xbee_mqtt.Mqtt.Library.{PacketLibrary}
use xbee_mqtt.Mqtt.Types.{Client}
use xbee_mqtt.Mqtt.Client.{begin, publish}
use xbee_mqtt.Mqtt.Poll
use xbee_mqtt.Mqtt.Graph.{poll_dropped}
use xbee_mqtt.Firmware.Board.{Board}
use xbee_mqtt.Firmware.Epoch.{TimeLibrary}
use xbee_mqtt.Firmware.Report.{ReportLibrary}
use xbee_mqtt.Firmware.Loop.{
  Device, take_report, publish_reports, iterate, rounds, configure, start,
}
use xbee_mqtt.Firmware.Rounds.{polled, iterate-client}

module _ {W : Type 0} (P : Platform W) (L : PacketLibrary) (R : ReportLibrary) where
  -- Whether the radio's startup is over.
  abbrev pub Started : Device W R.Float → Type 0
  Started d = lt_state d.client.sys.radio.m_state RadioState.socket_cooldown_period ≡ false

  -- How many of the next `n` rounds find what the radio waits for.
  unfoldable pub round_answers : ℕ → Device W R.Float → ℕ
  round_answers zero d = 0
  round_answers (suc n) d =
      (if answered P (polled P L R d).sys then 1 else 0) + round_answers n (iterate P L R d).1

  take_report-radio :
      (d : Device W R.Float) → (take_report P L R d).1.client.sys.radio ≡ d.client.sys.radio
  unfolding take_report
  take_report-radio d = ground arith

  publish_reports-radio :
      (d : Device W R.Float) → (publish_reports P L R d).1.client.sys.radio ≡ d.client.sys.radio
  unfolding publish_reports publish
  publish_reports-radio d = ground arith

  pub polled-radio : (d : Device W R.Float) → (polled P L R d).sys.radio ≡ d.client.sys.radio
  polled-radio d = publish_reports-radio (take_report P L R d).1 ∙ take_report-radio d

  -- During the startup a poll of the client is a poll of the radio.
  startup_poll :
      (c : Client W)
      → lt_state c.sys.radio.m_state RadioState.socket_cooldown_period ≡ true
      → (Poll.poll P L c).1.sys ≡ (Socket.poll P c.sys).1
  startup_poll c early =
      let low = startup_edge (poll-⟶ P c.sys) early in (poll_dropped P L c (ground arith)).2

  iterate-to_go :
      (d : Device W R.Float)
      → lt_state d.client.sys.radio.m_state RadioState.socket_cooldown_period ≡ true
      → to_go (iterate P L R d).1.client.sys.radio.m_state
        ≤ to_go d.client.sys.radio.m_state - (if answered P (polled P L R d).sys then 1 else 0)
  iterate-to_go d early =
      let c = polled P L R d in
      let same = ap (λ (r : Radio). r.m_state) (polled-radio d) in
      let step =
        ap (λ (e : Client W). e.sys) (iterate-client P L R d) ∙ startup_poll c (rw same early) in
      omega (arith, poll-to_go P c.sys, ap to_go same, ap (λ s. to_go s.radio.m_state) step)

  rounds-Started :
      (n : ℕ) (d : Device W R.Float)
      → to_go d.client.sys.radio.m_state ≤ round_answers n d
      → (k : ℕ) × (k ≤ n) × Started (rounds P L R k d)
  unfolding rounds round_answers
  rounds-Started zero d enough = (zero, omega arith, ground (arith, enough))
  rounds-Started (suc n) d enough =
      elim (Bool-cases (lt_state d.client.sys.radio.m_state RadioState.socket_cooldown_period)) [
        | inl early ↦
            let (k, less, there) =
              rounds-Started n (iterate P L R d).1 (omega (arith, iterate-to_go d early, enough)) in
            (suc k, omega arith, there)
        | inr late ↦ (zero, omega arith, late)
      ]

  pub start-m_state :
      (B : Board W) (T : TimeLibrary) (compile_time : List ℕ) (raw : Client W)
      → (begin P (configure P L R B raw)).0 ≡ true
      → (start P L R B T compile_time raw).client.sys.radio.m_state ≡ RadioState.start
  unfolding start begin Startup.begin
  start-m_state B T compile_time raw h = ground (arith, h)

  -- From the start of `main`, with a `begin` that succeeds: if in `n` rounds of the loop the radio found
  -- at least 14 times what its state of the startup waits for, then after one of these rounds its startup
  -- is over, however many rounds waited in between, and whatever the reports and the client do.
  pub boots :
      (n : ℕ) (B : Board W) (T : TimeLibrary) (compile_time : List ℕ) (raw : Client W)
      → (begin P (configure P L R B raw)).0 ≡ true
      → 14 ≤ round_answers n (start P L R B T compile_time raw)
      → (k : ℕ) × (k ≤ n) × Started (rounds P L R k (start P L R B T compile_time raw))
  boots n B T compile_time raw begun enough =
      let at = start-m_state B T compile_time raw begun in
      rounds-Started n (start P L R B T compile_time raw) (omega (arith, ap to_go at, enough))
