-- ===== src/Firmware/Coherence.antt =====
-- The loop of `main` and the states of its client and radio.
use xbee_mqtt.Base.{ℕ, zero, suc, ◌≡◌, ◌⊎◌, true, false, List, arith}
use xbee_mqtt.Platform.{Platform}
use xbee_mqtt.Radio.Startup
use xbee_mqtt.Mqtt.Library.{PacketLibrary}
use xbee_mqtt.Mqtt.Types.{Client}
use xbee_mqtt.Mqtt.Client.{begin, publish}
use xbee_mqtt.Mqtt.Session.{is_coherent, poll-coherent}
use xbee_mqtt.Firmware.Board.{Board}
use xbee_mqtt.Firmware.Epoch.{TimeLibrary}
use xbee_mqtt.Firmware.Report.{ReportLibrary}
use xbee_mqtt.Firmware.Loop.{
  Device, take_report, publish_reports, iterate, rounds, configure, start,
}

module _ {W : Type 0} (P : Platform W) (L : PacketLibrary) (R : ReportLibrary) where
  take_report-coherent :
      (d : Device W R.Float)
      → is_coherent d.client ≡ true
      → is_coherent (take_report P L R d).1.client ≡ true
  unfolding take_report
  take_report-coherent d h = ground arith

  publish_reports-coherent :
      (d : Device W R.Float)
      → is_coherent d.client ≡ true
      → is_coherent (publish_reports P L R d).1.client ≡ true
  unfolding publish_reports publish
  publish_reports-coherent d h = ground arith

  iterate-coherent :
      (d : Device W R.Float)
      → is_coherent d.client ≡ true
      → is_coherent (iterate P L R d).1.client ≡ true
  unfolding iterate
  iterate-coherent d h =
      let d1 : Device W R.Float = (take_report P L R d).1 in
      let d2 : Device W R.Float = (publish_reports P L R d1).1 in
      poll-coherent P L d2.client (publish_reports-coherent d1 (take_report-coherent d h))

  pub rounds-coherent :
      (n : ℕ) (d : Device W R.Float)
      → is_coherent d.client ≡ true
      → is_coherent (rounds P L R n d).client ≡ true
  unfolding rounds
  rounds-coherent zero d h = h
  rounds-coherent (suc n) d h = rounds-coherent n (iterate P L R d).1 (iterate-coherent d h)

  -- `main` goes on whether or not `begin` succeeded.
  pub start-coherent :
      (B : Board W) (T : TimeLibrary) (compile_time : List ℕ) (raw : Client W)
      → ((begin P (configure P L R B raw)).0 ≡ false)
        ⊎ (is_coherent (start P L R B T compile_time raw).client ≡ true)
  unfolding start begin Startup.begin configure
  start-coherent B T compile_time raw = ground arith
