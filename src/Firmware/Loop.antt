-- ===== src/Firmware/Loop.antt =====
-- main.cpp: `main`, its start and its loop.
use xbee_mqtt.Base.{
  ℕ, zero, suc, true, List, [], ◌∷◌, if◌then◌else◌, ltb, ◌==◌, elapsed, Prog, ◌>>=◌, ◌>>◌, pure,
  get,
}
use xbee_mqtt.Platform.{Platform}
use xbee_mqtt.Radio.Types.{call}
use xbee_mqtt.Mqtt.Library.{PacketLibrary}
use xbee_mqtt.Mqtt.Types.{Client, radio}
use xbee_mqtt.Mqtt.Client.{new_client, begin, publish, get_radio_baud}
use xbee_mqtt.Mqtt.Poll.{poll}
use xbee_mqtt.Firmware.Board.{on_world, Board, settings, set_up_board, set_up_serial}
use xbee_mqtt.Firmware.Epoch.{TimeLibrary, compile_epoch}
use xbee_mqtt.Firmware.Report.{ReportLibrary, Report, new_report, add_report, number_of_reports}

-- The topic with its NUL: `sizeof topic` is 34.
abbrev pub topic : List ℕ
topic =
    b'd' ∷ b'e' ∷ b'v' ∷ b'i' ∷ b'c' ∷ b'e' ∷ b's' ∷ b'/' ∷ b't' ∷ b'o' ∷ b'n' ∷ b'i' ∷ b't' ∷ b'r'
    ∷ b'u' ∷ b's' ∷ b'/' ∷ b'm' ∷ b'e' ∷ b's' ∷ b's' ∷ b'a' ∷ b'g' ∷ b'e' ∷ b's' ∷ b'/' ∷ b'e'
    ∷ b'v' ∷ b'e' ∷ b'n' ∷ b't' ∷ b's' ∷ b'/' ∷ 0 ∷ []

abbrev pub sizeof_topic : ℕ
sizeof_topic = 34

-- The device: its MQTT client and the variables of `main`.
pub record Device (W Float : Type 0) : Type 0 where
  pub client : Client W
  pub report : Report Float

module _ {W Float : Type 0} where
  abbrev pub mqtt : {A : Type 0} → Prog (Client W) A → Prog (Device W Float) A
  mqtt f d = let (a, client) = f d.client in (a, record d { client = client })

  abbrev pub on_report : (Report Float → Report Float) → Prog (Device W Float) (Unit {0})
  on_report f d = (tt, record d { report = f d.report })

module _ {W : Type 0} (P : Platform W) (L : PacketLibrary) (R : ReportLibrary) where
  -- The first `if` of the loop.
  unfoldable pub take_report : Prog (Device W R.Float) (Unit {0})
  take_report = do
    now ← mqtt (radio (call P.millis))
    start ← get (λ d. d.report.delay_start)
    if ltb 10000 (elapsed now start)
        then (do later ← mqtt (radio (call P.millis)); on_report (add_report R later))
        else pure tt

  -- The second `if`.
  unfoldable pub publish_reports : Prog (Device W R.Float) (Unit {0})
  publish_reports = do
    r ← get (λ d. d.report)
    if number_of_reports == r.cnt
        then (do
          on_report (λ r. record r { cnt = 0; report_index = 1 })
          _ ← mqtt (publish P topic sizeof_topic r.cnt_s r.report_index 1 true)
          pure tt)
        else pure tt

  -- One round of the loop.
  unfoldable pub iterate : Prog (Device W R.Float) (Unit {0})
  unfolding take_report publish_reports
  iterate = do take_report; publish_reports; _ ← mqtt (poll P L); pure tt

  -- The first n rounds of the endless loop.
  unfoldable pub rounds : ℕ → Device W R.Float → Device W R.Float
  unfolding iterate
  rounds zero d = d
  rounds (suc n) d = rounds n (iterate d).1

  -- `main` up to `begin`; `raw` is what memory held for `mqtt`.
  unfoldable pub configure : Board W → Client W → Client W
  unfolding set_up_board set_up_serial new_client get_radio_baud
  configure B raw =
      let c = new_client P settings (on_world (set_up_board B) raw) in
      on_world (set_up_serial B (get_radio_baud c)) c

  -- `main` up to its loop, with the text of the compile time: what `begin` returns is not looked at.
  unfoldable pub start : Board W → TimeLibrary → List ℕ → Client W → Device W R.Float
  unfolding configure begin new_report compile_epoch
  start B T compile_time raw =
      let (_, c) = begin P (configure B raw) in
      let (now, c') = radio (call P.millis) c in
      record { client = c'; report = new_report R (compile_epoch T compile_time) now }
