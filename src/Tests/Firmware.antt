-- ===== src/Tests/Firmware.antt =====
-- The theorems on `main`, applied on the scripted platform.
use xbee_mqtt.Base.{
  ℕ, inr, none, some, take, ℤ, pos, negsuc, ◌+ℤ◌, ◌-ℤ◌, ◌≡◌, ◌++◌, refl, List, [], ◌∷◌, arith,
  replicate, elapsed,
}
use xbee_mqtt.Radio.Types.{RadioState}
use xbee_mqtt.Mqtt.Types.{MqttState, Client}
use xbee_mqtt.Mqtt.Client.{publish}
use xbee_mqtt.Firmware.Epoch.{TimeLibrary, compile_epoch, report_time}
use xbee_mqtt.Firmware.Dating.{search, FindsFirst, report_date}
use xbee_mqtt.Mqtt.Poll.{poll}
use xbee_mqtt.Mqtt.Requests.{IsSized}
use xbee_mqtt.Firmware.Report.{text_of, add_report, report_text}
use xbee_mqtt.Firmware.Fitting.{lat_after, lon_after}
use xbee_mqtt.Tests.Reports.{reports, stamp}
use xbee_mqtt.Firmware.Loop.{Device, take_report, publish_reports, iterate}
use xbee_mqtt.Firmware.Board.{Board}
use xbee_mqtt.Firmware.Batch.{Fills, joined}
use xbee_mqtt.Firmware.Rounds.{Queued, polled, FitsNext, iterate_publishes}
use xbee_mqtt.Firmware.Sending.{iterate_hands_over}
use xbee_mqtt.Mqtt.Handover.{entered, Handed}
use xbee_mqtt.Radio.Socket
use xbee_mqtt.Radio.Commands.{dev_tick}
use xbee_mqtt.Tests.Bench.{Bench, bench, library, sys_in, client_in}

abbrev pub board : Board Bench
board = record {
  init = λ w. w;
  watchdog_disable = λ w. w;
  pin_mode = λ _ _ w. w;
  digital_write = λ _ _ w. w;
  serial_begin = λ _ w. w;
  serial_set_timeout = λ _ w. w;
  led_builtin = 13;
  output = 1;
  low = 0;
}

abbrev client : Client Bench
client = client_in MqttState.standby (sys_in RadioState.connected 20000 [])

-- A `strstr` that searches from the first place on; where it finds nothing it returns a place before
-- the text.
abbrev find_word : List ℕ → List ℕ → ℤ
find_word text word = elim (search 0 text word) [ none ↦ negsuc 0 | some i ↦ pos i ]

-- Compiled on the ninth of May 2023, at 13:05:59; the seconds of `mktime` are left out.
abbrev pub times : TimeLibrary
times = record {
  sscanf = λ text. record {
    word = take 3 text;
    first = pos 9;
    second = pos 2023;
    third = pos 13;
    fourth = pos 5;
    fifth = pos 59;
  };
  strstr = find_word;
  mktime = λ tm. tm.tm_sec;
}

abbrev pub compile_time : List ℕ
compile_time = b'M' ∷ b'a' ∷ b'y' ∷ b' ' ∷ b' ' ∷ b'9' ∷ []

find_word-FindsFirst : FindsFirst find_word
find_word-FindsFirst text word i h = rw (h, find_word) refl

-- 2 ^ 31 ms after the start.
report_date_example : report_time (compile_epoch times compile_time) 2147483648 ≡ negsuc 2147423
unfolding ◌-ℤ◌
report_date_example =
    report_date times compile_time 4 2147483648 find_word-FindsFirst (omega arith) refl

-- Five reports are in the buffer, and the interval is over.
abbrev report_of : ℕ → List ℕ
report_of k = report_text reports (lat_after reports k) (lon_after reports k) stamp k b','

abbrev five : List (List ℕ)
five = report_of 0 ∷ report_of 1 ∷ report_of 2 ∷ report_of 3 ∷ report_of 4 ∷ []

abbrev device : Device Bench ℤ
device = record {
  client = client;
  report = record {
    epoch = pos 0;
    delay_start = 0;
    lat = lat_after reports 5;
    lon = lon_after reports 5;
    cnt_s = b'[' ∷ joined five ++ replicate 239 0;
    report_index = 661;
    cnt = 5;
    objnum = 5;
  };
}

-- The next report, the sixth, has 132 bytes.
device-FitsNext : FitsNext bench library reports device
unfolding report_text ◌+ℤ◌ ◌-ℤ◌
device-FitsNext now = omega arith

device-Fills : Fills device.report five
unfolding report_text ◌+ℤ◌ ◌-ℤ◌
device-Fills = record {
  room = refl;
  count = refl;
  short = (omega arith, (omega arith, (omega arith, (omega arith, (omega arith, tt)))));
  index = refl;
  written = refl;
}

client-IsSized : IsSized client.mqtt.request
client-IsSized = record { topic = refl; message = refl }

iterate_publishes_example :
    let c = polled bench library reports device in
    (now : ℕ) × ((iterate bench library reports device).1.client ≡ (poll bench library c).1)
    × (c.mqtt.state ≡ MqttState.standby)
    × Queued (b'[' ∷ joined (five ++ text_of reports now device.report ∷ [])) c.mqtt.request
    × Fills (iterate bench library reports device).1.report []
unfolding elapsed
iterate_publishes_example =
    iterate_publishes bench library reports device five device-FitsNext device-Fills refl
      client-IsSized (omega arith)

iterate_hands_over_example :
    let c = polled bench library reports device in
    (now : ℕ) × Queued
      (b'[' ∷ joined (five ++ text_of reports now device.report ∷ []))
      c.mqtt.request
    × Handed bench library (entered bench library c) (iterate bench library reports device).1.client
unfolding elapsed take_report publish_reports Socket.poll Socket.socket_step dev_tick add_report
    publish
iterate_hands_over_example =
    iterate_hands_over bench library reports device five device-FitsNext device-Fills refl
      client-IsSized (omega arith) (inr refl) refl refl refl refl
