-- ===== src/Tests/Boot.antt =====
-- The start of the firmware on a scripted platform.
use xbee_mqtt.Base.{length, ◌+◌, ◌*◌, ◌≤◌, ◌≡◌, ◌⊎◌, false, true, refl, [], ◌∷◌, arith}
use xbee_mqtt.Platform.{at_response}
use xbee_mqtt.Radio.Types.{RadioState, cast_guard_value}
use xbee_mqtt.Mqtt.Types.{MqttState, Client}
use xbee_mqtt.Firmware.Loop.{rounds, start, configure}
use xbee_mqtt.Firmware.Bounds.{Within, rounds-Within}
use xbee_mqtt.Firmware.Publishing.{Publication, messages, rounds-Publication, Holds, rounds-Holds}
use xbee_mqtt.Mqtt.Session.{fits}
use xbee_mqtt.Mqtt.Client.{begin}
use xbee_mqtt.Tests.Bench.{Bench, clocked, library, sys_in, client_in}
use xbee_mqtt.Tests.Reports.{reports, narrow}
use xbee_mqtt.Tests.Firmware.{board, times, compile_time}

-- What memory holds when the device is switched on; the second tick brings the access point name.
abbrev memory : Client Bench
memory =
    client_in MqttState.init
      (sys_in RadioState.max_state 0 ([] ∷ (at_response cast_guard_value (b'x' ∷ []) ∷ []) ∷ []))

rounds-Within_example :
    let d =
      rounds clocked library reports 20
        (start clocked library reports board times compile_time memory) in
    Within d.client × (length d.report.cnt_s ≡ 900) × (d.report.report_index + 150 ≤ 900)
rounds-Within_example =
    rounds-Within clocked library reports 20 board times compile_time memory (narrow _)
      (record { payload = refl; payload_len = omega arith; name = refl })
      (record { topic = refl; message = refl })

rounds-Publication_example :
    let s = start clocked library reports board times compile_time memory in
    let d = rounds clocked library reports 20 s in
    Publication clocked library reports d.report.epoch (6 * messages clocked library reports 20 s) d
rounds-Publication_example =
    rounds-Publication clocked library reports 20 board times compile_time memory (narrow _)
      (record { payload = refl; payload_len = omega arith; name = refl })
      (record { topic = refl; message = refl })

rounds-Holds_example :
    let s = start clocked library reports board times compile_time memory in
    let d = rounds clocked library reports 20 s in
    Holds clocked library reports d.report (6 * messages clocked library reports 20 s)
    × ((begin clocked (configure clocked library reports board memory)).0 ≡ false
        ⊎ (fits d.client.mqtt.state d.client.sys.radio ≡ true))
rounds-Holds_example =
    rounds-Holds clocked library reports 20 board times compile_time memory (narrow _)
      (record { payload = refl; payload_len = omega arith; name = refl })
      (record { topic = refl; message = refl })
