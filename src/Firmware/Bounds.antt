-- ===== src/Firmware/Bounds.antt =====
-- The arrays that client, radio and `main` keep between calls, while no report is cut.
use xbee_mqtt.Base.{
  ℕ, zero, suc, ◌+◌, ◌≤◌, ◌≡◌, inl, inr, List, [], length, arith, ◌==◌, length-overwrite,
  length-strncpy_bytes, strncpy_bytes, ◌-◌, Bool-cases,
}
use xbee_mqtt.Platform.{Platform}
use xbee_mqtt.Radio.Types.{new_radio, gb4xbee_access_point_name_size}
use xbee_mqtt.Radio.Startup
use xbee_mqtt.Radio.Bounds.{Sized}
use xbee_mqtt.Mqtt.Library.{PacketLibrary}
use xbee_mqtt.Mqtt.Types.{Client, topic_max_size, message_max_size}
use xbee_mqtt.Mqtt.Client.{begin, publish, new_client}
use xbee_mqtt.Mqtt.Poll.{poll}
use xbee_mqtt.Mqtt.Requests.{publish_message, IsSized, publish-stores}
use xbee_mqtt.Mqtt.Retries.{poll-Spends}
use xbee_mqtt.Mqtt.Bounds.{client_poll-Sized}
use xbee_mqtt.Firmware.Board.{Board, settings}
use xbee_mqtt.Firmware.Epoch.{TimeLibrary, compile_epoch}
use xbee_mqtt.Firmware.Report.{ReportLibrary, Report, report_size, report_buffer_size}
use xbee_mqtt.Firmware.Loop.{
  Device, take_report, publish_reports, iterate, rounds, configure, start,
}
use xbee_mqtt.Firmware.Fitting.{Narrow, start-AllFit}
use xbee_mqtt.Firmware.Batch.{Fills, length-joined}
use xbee_mqtt.Firmware.Rounds.{
  Tidy, polled, reports_message, take_report_cases, publish_reports_idle, publish_reports_full,
  take_report-Fills, iterate-Tidy, AllFit, FitsNext, iterate-client, start-Fills,
}

-- The client's arrays have their declared sizes, and the lengths kept with them lie within them.
pub record Within {W : Type 0} (c : Client W) : Type 0 where
  pub sized : Sized c.sys
  pub request : IsSized c.mqtt.request
  pub topic_len : c.mqtt.request.topic_len ≤ topic_max_size
  pub message_len : c.mqtt.request.message_len ≤ message_max_size

module _ {W : Type 0} (P : Platform W) (L : PacketLibrary) where
  poll-Within : (c : Client W) → Within c → Within (poll P L c).1
  poll-Within c h =
      let step = poll-Spends P L c in
      record {
        sized = client_poll-Sized P L c h.sized;
        request = record {
          topic = rw step.topic h.request.topic;
          message = rw step.message h.request.message;
        };
        topic_len = rw step.topic_len h.topic_len;
        message_len = rw step.message_len h.message_len;
      }

module _ {W : Type 0} (P : Platform W) (L : PacketLibrary) (R : ReportLibrary) where
  take_report-Within :
      (d : Device W R.Float) → Within d.client → Within (take_report P L R d).1.client
  unfolding take_report
  take_report-Within d h = ground arith

  publish_message-Within :
      (r : Report R.Float) (texts : List (List ℕ)) (c : Client W)
      → Fills r texts
      → length texts ≤ 6
      → Within c
      → Within (publish_message P (reports_message P L R r) c)
  unfolding publish
  publish_message-Within r texts c f few h =
      let bound = length-joined texts f.short in
      let room : r.report_index ≤ message_max_size = omega (arith, f.index, bound) in
      let stored =
        publish-stores P (reports_message P L R r) c h.request (omega arith) room
          (omega (arith, room, f.room)) in
      record {
        sized = ground (arith, h.sized);
        request = stored.0;
        topic_len = omega arith;
        message_len = room;
      }

  publish_reports-Within :
      (d : Device W R.Float) (texts : List (List ℕ))
      → Fills d.report texts
      → length texts ≤ 6
      → Within d.client
      → Within (publish_reports P L R d).1.client
  publish_reports-Within d texts f few h = elim (Bool-cases (6 == d.report.cnt)) [
    | inl full ↦
        rw (publish_reports_full P L R d full)
          (publish_message-Within d.report texts d.client f few h)
    | inr room ↦ rw (publish_reports_idle P L R d room) h
  ]

module _ {W : Type 0} (P : Platform W) (L : PacketLibrary) (R : ReportLibrary) where
  pub iterate-Within :
      (d : Device W R.Float)
      → FitsNext P L R d
      → Tidy P L R d
      → Within d.client
      → Within (iterate P L R d).1.client
  iterate-Within d short (texts, k, f) h =
      let d1 : Device W R.Float = (take_report P L R d).1 in
      let (texts', k', f') =
        take_report-Fills P L R d1.report d texts short k f (take_report_cases P L R d).1 in
      let kept = publish_reports-Within P L R d1 texts' f' k' (take_report-Within P L R d h) in
      rw (iterate-client P L R d) (poll-Within P L (polled P L R d) kept)

  rounds_from-Within :
      (n : ℕ) (d : Device W R.Float)
      → AllFit P L R n d
      → Tidy P L R d
      → Within d.client
      → Tidy P L R (rounds P L R n d) × Within (rounds P L R n d).client
  unfolding rounds AllFit
  rounds_from-Within zero d fit t h = (t, h)
  rounds_from-Within (suc n) d fit t h =
      rounds_from-Within n (iterate P L R d).1 fit.1 (iterate-Tidy P L R d fit.0 t)
        (iterate-Within d fit.0 t h)

  configure-Within :
      (B : Board W) (raw : Client W)
      → Sized raw.sys
      → IsSized raw.mqtt.request
      → Within (configure P L R B raw)
  unfolding configure new_client new_radio
  configure-Within B raw s r =
      let apn = strncpy_bytes (gb4xbee_access_point_name_size - 1) settings.radio_apn in
      record {
        sized = record {
          payload = s.payload;
          payload_len = s.payload_len;
          name = omega (
            arith,
            length-overwrite apn raw.sys.radio.access_point_name,
            length-strncpy_bytes (gb4xbee_access_point_name_size - 1) settings.radio_apn,
            s.name,
          );
        };
        request = record { topic = r.topic; message = r.message };
        topic_len = omega arith;
        message_len = omega arith;
      }

  begin-Within : (c : Client W) → Within c → Within (begin P c).1
  unfolding begin Startup.begin
  begin-Within c h = ground arith

  pub start-Within :
      (B : Board W) (T : TimeLibrary) (compile_time : List ℕ) (raw : Client W)
      → Sized raw.sys
      → IsSized raw.mqtt.request
      → Within (start P L R B T compile_time raw).client
  unfolding start
  start-Within B T compile_time raw s r =
      let begun = begin-Within (configure P L R B raw) (configure-Within B raw s r) in
      record {
        sized = record {
          payload = begun.sized.payload;
          payload_len = begun.sized.payload_len;
          name = begun.sized.name;
        };
        request = begun.request;
        topic_len = begun.topic_len;
        message_len = begun.message_len;
      }

  -- If these arrays have their declared sizes when `main` starts, `strftime` writes 20 characters, and
  -- the floats and the number of each of the first `n` reports take 36 at most: then after `n` rounds of
  -- its loop, whatever the driver delivers and the broker sends, the arrays have their sizes still: the
  -- 300 bytes of the receive buffer, the 32 of the access point name, the 64 of the topic, the 900 of
  -- the message and the 900 of the reports; and the lengths kept with them lie within them, and there
  -- is room for another report behind the index. Local arrays are not among these.
  pub rounds-Within :
      (n : ℕ) (B : Board W) (T : TimeLibrary) (compile_time : List ℕ) (raw : Client W)
      → Narrow R (compile_epoch T compile_time) n
      → Sized raw.sys
      → IsSized raw.mqtt.request
      → let d = rounds P L R n (start P L R B T compile_time raw) in
        Within d.client
        × (length d.report.cnt_s ≡ report_buffer_size)
        × (d.report.report_index + report_size ≤ report_buffer_size)
  rounds-Within n B T compile_time raw narrow s r =
      let d = start P L R B T compile_time raw in
      let ((texts, few, f), within) =
        rounds_from-Within n d (start-AllFit P L R n B T compile_time raw narrow).0
          ([], omega arith, start-Fills P L R B T compile_time raw)
          (start-Within B T compile_time raw s r) in
      (within, f.room, omega (arith, f.index, length-joined texts f.short))
