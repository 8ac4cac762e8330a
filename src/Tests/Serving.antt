-- ===== src/Tests/Serving.antt =====
-- The firmware from power-up to a session, on a scripted platform.
use xbee_mqtt.Base.{
  ℤ, ◌+◌, ◌≤◌, ◌≡◌, refl, true, List, [], ◌∷◌, arith, pos, elapsed, int16, to_size, overwrite,
  strncpy_bytes, memcmp_eq,
}
use xbee_mqtt.Platform.{Platform, Event, notified, received, at_response}
use xbee_mqtt.Notify
use xbee_mqtt.Notify.{callback, count_up}
use xbee_mqtt.Notify.Codes.FrameType
use xbee_mqtt.Notify.Codes.SockMesg
use xbee_mqtt.Notify.Codes.StateMesg
use xbee_mqtt.Notify.Receive.{receive_callback, write, read}
use xbee_mqtt.Radio.Types.{RadioState, cast_guard_value}
use xbee_mqtt.Radio.Timers.{
  start_command_mode_guard, poll_command_mode_guard, poll_socket_cooldown, reset_socket,
}
use xbee_mqtt.Radio.Commands.{
  dev_tick, deliver_all, deliver, read_apn_callback, verify_access_point_name, send_escape_sequence,
  send_api_mode, send_command_mode_exit, poll_response_ok, start_init_api, poll_init_status,
  send_read_apn, poll_apn_status, send_set_apn, send_write_changes,
}
use xbee_mqtt.Radio.Startup
use xbee_mqtt.Radio.Startup.{poll_startup, startup_step}
use xbee_mqtt.Radio.Socket
use xbee_mqtt.Radio.Message.{send_message, send_status, get_received_message}
use xbee_mqtt.Radio.Phases.{online}
use xbee_mqtt.Radio.Ready.{advances}
use xbee_mqtt.Mqtt.Client.{new_client, begin, publish}
use xbee_mqtt.Mqtt.Types.{MqttState, Client, get_next}
use xbee_mqtt.Mqtt.Incoming.{
  poll_connack_status, check_timeout, dispatch_incomming, dispatch_read, dispatch, poll_incomming,
  read_packet, check_connack, set_fetch_data, fetch_callback, copy_loop, reset_keep_alive_timer,
}
use xbee_mqtt.Mqtt.Outgoing.{send_connect_request, after_connect, connect_status}
use xbee_mqtt.Mqtt.Poll
use xbee_mqtt.Mqtt.Poll.{
  client_step, try_connect, await_socket, after_connect_request, after_connack_status,
}
use xbee_mqtt.Mqtt.Keeping.{in_session}
use xbee_mqtt.Mqtt.Connecting.{away}
use xbee_mqtt.Firmware.Loop.{
  Device, rounds, start, configure, iterate, take_report, publish_reports,
}
use xbee_mqtt.Firmware.Report.{add_report, new_report}
use xbee_mqtt.Firmware.Serving.{rounds_hold_on, rounds_progress, rounds-in_session}
use xbee_mqtt.Tests.Reports.{reports}
use xbee_mqtt.Tests.Bench.{Bench, bench, library, sys_in, client_in}
use xbee_mqtt.Tests.Firmware.{board, times, compile_time}

-- Each reading of the clock is 11 s after the last, so every round takes a report.
abbrev hasty : Platform Bench
hasty = record bench { millis = λ w. (w.clock, record w { clock = w.clock + 11000 }) }

-- What the ticks of the driver bring: the access point name, the socket, the answer to the connect
-- request, the report of the connection, and the CONNACK.
abbrev script : List (List Event)
script =
    []
    ∷ (at_response cast_guard_value (b'x' ∷ []) ∷ [])
    ∷ []
    ∷ (notified (pos 7) FrameType.sock_create_resp SockMesg.success ∷ [])
    ∷ []
    ∷ (notified (pos 7) FrameType.sock_connect_resp SockMesg.success ∷ [])
    ∷ (notified (pos 7) FrameType.sock_state StateMesg.connected ∷ [])
    ∷ []
    ∷ (received (pos 7) 0 (32 ∷ 2 ∷ 0 ∷ 0 ∷ []) ∷ [])
    ∷ []

abbrev memory : Client Bench
memory = client_in MqttState.init (sys_in RadioState.max_state 0 script)

-- After the first round.
abbrev begun : Device Bench ℤ
begun = rounds hasty library reports 1 (start hasty library reports board times compile_time memory)

all_progress :
    (rounds_hold_on hasty library reports 20 begun ≡ true)
    × (away begun.client ≤ rounds_progress hasty library reports 20 begun)
unfolding rounds rounds_hold_on rounds_progress advances start configure begin Startup.begin iterate
    take_report publish_reports add_report new_report new_client publish get_next elapsed Poll.poll
    client_step try_connect await_socket after_connect_request after_connack_status Socket.poll
    Socket.poll_socket Socket.socket_step Socket.socket_created Socket.send_socket_create
    Socket.connect Socket.connect_accepted Socket.connection_made poll_startup startup_step
    start_command_mode_guard poll_command_mode_guard poll_socket_cooldown reset_socket
    send_escape_sequence send_api_mode send_command_mode_exit poll_response_ok start_init_api
    poll_init_status send_read_apn poll_apn_status send_set_apn send_write_changes dev_tick
    deliver_all deliver read_apn_callback verify_access_point_name memcmp_eq strncpy_bytes overwrite
    receive_callback write read callback count_up Notify.reset send_connect_request after_connect
    connect_status send_message send_status poll_connack_status check_timeout dispatch_incomming
    dispatch_read dispatch poll_incomming read_packet get_received_message check_connack
    set_fetch_data fetch_callback copy_loop reset_keep_alive_timer to_size int16
all_progress = (refl, omega arith)

rounds-in_session_example :
    let c = (rounds hasty library reports 20 begun).client in
    (in_session c.mqtt.state ≡ true) × (online c.sys.radio.m_state ≡ true)
unfolding begin Startup.begin
rounds-in_session_example =
    rounds-in_session hasty library reports 1 20 board times compile_time memory refl all_progress.0
      all_progress.1
