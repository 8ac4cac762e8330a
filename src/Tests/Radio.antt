-- ===== src/Tests/Radio.antt =====
-- The theorems on the radio and its notifications, applied.
use xbee_mqtt.Base.{
  ◌+◌, ◌≡◌, ◌≢◌, ◌↔◌, refl, true, false, List, [], ◌∷◌, arith, take, pos, inl, ℤ, if◌then◌else◌,
  memcmp_eq, overwrite,
}
use xbee_mqtt.Platform.{notified}
use xbee_mqtt.Notify.Codes.FrameType
use xbee_mqtt.Notify.Codes.SockMesg
use xbee_mqtt.Notify.Codes.StateMesg
use xbee_mqtt.Notify.Receive.{read, write, new_receive, pending}
use xbee_mqtt.Notify.Laws.{read-write, accounted, Use, writes, reads, apply_all, delivered, waiting}
use xbee_mqtt.Radio.Types.{RadioState, RadioReturn, Sys}
use xbee_mqtt.Radio.Commands.{dev_tick, verify_access_point_name}
use xbee_mqtt.Radio.Socket.{poll, socket_step, connection_made}
use xbee_mqtt.Radio.Message.{send_message}
use xbee_mqtt.Radio.Graph.{◌⟶◌, poll-⟶}
use xbee_mqtt.Radio.Sending.{after_sock_send, send_message_lem}
use xbee_mqtt.Radio.Evidence.{poll_connects}
use xbee_mqtt.Radio.Bursts.{poll_last}
use xbee_mqtt.Radio.Waiting.{poll_quiet}
use xbee_mqtt.Radio.AccessPoint.{verify-prefix, read_apn_failure, polls}
use xbee_mqtt.Radio.Progress.{poll_progress}
use xbee_mqtt.Tests.Bench.{
  Bench, bench, clocked, mute_bench, apn, radio_in, nothing_received, sys_in,
}

abbrev ready : Sys Bench
ready = sys_in RadioState.connected 500 []

poll-⟶_example : RadioState.connected ⟶ (poll bench ready).1.radio.m_state
poll-⟶_example = poll-⟶ bench ready

send_message_lem_example :
    let (result, s') = send_message bench (1 ∷ []) 1 ready in
    ((result ≡ RadioReturn.message_sent)
      ↔ ((ready.radio.m_state ≡ RadioState.connected) × (◌≡◌ {A = ℤ} (pos 0) (pos 0))))
    × (s' ≡ after_sock_send bench (1 ∷ []) 1 ready)
send_message_lem_example = send_message_lem bench (1 ∷ []) 1 ready

-- Socket State reports CONNECTED in the tick of this poll.
abbrev joining : Sys Bench
joining =
    sys_in RadioState.await_connection 500
      ((notified (pos 7) FrameType.sock_state StateMesg.connected ∷ []) ∷ [])

joins : (poll bench joining).1.radio.m_state ≡ RadioState.connected
unfolding poll socket_step dev_tick connection_made
joins = refl

poll_connects_example :
    let seen = (dev_tick bench joining).1 in
    (joining.radio.m_state ≡ RadioState.await_connection)
    × (seen.notify.m_count ≢ seen.radio.notify_count)
    × (connection_made seen.notify ≡ true)
poll_connects_example = poll_connects bench joining refl (rw joins)

-- Both answers arrive in one tick.
abbrev hurried : Sys Bench
hurried = sys_in RadioState.await_connect_response 500 (
    (notified (pos 7) FrameType.sock_connect_resp SockMesg.success
      ∷ notified (pos 7) FrameType.sock_state StateMesg.connected
      ∷ [])
    ∷ [])

poll_last_example : (poll bench hurried).1.radio.m_state ≡ RadioState.socket_cooldown_period
poll_last_example =
    poll_last bench hurried (notified (pos 7) FrameType.sock_connect_resp SockMesg.success ∷ []) []
      (pos 7) FrameType.sock_state StateMesg.connected refl refl (omega arith) (omega arith) refl
      refl refl

-- The clock has wrapped since the cooldown began: 2 ^ 32 - 1000 to 1001 is 2001 milliseconds.
abbrev cooling : Sys Bench
cooling =
    let s = sys_in RadioState.socket_cooldown_period 1001 [] in
    record s { radio = record s.radio { socket_cooldown_start_time = 4294966296 } }

poll_quiet_example : (poll bench cooling).1.radio.m_state ≡ RadioState.begin_create_socket
poll_quiet_example =
    poll_quiet bench cooling 4294966296 2001 refl (inl refl) refl refl (omega arith)

verify-prefix_example :
    let (same, r') = verify_access_point_name (b'e' ∷ []) (radio_in RadioState.start) in
    ((same ≡ true) ↔ (take 1 apn ≡ b'e' ∷ []))
    × (r'.got_access_point_name ≡ true)
    × (r'.need_set_access_point_name ≡ (if same then false else true))
verify-prefix_example = verify-prefix (b'e' ∷ []) (radio_in RadioState.start) (omega arith)

read_apn_failure_example :
    (polls mute_bench 100 (sys_in RadioState.begin_read_apn 0 [])).radio.m_state
    ≡ RadioState.await_read_apn_response
read_apn_failure_example =
    read_apn_failure mute_bench 99 (sys_in RadioState.begin_read_apn 0 []) refl refl refl
      (λ _. refl)

read-write_example :
    let ((out, n), r') = read 2 (write (1 ∷ 2 ∷ 3 ∷ []) nothing_received) in
    (n ≡ 2) × (out ≡ take n (1 ∷ 2 ∷ 3 ∷ [])) × (pending r' ≡ false)
read-write_example = read-write (1 ∷ 2 ∷ 3 ∷ []) 2 nothing_received

-- Two messages before a read: the first is dropped.
abbrev uses : List Use
uses = writes (1 ∷ []) ∷ writes (2 ∷ []) ∷ reads 300 ∷ writes (3 ∷ []) ∷ []

accounted_example :
    let r = apply_all uses (new_receive (pos 0)) in
    r.m_count ≡ delivered uses (new_receive (pos 0)) + r.m_dropped_count + waiting r
accounted_example = accounted uses (pos 0) (omega arith)

-- The modem is in command mode and has answered "OK".
abbrev entering : Sys Bench
entering = sys_in RadioState.await_command_mode_response 500 []

poll_progress_example : (poll clocked entering).1.radio.m_state ≡ RadioState.begin_api_mode_command
unfolding memcmp_eq overwrite
poll_progress_example = poll_progress clocked entering refl
