-- ===== src/Radio/Bounds.antt =====
-- The member arrays of GB4XBee and XBeeReceive keep the sizes that they are declared with in a call of
-- poll. The local array `ok_buffer` of pollResponseOK is not among them.
use xbee_mqtt.Base.{
  ℕ, ◌≤◌, ◌≡◌, ltb, if◌then◌else◌, List, [], ◌∷◌, length, take, length-take, length-overwrite,
  arith, inl, inr, Bool-cases,
}
use xbee_mqtt.Platform.{Platform, Event, notified, received, at_response}
use xbee_mqtt.Notify.Receive.{message_payload_size, receive_callback, write}
use xbee_mqtt.Radio.Types.{RadioState, Sys, lt_state, gb4xbee_access_point_name_size}
use xbee_mqtt.Radio.Timers.{
  start_command_mode_guard, poll_command_mode_guard, poll_socket_cooldown, reset_socket,
}
use xbee_mqtt.Radio.Commands.{
  deliver, deliver_all, dev_tick, send_escape_sequence, send_api_mode, send_command_mode_exit,
  poll_response_ok, start_init_api, restart_init_api, poll_init_status, send_read_apn,
  poll_apn_status, send_write_changes, send_set_apn, read_apn_callback, verify_access_point_name,
}
use xbee_mqtt.Radio.Startup.{startup_step, poll_startup}
use xbee_mqtt.Radio.Socket.{send_socket_create, socket_step, poll_socket, poll, connect}
use xbee_mqtt.Radio.Message.{send_message, get_received_message}
use xbee_mqtt.Radio.Frame.{poll_early, poll_late}

module _ {W : Type 0} where
  -- The arrays have their declared sizes, and the received message lies within its array.
  pub record Sized (s : Sys W) : Type 0 where
    pub payload : length s.receive.m_payload ≡ message_payload_size
    pub payload_len : s.receive.m_payload_len ≤ message_payload_size
    pub name : length s.radio.access_point_name ≡ gb4xbee_access_point_name_size

  deliver-Sized : (e : Event) (s : Sys W) → Sized s → Sized (deliver e s)
  unfolding deliver receive_callback write read_apn_callback verify_access_point_name
  deliver-Sized (notified sock type message) s h = ground arith
  deliver-Sized (received sock status bytes) s h =
      let len = length bytes in
      let n = if ltb message_payload_size len then message_payload_size else len in
      let within : n ≤ message_payload_size = ground arith in
      record {
        payload = omega (
          arith,
          h.payload,
          within,
          length-overwrite (take n bytes) s.receive.m_payload,
          length-take n bytes,
        );
        payload_len = within;
        name = h.name;
      }
  deliver-Sized (at_response guard value) s h = ground arith

  deliver_all-Sized : (es : List Event) (s : Sys W) → Sized s → Sized (deliver_all es s)
  unfolding deliver_all
  deliver_all-Sized [] s h = h
  deliver_all-Sized (e ∷ es) s h = deliver_all-Sized es (deliver e s) (deliver-Sized e s h)

module _ {W : Type 0} (P : Platform W) where
  dev_tick-Sized : (s : Sys W) → Sized s → Sized (dev_tick P s).1
  unfolding dev_tick
  dev_tick-Sized s h = deliver_all-Sized (P.dev_tick s.world).0 _ (ground arith)

  startup_step-Sized : (st : RadioState) (s : Sys W) → Sized s → Sized (startup_step P st s).1
  unfolding startup_step start_command_mode_guard poll_command_mode_guard send_escape_sequence
      send_api_mode send_command_mode_exit poll_response_ok start_init_api restart_init_api
      poll_init_status send_read_apn poll_apn_status send_write_changes send_set_apn
  startup_step-Sized RadioState.start s h = ground arith
  startup_step-Sized _ s h = ground (arith, dev_tick-Sized s h)

  socket_step-Sized : (st : RadioState) (s : Sys W) → Sized s → Sized (socket_step P st s).1
  unfolding socket_step reset_socket poll_socket_cooldown send_socket_create
  socket_step-Sized RadioState.start s h = ground arith
  socket_step-Sized _ s h = ground arith

  poll_startup-Sized : (s : Sys W) → Sized s → Sized (poll_startup P s).1
  unfolding poll_startup
  poll_startup-Sized s h = startup_step-Sized s.radio.m_state s h

  poll_socket-Sized : (s : Sys W) → Sized s → Sized (poll_socket P s).1
  unfolding poll_socket
  poll_socket-Sized s h =
      let t = (dev_tick P s).1 in socket_step-Sized t.radio.m_state t (dev_tick-Sized s h)

  -- A poll keeps the sizes of the arrays, whatever the driver delivers.
  pub poll-Sized : (s : Sys W) → Sized s → Sized (poll P s).1
  poll-Sized s h = elim (Bool-cases (lt_state s.radio.m_state RadioState.socket_cooldown_period)) [
    | inl early ↦ rw (poll_early P s early) (poll_startup-Sized s h)
    | inr late ↦ rw (poll_late P s late) (poll_socket-Sized s h)
  ]

  pub connect-Sized :
      (port : ℕ) (address : List ℕ) (s : Sys W) → Sized s → Sized (connect P port address s).1
  unfolding connect
  connect-Sized port address s h = ground arith

  pub reset_socket-Sized : (s : Sys W) → Sized s → Sized (reset_socket P s).1
  unfolding reset_socket
  reset_socket-Sized s h = ground arith

  pub send_message-Sized :
      (message : List ℕ) (len : ℕ) (s : Sys W) → Sized s → Sized (send_message P message len s).1
  unfolding send_message
  send_message-Sized message len s h = ground arith

module _ {W : Type 0} where
  pub get_received_message-Sized :
      (len : ℕ) (s : Sys W) → Sized s → Sized (get_received_message len s).1
  unfolding get_received_message
  get_received_message-Sized len s h = ground arith
