-- ===== src/Radio/Commands.antt =====
-- The commands that GB4XBee sends to the modem while it is configured, the polls of their answers,
-- and what the driver's callbacks do to the radio.
use xbee_mqtt.Base.{
  ℕ, zero, ◌+◌, ◌*◌, ◌^◌, Bool, true, false, List, [], ◌∷◌, length, ltb, ◌==◌, if◌then◌else◌, ℤ,
  pos, negsuc, is_neg, is_zero, elapsed, u32, int16, overwrite, memcmp_eq, Prog, ◌>>=◌, ◌>>◌, pure,
  get,
}
use xbee_mqtt.Notify
use xbee_mqtt.Notify.Receive.{receive_callback}
use xbee_mqtt.Platform.{Platform, Event, notified, received, at_response, ebusy}
use xbee_mqtt.Radio.Types.{
  Radio, RadioState, RadioReturn, Sys, on_radio, call, run, cast_guard_value, lt_state,
  gb4xbee_default_command_timeout,
}

abbrev escape_sequence : List ℕ
escape_sequence = b'+' ∷ b'+' ∷ b'+' ∷ []

abbrev api_mode : List ℕ
api_mode = b'A' ∷ b'T' ∷ b'A' ∷ b'P' ∷ b'1' ∷ 13 ∷ []

abbrev command_mode_exit : List ℕ
command_mode_exit = b'A' ∷ b'T' ∷ b'C' ∷ b'N' ∷ 13 ∷ []

abbrev ok_text : List ℕ
ok_text = b'O' ∷ b'K' ∷ []

abbrev pub an_command : List ℕ
an_command = b'A' ∷ b'N' ∷ []

abbrev pub wr_command : List ℕ
wr_command = b'W' ∷ b'R' ∷ []

-- GB4XBee::verifyAccessPointName; `value` has the length that is compared.
unfoldable pub verify_access_point_name : List ℕ → Radio → Bool × Radio
verify_access_point_name value r0 =
    let r = record r0 { got_access_point_name = true } in
    if memcmp_eq (length value) r.access_point_name value
    then (true, r)
    else (false, record r { need_set_access_point_name = true })

-- readAPNCallback; `guard` is the word found at the context pointer.
unfoldable pub read_apn_callback : ℕ → List ℕ → Radio → Radio
unfolding verify_access_point_name
read_apn_callback guard value r =
    if guard == cast_guard_value then (verify_access_point_name value r).1 else r

module _ {W : Type 0} where
  -- The callback of one event.
  unfoldable pub deliver : Event → Sys W → Sys W
  unfolding read_apn_callback receive_callback Notify.callback
  deliver (notified sock frame_type message) s = record s {
    notify = Notify.callback sock frame_type message s.notify;
  }
  deliver (received sock status payload) s = record s {
    receive = receive_callback sock status payload s.receive;
  }
  deliver (at_response guard value) s = record s { radio = read_apn_callback guard value s.radio }

  unfoldable pub deliver_all : List Event → Sys W → Sys W
  unfolding deliver
  deliver_all [] s = s
  deliver_all (e ∷ es) s = deliver_all es (deliver e s)

module _ {W : Type 0} (P : Platform W) where
  -- `xbee_dev_tick(&xbee)` with the callbacks that it makes.
  unfoldable pub dev_tick : Prog (Sys W) (Unit {0})
  unfolding deliver_all
  dev_tick s =
      let (events, w) = P.dev_tick s.world in (tt, deliver_all events (record s { world = w }))

  send_text : List ℕ → Prog (Sys W) (Unit {0})
  send_text text = do
    run (P.serial_write text)
    now ← call P.millis
    on_radio (λ r. record r { response_start_time = now })

  unfoldable pub send_escape_sequence : Prog (Sys W) (Unit {0})
  unfolding send_text
  send_escape_sequence = send_text escape_sequence

  unfoldable pub send_api_mode : Prog (Sys W) (Unit {0})
  unfolding send_text
  send_api_mode = send_text api_mode

  unfoldable pub send_command_mode_exit : Prog (Sys W) (Unit {0})
  unfolding send_text
  send_command_mode_exit = send_text command_mode_exit

  -- GB4XBee::pollResponseOK. Of more than 7 bytes those past the array's end are in `ok_buffer` too.
  unfoldable pub poll_response_ok : Prog (Sys W) RadioReturn
  poll_response_ok = do
    n ← call P.serial_available
    if ltb n 3
        then (do
          now ← call P.millis
          start ← get (λ s. s.radio.response_start_time)
          pure (
              if ltb gb4xbee_default_command_timeout (elapsed now start)
              then RadioReturn.command_timeout
              else RadioReturn.command_in_progress))
        else (do
          stale ← get (λ s. P.stale_ok_buffer s.world)
          bytes ← call (P.serial_read_bytes n)
          let ok_buffer = overwrite bytes stale
          pure (
              if memcmp_eq 2 ok_text ok_buffer
              then RadioReturn.command_ok
              else RadioReturn.command_not_ok))

  unfoldable pub start_init_api : Prog (Sys W) (Unit {0})
  start_init_api = run P.cmd_init_device

  unfoldable pub restart_init_api : Prog (Sys W) (Unit {0})
  restart_init_api = run P.cmd_query_device

  -- GB4XBee::pollInitStatus
  unfoldable pub poll_init_status : Prog (Sys W) RadioReturn
  unfolding dev_tick
  poll_init_status = do
    dev_tick
    status ← call P.cmd_query_status
    pure (elim status [
      | pos zero ↦ RadioReturn.init_done
      | pos _ ↦ RadioReturn.init_try_again
      | negsuc n ↦
          if n + 1 == ebusy then RadioReturn.init_in_progress else RadioReturn.init_try_again
    ])

  abbrev set_err : ℤ → Prog (Sys W) (Unit {0})
  set_err e = on_radio (λ r. record r { err = e })

  -- GB4XBee::sendReadAPN; the result of `xbee_cmd_send` is dropped.
  unfoldable pub send_read_apn : Prog (Sys W) Bool
  send_read_apn = do
    created ← call (P.cmd_create an_command)
    let handle = int16 created
    if is_neg handle
        then (do set_err handle; pure false)
        else (do run (P.cmd_set_callback handle); _ ← call (P.cmd_send handle); pure true)

  -- GB4XBee::pollAPNStatus
  unfoldable pub poll_apn_status : Prog (Sys W) RadioReturn
  unfolding dev_tick
  poll_apn_status = do
    dev_tick
    r ← get (λ s. s.radio)
    pure (
        if r.got_access_point_name
        then (if r.need_set_access_point_name
            then RadioReturn.apn_not_set
            else RadioReturn.apn_is_set)
        else RadioReturn.apn_read_in_progress)

  send_command : ℤ → Prog (Sys W) Bool
  send_command handle = do
    status ← call (P.cmd_send handle)
    if is_zero status then pure true else (do set_err status; pure false)

  unfoldable pub send_write_changes : Prog (Sys W) Bool
  unfolding send_command
  send_write_changes = do
    created ← call (P.cmd_create wr_command)
    let handle = int16 created
    if is_neg handle then (do set_err handle; pure false) else send_command handle

  unfoldable pub send_set_apn : Prog (Sys W) Bool
  unfolding send_command
  send_set_apn = do
    created ← call (P.cmd_create an_command)
    let handle = int16 created
    if is_neg handle then (do set_err handle; pure false) else (do
      name ← get (λ s. s.radio.access_point_name)
      status ← call (P.cmd_set_param_str handle name)
      if is_neg status then (do set_err status; pure false) else send_command handle)

  -- GB4XBee::getSerialNumber
  unfoldable pub get_serial_number : Sys W → ℕ
  get_serial_number s =
      let (hi, lo) = P.ieee_address s.world in
      if lt_state s.radio.m_state RadioState.begin_api_mode_command
      then 0
      else u32 hi * 2 ^ 32 + u32 lo
