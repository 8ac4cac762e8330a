-- ===== src/Radio/Startup.antt =====
-- GB4XBee::begin and GB4XBee::pollStartup: from power-up to a modem in API mode with its access
-- point name set.
use xbee_mqtt.Base.{Bool, true, false, if◌then◌else◌, is_zero, Prog, ◌>>=◌, ◌>>◌, pure, get}
use xbee_mqtt.Platform.{Platform}
use xbee_mqtt.Radio.Types.{RadioState, RadioReturn, Sys, on_radio, set_state, call, eq_state}
use xbee_mqtt.Radio.Timers.{start_command_mode_guard, poll_command_mode_guard}
use xbee_mqtt.Radio.Commands.{
  send_escape_sequence, send_api_mode, send_command_mode_exit, poll_response_ok, start_init_api,
  restart_init_api, poll_init_status, send_read_apn, poll_apn_status, send_write_changes,
  send_set_apn,
}

is_command_ok : RadioReturn → Bool
is_command_ok RadioReturn.command_ok = true
is_command_ok _ = false

module _ {W : Type 0} where
  -- `m_state = t` if the poll said that the step is done.
  advance_if : RadioState → Bool → Prog (Sys W) (Unit {0})
  advance_if t true = set_state t
  advance_if t false = pure tt

  after_apn_status : RadioReturn → Prog (Sys W) (Unit {0})
  after_apn_status RadioReturn.apn_is_set = set_state RadioState.begin_create_socket
  after_apn_status RadioReturn.apn_not_set = set_state RadioState.set_apn
  after_apn_status _ = pure tt

module _ {W : Type 0} (P : Platform W) where
  -- GB4XBee::begin
  unfoldable pub begin : Prog (Sys W) Bool
  begin = do
    status ← call P.dev_init
    if is_zero status
        then (do set_state RadioState.start; pure true)
        else (do on_radio (λ r. record r { err = status }); pure false)

  after_init_status : RadioReturn → Prog (Sys W) (Unit {0})
  after_init_status RadioReturn.init_try_again = restart_init_api P
  after_init_status RadioReturn.init_in_progress = pure tt
  after_init_status _ = set_state RadioState.begin_read_apn

  -- The `switch` of `pollStartup`.
  unfoldable pub startup_step : RadioState → Prog (Sys W) (Unit {0})
  unfolding advance_if is_command_ok after_init_status after_apn_status
  startup_step RadioState.start = do
    start_command_mode_guard P
    set_state RadioState.await_command_mode_guard_0
  startup_step RadioState.await_command_mode_guard_0 = do
    passed ← poll_command_mode_guard P
    advance_if RadioState.begin_command_mode passed
  startup_step RadioState.begin_command_mode = do
    send_escape_sequence P
    start_command_mode_guard P
    set_state RadioState.await_command_mode_guard_1
  startup_step RadioState.await_command_mode_guard_1 = do
    passed ← poll_command_mode_guard P
    advance_if RadioState.await_command_mode_response passed
  startup_step RadioState.await_command_mode_response = do
    r ← poll_response_ok P
    advance_if RadioState.begin_api_mode_command (is_command_ok r)
  startup_step RadioState.begin_api_mode_command = do
    send_api_mode P
    set_state RadioState.await_api_mode_response
  startup_step RadioState.await_api_mode_response = do
    r ← poll_response_ok P
    advance_if RadioState.begin_command_mode_exit (is_command_ok r)
  startup_step RadioState.begin_command_mode_exit = do
    send_command_mode_exit P
    set_state RadioState.await_command_mode_exit_response
  startup_step RadioState.await_command_mode_exit_response = do
    r ← poll_response_ok P
    advance_if RadioState.begin_init_xbee_api (is_command_ok r)
  startup_step RadioState.begin_init_xbee_api = do
    start_init_api P
    set_state RadioState.await_init_xbee_api_done
  startup_step RadioState.await_init_xbee_api_done = do
    status ← poll_init_status P
    after_init_status status
  startup_step RadioState.begin_read_apn = do
    _ ← send_read_apn P
    set_state RadioState.await_read_apn_response
  startup_step RadioState.await_read_apn_response = do
    status ← poll_apn_status P
    after_apn_status status
  startup_step RadioState.set_apn = do
    _ ← send_set_apn P
    _ ← send_write_changes P
    set_state RadioState.begin_create_socket
  startup_step _ = pure tt

  -- GB4XBee::pollStartup
  unfoldable pub poll_startup : Prog (Sys W) RadioReturn
  unfolding startup_step
  poll_startup = do
    st ← get (λ s. s.radio.m_state)
    startup_step st
    now ← get (λ s. s.radio.m_state)
    pure (
        if eq_state now RadioState.begin_create_socket
        then RadioReturn.startup_complete
        else RadioReturn.startup_in_progress)
