-- ===== src/Radio/Graph.antt =====
-- The transition diagram of GB4XBee: which states one call of `poll` can lead to.
use xbee_mqtt.Base.{◌≡◌, refl, subst, inl, inr, arith, Bool-cases}
use xbee_mqtt.Platform.{Platform}
use xbee_mqtt.Radio.Types.{RadioState, Sys, lt_state}
use xbee_mqtt.Radio.Timers.{poll_socket_cooldown, reset_socket}
use xbee_mqtt.Radio.Commands.{restart_init_api, dev_tick}
use xbee_mqtt.Radio.Startup.{startup_step, poll_startup}
use xbee_mqtt.Radio.Socket.{send_socket_create, socket_step, poll_socket, poll}
use xbee_mqtt.Radio.Frame.{dev_tick-m_state, m_state_laws}

infix 40 ◌⟶◌
pub data ◌⟶◌ : RadioState → RadioState → Type 0 where
  stay : {s : RadioState} → s ⟶ s
  guard_0 : RadioState.start ⟶ RadioState.await_command_mode_guard_0
  guard_0_over : RadioState.await_command_mode_guard_0 ⟶ RadioState.begin_command_mode
  guard_1 : RadioState.begin_command_mode ⟶ RadioState.await_command_mode_guard_1
  guard_1_over : RadioState.await_command_mode_guard_1 ⟶ RadioState.await_command_mode_response
  command_mode : RadioState.await_command_mode_response ⟶ RadioState.begin_api_mode_command
  api_mode : RadioState.begin_api_mode_command ⟶ RadioState.await_api_mode_response
  api_mode_ok : RadioState.await_api_mode_response ⟶ RadioState.begin_command_mode_exit
  exit : RadioState.begin_command_mode_exit ⟶ RadioState.await_command_mode_exit_response
  exit_ok : RadioState.await_command_mode_exit_response ⟶ RadioState.begin_init_xbee_api
  init : RadioState.begin_init_xbee_api ⟶ RadioState.await_init_xbee_api_done
  init_done : RadioState.await_init_xbee_api_done ⟶ RadioState.begin_read_apn
  read_apn : RadioState.begin_read_apn ⟶ RadioState.await_read_apn_response
  apn_is_set : RadioState.await_read_apn_response ⟶ RadioState.begin_create_socket
  apn_not_set : RadioState.await_read_apn_response ⟶ RadioState.set_apn
  apn_written : RadioState.set_apn ⟶ RadioState.begin_create_socket
  cooled_down : RadioState.socket_cooldown_period ⟶ RadioState.begin_create_socket
  create : RadioState.begin_create_socket ⟶ RadioState.await_socket_id
  create_again : RadioState.await_socket_id ⟶ RadioState.begin_create_socket
  created : RadioState.await_socket_id ⟶ RadioState.socket_ready
  connecting : RadioState.socket_ready ⟶ RadioState.await_connect_response
  accepted : RadioState.await_connect_response ⟶ RadioState.await_connection
  connected : RadioState.await_connection ⟶ RadioState.connected
  sent : RadioState.sending ⟶ RadioState.connected
  create_failed : RadioState.begin_create_socket ⟶ RadioState.socket_cooldown_period
  socket_refused : RadioState.await_socket_id ⟶ RadioState.socket_cooldown_period
  connect_failed : RadioState.await_connect_response ⟶ RadioState.socket_cooldown_period
  connection_failed : RadioState.await_connection ⟶ RadioState.socket_cooldown_period
  lost : RadioState.connected ⟶ RadioState.socket_cooldown_period
  lost_sending : RadioState.sending ⟶ RadioState.socket_cooldown_period

ruleset edges = (
  stay, guard_0, guard_0_over, guard_1, guard_1_over, command_mode, api_mode, api_mode_ok, exit,
  exit_ok, init, init_done, read_apn, apn_is_set, apn_not_set, apn_written, cooled_down, create,
  create_again, created, connecting, accepted, connected, sent, create_failed, socket_refused,
  connect_failed, connection_failed, lost, lost_sending,
)

module _ {W : Type 0} (P : Platform W) where
  startup_step-⟶ :
      (st : RadioState) (s : Sys W)
      → s.radio.m_state ≡ st
      → st ⟶ (startup_step P st s).1.radio.m_state
  unfolding startup_step restart_init_api
  startup_step-⟶ RadioState.start s h = grind (arith, edges, m_state_laws)
  startup_step-⟶ _ s h = grind (arith, edges, m_state_laws)

  socket_step-⟶ :
      (st : RadioState) (s : Sys W)
      → s.radio.m_state ≡ st
      → st ⟶ (socket_step P st s).1.radio.m_state
  unfolding socket_step reset_socket poll_socket_cooldown send_socket_create
  socket_step-⟶ RadioState.start s h = grind (arith, edges)
  socket_step-⟶ _ s h = grind (arith, edges)

  pub poll_startup-⟶ : (s : Sys W) → s.radio.m_state ⟶ (poll_startup P s).1.radio.m_state
  unfolding poll_startup
  poll_startup-⟶ s = startup_step-⟶ s.radio.m_state s refl

  poll_socket-⟶ : (s : Sys W) → s.radio.m_state ⟶ (poll_socket P s).1.radio.m_state
  unfolding poll_socket
  poll_socket-⟶ s =
      subst (λ t. t ⟶ (poll_socket P s).1.radio.m_state) (dev_tick-m_state P s)
        (socket_step-⟶ _ (dev_tick P s).1 refl)

  -- One call of `poll`, whatever the driver, the clock and the network do, follows an edge of the
  -- diagram.
  pub poll-⟶ : (s : Sys W) → s.radio.m_state ⟶ (poll P s).1.radio.m_state
  unfolding poll
  poll-⟶ s = elim (Bool-cases (lt_state s.radio.m_state RadioState.socket_cooldown_period)) [
    | inl e ↦ rw (e, poll) (poll_startup-⟶ s)
    | inr e ↦ rw (e, poll) (poll_socket-⟶ s)
  ]
