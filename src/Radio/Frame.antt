-- ===== src/Radio/Frame.antt =====
-- What the helpers of GB4XBee leave alone: the state of the machine.
use xbee_mqtt.Base.{true, false, ◌≡◌, refl, ◌∙◌, List, [], ◌∷◌, arith}
use xbee_mqtt.Platform.{Platform, Event, notified, received, at_response}
use xbee_mqtt.Radio.Types.{RadioState, Sys, lt_state}
use xbee_mqtt.Radio.Startup.{poll_startup}
use xbee_mqtt.Radio.Timers.{start_command_mode_guard, poll_command_mode_guard, poll_socket_cooldown}
use xbee_mqtt.Radio.Commands.{
  deliver, deliver_all, dev_tick, send_escape_sequence, send_api_mode, send_command_mode_exit,
  poll_response_ok, start_init_api, restart_init_api, poll_init_status, send_read_apn,
  poll_apn_status, send_write_changes, send_set_apn,
}
use xbee_mqtt.Radio.Socket.{send_socket_create, poll_socket, poll}

module _ {W : Type 0} where
  pub deliver-m_state : (e : Event) (s : Sys W) → (deliver e s).radio.m_state ≡ s.radio.m_state
  unfolding deliver
  deliver-m_state (notified sock frame_type message) s = refl
  deliver-m_state (received sock status payload) s = refl
  deliver-m_state (at_response guard value) s = ground arith

  pub deliver-connect_in_progress :
      (e : Event) (s : Sys W)
      → (deliver e s).radio.connect_in_progress ≡ s.radio.connect_in_progress
  unfolding deliver
  deliver-connect_in_progress (notified sock frame_type message) s = refl
  deliver-connect_in_progress (received sock status payload) s = refl
  deliver-connect_in_progress (at_response guard value) s = ground arith

  pub deliver_all-m_state :
      (es : List Event) (s : Sys W) → (deliver_all es s).radio.m_state ≡ s.radio.m_state
  unfolding deliver_all
  deliver_all-m_state [] s = refl
  deliver_all-m_state (e ∷ es) s = cc (deliver_all-m_state es (deliver e s), deliver-m_state e s)

  pub deliver_all-connect_in_progress :
      (es : List Event) (s : Sys W)
      → (deliver_all es s).radio.connect_in_progress ≡ s.radio.connect_in_progress
  unfolding deliver_all
  deliver_all-connect_in_progress [] s = refl
  deliver_all-connect_in_progress (e ∷ es) s =
      cc (deliver_all-connect_in_progress es (deliver e s), deliver-connect_in_progress e s)

  pub dev_tick-m_state :
      (P : Platform W) (s : Sys W) → (dev_tick P s).1.radio.m_state ≡ s.radio.m_state
  unfolding dev_tick
  dev_tick-m_state P s = deliver_all-m_state (P.dev_tick s.world).0 _

  pub deliver-radio :
      (e : Event) (s : Sys W)
      → (deliver e s).radio ≡ record s.radio {
        got_access_point_name = (deliver e s).radio.got_access_point_name;
        need_set_access_point_name = (deliver e s).radio.need_set_access_point_name;
      }
  unfolding deliver
  deliver-radio (notified sock frame_type message) s = refl
  deliver-radio (received sock status payload) s = refl
  deliver-radio (at_response guard value) s = ground arith

  deliver_all-radio :
      (es : List Event) (s : Sys W)
      → (deliver_all es s).radio ≡ record s.radio {
        got_access_point_name = (deliver_all es s).radio.got_access_point_name;
        need_set_access_point_name = (deliver_all es s).radio.need_set_access_point_name;
      }
  unfolding deliver_all
  deliver_all-radio [] s = refl
  deliver_all-radio (e ∷ es) s =
      ground (arith, deliver_all-radio es (deliver e s), deliver-radio e s)

  -- A tick changes the two flags of the access point name and nothing else of the radio.
  pub dev_tick-radio :
      (P : Platform W) (s : Sys W)
      → let r = (dev_tick P s).1.radio in
        r ≡ record s.radio {
          got_access_point_name = r.got_access_point_name;
          need_set_access_point_name = r.need_set_access_point_name;
        }
  unfolding dev_tick
  dev_tick-radio P s = deliver_all-radio (P.dev_tick s.world).0 _

  deliver-world : (e : Event) (s : Sys W) → (deliver e s).world ≡ s.world
  unfolding deliver
  deliver-world (notified sock frame_type message) s = refl
  deliver-world (received sock status payload) s = refl
  deliver-world (at_response guard value) s = refl

  deliver_all-world : (es : List Event) (s : Sys W) → (deliver_all es s).world ≡ s.world
  unfolding deliver_all
  deliver_all-world [] s = refl
  deliver_all-world (e ∷ es) s = deliver_all-world es (deliver e s) ∙ deliver-world e s

  pub dev_tick-world :
      (P : Platform W) (s : Sys W) → (dev_tick P s).1.world ≡ (P.dev_tick s.world).1
  unfolding dev_tick
  dev_tick-world P s = deliver_all-world (P.dev_tick s.world).0 _

  pub dev_tick-connect_in_progress :
      (P : Platform W) (s : Sys W)
      → (dev_tick P s).1.radio.connect_in_progress ≡ s.radio.connect_in_progress
  unfolding dev_tick
  dev_tick-connect_in_progress P s = deliver_all-connect_in_progress (P.dev_tick s.world).0 _

module _ {W : Type 0} (P : Platform W) (s : Sys W) where
  pub start_command_mode_guard-m_state :
      (start_command_mode_guard P s).1.radio.m_state ≡ s.radio.m_state
  unfolding start_command_mode_guard
  start_command_mode_guard-m_state = ground arith

  pub poll_command_mode_guard-m_state :
      (poll_command_mode_guard P s).1.radio.m_state ≡ s.radio.m_state
  unfolding poll_command_mode_guard
  poll_command_mode_guard-m_state = ground arith

  pub poll_socket_cooldown-m_state : (poll_socket_cooldown P s).1.radio.m_state ≡ s.radio.m_state
  unfolding poll_socket_cooldown
  poll_socket_cooldown-m_state = ground arith

  pub send_escape_sequence-m_state : (send_escape_sequence P s).1.radio.m_state ≡ s.radio.m_state
  unfolding send_escape_sequence
  send_escape_sequence-m_state = ground arith

  pub send_api_mode-m_state : (send_api_mode P s).1.radio.m_state ≡ s.radio.m_state
  unfolding send_api_mode
  send_api_mode-m_state = ground arith

  pub send_command_mode_exit-m_state :
      (send_command_mode_exit P s).1.radio.m_state ≡ s.radio.m_state
  unfolding send_command_mode_exit
  send_command_mode_exit-m_state = ground arith

  pub poll_response_ok-m_state : (poll_response_ok P s).1.radio.m_state ≡ s.radio.m_state
  unfolding poll_response_ok
  poll_response_ok-m_state = ground arith

  pub start_init_api-m_state : (start_init_api P s).1.radio.m_state ≡ s.radio.m_state
  unfolding start_init_api
  start_init_api-m_state = ground arith

  pub restart_init_api-m_state : (restart_init_api P s).1.radio.m_state ≡ s.radio.m_state
  unfolding restart_init_api
  restart_init_api-m_state = ground arith

  pub send_read_apn-m_state : (send_read_apn P s).1.radio.m_state ≡ s.radio.m_state
  unfolding send_read_apn
  send_read_apn-m_state = ground arith

  pub send_write_changes-m_state : (send_write_changes P s).1.radio.m_state ≡ s.radio.m_state
  unfolding send_write_changes
  send_write_changes-m_state = ground arith

  pub send_set_apn-m_state : (send_set_apn P s).1.radio.m_state ≡ s.radio.m_state
  unfolding send_set_apn
  send_set_apn-m_state = ground arith

  pub send_socket_create-m_state : (send_socket_create P s).1.radio.m_state ≡ s.radio.m_state
  unfolding send_socket_create
  send_socket_create-m_state = ground arith

  pub poll_init_status-m_state : (poll_init_status P s).1.radio.m_state ≡ s.radio.m_state
  unfolding poll_init_status
  poll_init_status-m_state = deliver_all-m_state (P.dev_tick s.world).0 _

  pub poll_apn_status-m_state : (poll_apn_status P s).1.radio.m_state ≡ s.radio.m_state
  unfolding poll_apn_status
  poll_apn_status-m_state = deliver_all-m_state (P.dev_tick s.world).0 _

pub ruleset m_state_laws = (
  start_command_mode_guard-m_state, poll_command_mode_guard-m_state, poll_socket_cooldown-m_state,
  send_escape_sequence-m_state, send_api_mode-m_state, send_command_mode_exit-m_state,
  poll_response_ok-m_state, start_init_api-m_state, restart_init_api-m_state, send_read_apn-m_state,
  send_write_changes-m_state, send_set_apn-m_state, send_socket_create-m_state,
  poll_init_status-m_state, poll_apn_status-m_state, dev_tick-m_state,
)

module _ {W : Type 0} (P : Platform W) (s : Sys W) where
  -- The two branches of `poll`.
  pub poll_early :
      lt_state s.radio.m_state RadioState.socket_cooldown_period ≡ true
      → (poll P s).1 ≡ (poll_startup P s).1
  unfolding poll
  poll_early e = rw e

  pub poll_late :
      lt_state s.radio.m_state RadioState.socket_cooldown_period ≡ false
      → (poll P s).1 ≡ (poll_socket P s).1
  unfolding poll
  poll_late e = rw e
