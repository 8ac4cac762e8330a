-- ===== src/Radio/Timers.antt =====
-- The timers of GB4XBee: each holds the reading of `millis()` at its start.
use xbee_mqtt.Base.{Bool, ltb, elapsed, Prog, ◌>>=◌, ◌>>◌, pure, get}
use xbee_mqtt.Platform.{Platform}
use xbee_mqtt.Radio.Types.{
  RadioState, Sys, on_radio, set_state, call, gb4xbee_command_mode_guard_time,
  gb4xbee_socket_cooldown_interval, gb4xbee_connect_retry_delay_interval,
}

module _ {W : Type 0} (P : Platform W) where
  unfoldable pub start_command_mode_guard : Prog (Sys W) (Unit {0})
  start_command_mode_guard = do
    now ← call P.millis
    on_radio (λ r. record r { guard_time_start = now })

  -- GB4XBee::pollCommandModeGuard
  unfoldable pub poll_command_mode_guard : Prog (Sys W) Bool
  poll_command_mode_guard = do
    now ← call P.millis
    start ← get (λ s. s.radio.guard_time_start)
    pure (ltb gb4xbee_command_mode_guard_time (elapsed now start))

  unfoldable pub poll_socket_cooldown : Prog (Sys W) Bool
  poll_socket_cooldown = do
    now ← call P.millis
    start ← get (λ s. s.radio.socket_cooldown_start_time)
    pure (ltb gb4xbee_socket_cooldown_interval (elapsed now start))

  unfoldable pub start_connect_retry_delay : Prog (Sys W) (Unit {0})
  start_connect_retry_delay = do
    now ← call P.millis
    on_radio (λ r. record r { connect_retry_delay_start_time = now })

  unfoldable pub poll_connect_retry_delay : Prog (Sys W) Bool
  poll_connect_retry_delay = do
    now ← call P.millis
    start ← get (λ s. s.radio.connect_retry_delay_start_time)
    pure (ltb gb4xbee_connect_retry_delay_interval (elapsed now start))

  -- GB4XBee::resetSocket
  unfoldable pub reset_socket : Prog (Sys W) RadioState
  reset_socket = do
    set_state RadioState.socket_cooldown_period
    now ← call P.millis
    on_radio (λ r. record r { socket_cooldown_start_time = now })
    get (λ s. s.radio.m_state)
