-- ===== src/Radio/Socket.antt =====
-- GB4XBee::poll: the state machine that keeps a socket open, and GB4XBee::connect.
use xbee_mqtt.Base.{
  ℕ, Bool, true, false, ◌&&◌, ◌||◌, not, List, ltb, ◌==◌, if◌then◌else◌, is_neg, is_zero, elapsed,
  Prog, ◌>>=◌, ◌>>◌, pure, get,
}
use xbee_mqtt.Notify
use xbee_mqtt.Notify.{Notify}
use xbee_mqtt.Notify.Codes.FrameType
use xbee_mqtt.Notify.Codes.TxMesg
use xbee_mqtt.Notify.Codes.SockMesg
use xbee_mqtt.Notify.Codes.StateMesg
use xbee_mqtt.Platform.{Platform}
use xbee_mqtt.Radio.Types.{
  Radio, RadioState, Sys, on_radio, set_state, call, run, lt_state, gb4xbee_socket_create_timeout,
  gb4xbee_connect_timeout, gb4xbee_send_timeout,
}
use xbee_mqtt.Radio.Timers.{reset_socket, poll_socket_cooldown}
use xbee_mqtt.Radio.Commands.{dev_tick}
use xbee_mqtt.Radio.Startup.{poll_startup}

-- The tests of `poll` on the last notification.
unfoldable pub socket_created : Notify → Bool
socket_created n = n.type == FrameType.sock_create_resp && n.sock_mesg == SockMesg.success

unfoldable pub connect_accepted : Notify → Bool
connect_accepted n = n.type == FrameType.sock_connect_resp && n.sock_mesg == SockMesg.success

unfoldable pub connection_made : Notify → Bool
connection_made n = n.type == FrameType.sock_state && n.state_mesg == StateMesg.connected

unfoldable pub connection_lost : Notify → Bool
connection_lost n =
    (n.type == FrameType.sock_state && not (n.state_mesg == StateMesg.connected))
    || (n.type == FrameType.tx_status && not (n.tx_mesg == TxMesg.success))

module _ {W : Type 0} where
  -- `g_notify.count() == notify_count`
  abbrev nothing_new : Sys W → Bool
  nothing_new s = Notify.count s.notify == s.radio.notify_count

  -- `notify_count = g_notify.count()`
  abbrev take_notice : Prog (Sys W) (Unit {0})
  take_notice s = (tt, record s { radio = record s.radio { notify_count = Notify.count s.notify } })

module _ {W : Type 0} (P : Platform W) where
  -- GB4XBee::sendSocketCreate
  unfoldable pub send_socket_create : Prog (Sys W) Bool
  send_socket_create = do
    run P.sock_reset
    protocol ← get (λ s. s.radio.transport_protocol)
    sock ← call (P.sock_create protocol)
    on_radio (λ r. record r { sock = sock })
    if is_neg sock then (do on_radio (λ r. record r { err = sock }); pure false) else (do
      now ← call P.millis
      on_radio (λ r. record r { socket_create_start_time = now })
      pure true)

  -- `m_state = resetSocket()`
  reset_to_cooldown : Prog (Sys W) (Unit {0})
  reset_to_cooldown = do t ← reset_socket P; set_state t

  -- The shape of the three waiting states: a timeout, else a test of the notification.
  await_response :
      ℕ
      → (Radio → ℕ)
      → Prog (Sys W) (Unit {0})
      → (Notify → Bool)
      → RadioState
      → Prog (Sys W) (Unit {0})
  unfolding reset_to_cooldown
  await_response timeout start on_timeout test next = do
    quiet ← get nothing_new
    if quiet
        then (do
          now ← call P.millis
          started ← get (λ s. start s.radio)
          if ltb timeout (elapsed now started) then on_timeout else pure tt)
        else (do
          take_notice
          n ← get (λ s. s.notify)
          if test n then set_state next else reset_to_cooldown)

  -- The case CONNECTED, into which SENDING falls through.
  connected_step : Prog (Sys W) (Unit {0})
  unfolding reset_to_cooldown
  connected_step = do
    quiet ← get nothing_new
    if quiet then pure tt else (do
      take_notice
      n ← get (λ s. s.notify)
      if connection_lost n then reset_to_cooldown else set_state RadioState.connected)

  -- The `switch` of `poll`.
  unfoldable pub socket_step : RadioState → Prog (Sys W) (Unit {0})
  unfolding reset_to_cooldown await_response connected_step
  socket_step RadioState.socket_cooldown_period = do
    over ← poll_socket_cooldown P
    if over then set_state RadioState.begin_create_socket else pure tt
  socket_step RadioState.begin_create_socket = do
    zeroed ← (λ s. let (c, n) = Notify.reset s.notify in (c, record s { notify = n }))
    on_radio (λ r. record r { notify_count = zeroed; connect_in_progress = false })
    sent ← send_socket_create
    if sent then set_state RadioState.await_socket_id else reset_to_cooldown
  socket_step RadioState.await_socket_id =
      await_response gb4xbee_socket_create_timeout (λ r. r.socket_create_start_time)
        (set_state RadioState.begin_create_socket) socket_created RadioState.socket_ready
  socket_step RadioState.socket_ready = do
    connecting ← get (λ s. s.radio.connect_in_progress)
    if connecting then set_state RadioState.await_connect_response else pure tt
  socket_step RadioState.await_connect_response =
      await_response gb4xbee_connect_timeout (λ r. r.connect_start_time) reset_to_cooldown
        connect_accepted RadioState.await_connection
  socket_step RadioState.await_connection =
      await_response gb4xbee_connect_timeout (λ r. r.connect_start_time) reset_to_cooldown
        connection_made RadioState.connected
  socket_step RadioState.sending = do
    now ← call P.millis
    start ← get (λ s. s.radio.send_start_time)
    if ltb gb4xbee_send_timeout (elapsed now start) then set_state RadioState.connected else pure tt
    connected_step
  socket_step RadioState.connected = connected_step
  socket_step _ = pure tt

  unfoldable pub poll_socket : Prog (Sys W) (Unit {0})
  unfolding socket_step
  poll_socket = do dev_tick P; st ← get (λ s. s.radio.m_state); socket_step st

  -- GB4XBee::poll
  unfoldable pub poll : Prog (Sys W) RadioState
  unfolding poll_socket
  poll = do
    st ← get (λ s. s.radio.m_state)
    if lt_state st RadioState.socket_cooldown_period
        then (do _ ← poll_startup P; pure tt)
        else poll_socket
    get (λ s. s.radio.m_state)

  -- GB4XBee::connect
  unfoldable pub connect : ℕ → List ℕ → Prog (Sys W) Bool
  connect port address = do
    sock ← get (λ s. s.radio.sock)
    status ← call (P.sock_connect sock port 0 address)
    if is_zero status
        then (do
          now ← call P.millis
          on_radio (λ r. record r { connect_start_time = now; connect_in_progress = true })
          pure true)
        else (do on_radio (λ r. record r { err = status }); pure false)
