-- ===== src/Radio/Waiting.antt =====
-- The states of GB4XBee that wait: the four that wait for a notification, in a poll that brings none,
-- and the cooldown. How long they wait in real time, the clock's wrap included.
use xbee_mqtt.Base.{
  ℕ, ◌+◌, ◌<◌, ◌^◌, ◌≡◌, ◌⊎◌, ap, sym, subst, ◌∙◌, arith, Bool, true, false, ltb, if◌then◌else◌,
  u32, elapsed-add,
}
use xbee_mqtt.Platform.{Platform}
use xbee_mqtt.Radio.Types.{
  RadioState, Radio, Sys, lt_state, gb4xbee_socket_create_timeout, gb4xbee_connect_timeout,
  gb4xbee_send_timeout, gb4xbee_socket_cooldown_interval,
}
use xbee_mqtt.Radio.Timers.{reset_socket, poll_socket_cooldown}
use xbee_mqtt.Radio.Commands.{dev_tick}
use xbee_mqtt.Radio.Socket.{socket_step, poll_socket, poll}
use xbee_mqtt.Radio.Frame.{dev_tick-world, dev_tick-radio, dev_tick-m_state, poll_late}

abbrev pub waits : RadioState → Bool
waits RadioState.await_socket_id = true
waits RadioState.await_connect_response = true
waits RadioState.await_connection = true
waits RadioState.sending = true
waits RadioState.socket_cooldown_period = true
waits _ = false

-- How long a state waits, since when, and where it goes then.
abbrev pub patience : RadioState → ℕ
patience RadioState.await_socket_id = gb4xbee_socket_create_timeout
patience RadioState.sending = gb4xbee_send_timeout
patience RadioState.socket_cooldown_period = gb4xbee_socket_cooldown_interval
patience _ = gb4xbee_connect_timeout

abbrev pub waits_since : RadioState → Radio → ℕ
waits_since RadioState.await_socket_id r = r.socket_create_start_time
waits_since RadioState.sending r = r.send_start_time
waits_since RadioState.socket_cooldown_period r = r.socket_cooldown_start_time
waits_since _ r = r.connect_start_time

abbrev pub gives_up : RadioState → RadioState
gives_up RadioState.await_socket_id = RadioState.begin_create_socket
gives_up RadioState.sending = RadioState.connected
gives_up RadioState.socket_cooldown_period = RadioState.begin_create_socket
gives_up _ = RadioState.socket_cooldown_period

module _ {W : Type 0} (P : Platform W) where
  socket_step_quiet :
      (st : RadioState) (s : Sys W) (start d : ℕ)
      → waits st ≡ true
      → s.radio.m_state ≡ st
      → (st ≡ RadioState.socket_cooldown_period) ⊎ (s.notify.m_count ≡ s.radio.notify_count)
      → waits_since st s.radio ≡ u32 start
      → (P.millis s.world).0 ≡ u32 (start + d)
      → d < 2 ^ 32
      → (socket_step P st s).1.radio.m_state ≡ (if ltb (patience st) d then gives_up st else st)
  unfolding socket_step reset_socket poll_socket_cooldown
  socket_step_quiet RadioState.await_socket_id s start d w at quiet begun now fits =
      ground (arith, elapsed-add start d fits)
  socket_step_quiet RadioState.await_connect_response s start d w at quiet begun now fits =
      ground (arith, elapsed-add start d fits)
  socket_step_quiet RadioState.await_connection s start d w at quiet begun now fits =
      ground (arith, elapsed-add start d fits)
  socket_step_quiet RadioState.sending s start d w at quiet begun now fits =
      ground (arith, elapsed-add start d fits)
  socket_step_quiet RadioState.socket_cooldown_period s start d w at quiet begun now fits =
      ground (arith, elapsed-add start d fits)
  socket_step_quiet _ s start d w at quiet begun now fits = cc

  started_at :
      (st : RadioState) (s : Sys W) → waits_since st (dev_tick P s).1.radio ≡ waits_since st s.radio
  started_at RadioState.start s = ap (λ r. r.connect_start_time) (dev_tick-radio P s)
  started_at RadioState.await_socket_id s =
      ap (λ r. r.socket_create_start_time) (dev_tick-radio P s)
  started_at RadioState.sending s = ap (λ r. r.send_start_time) (dev_tick-radio P s)
  started_at RadioState.socket_cooldown_period s =
      ap (λ r. r.socket_cooldown_start_time) (dev_tick-radio P s)
  started_at _ s = ap (λ r. r.connect_start_time) (dev_tick-radio P s)

  waits_late :
      (st : RadioState) → waits st ≡ true → lt_state st RadioState.socket_cooldown_period ≡ false
  waits_late RadioState.start h = cc
  waits_late _ h = ground arith

  -- A poll in one of the states AWAIT_SOCKET_ID, AWAIT_CONNECT_RESPONSE, AWAIT_CONNECTION and SENDING
  -- whose tick brings no notification, or any poll in SOCKET_COOLDOWN_PERIOD, `d` milliseconds after
  -- the wait began (fewer than 2 ^ 32, whether or not the clock has wrapped since): the state is left
  -- exactly when more than its timeout has passed (10, 20, 20, 1 and 2 seconds). Then the first and
  -- the last go on to create a socket, SENDING is CONNECTED again, and the others reset the socket.
  pub poll_quiet :
      (s : Sys W) (start d : ℕ)
      → waits s.radio.m_state ≡ true
      → (s.radio.m_state ≡ RadioState.socket_cooldown_period)
        ⊎ ((dev_tick P s).1.notify.m_count ≡ (dev_tick P s).1.radio.notify_count)
      → waits_since s.radio.m_state s.radio ≡ u32 start
      → (P.millis (P.dev_tick s.world).1).0 ≡ u32 (start + d)
      → d < 2 ^ 32
      → (poll P s).1.radio.m_state
        ≡ (if ltb (patience s.radio.m_state) d then gives_up s.radio.m_state else s.radio.m_state)
  unfolding poll_socket
  poll_quiet s start d w quiet begun now fits =
      let t = (dev_tick P s).1 in
      let st = s.radio.m_state in
      rw (poll_late P s (waits_late st w)) (
        subst
          (λ u.
            (socket_step P u t).1.radio.m_state ≡ (if ltb (patience st) d then gives_up st else st))
          (sym (dev_tick-m_state P s))
          (socket_step_quiet st t start d w (dev_tick-m_state P s) quiet (started_at st s ∙ begun)
            (rw (dev_tick-world P s) now) fits))
