-- ===== src/Radio/Ready.antt =====
-- How GB4XBee comes to a socket: from the startup, or from the cooldown, to SOCKET_READY.
use xbee_mqtt.Base.{
  ℕ, ◌+◌, ◌-◌, ◌≤◌, ◌≡◌, refl, subst, sym, inl, inr, arith, Bool, true, false, ◌&&◌, not, ◌==◌,
  if◌then◌else◌, is_neg, Bool-cases,
}
use xbee_mqtt.Notify
use xbee_mqtt.Platform.{Platform}
use xbee_mqtt.Radio.Types.{RadioState, Sys, index, lt_state}
use xbee_mqtt.Radio.Timers.{poll_socket_cooldown}
use xbee_mqtt.Radio.Commands.{dev_tick}
use xbee_mqtt.Radio.Socket.{socket_created, send_socket_create, socket_step, poll_socket, poll}
use xbee_mqtt.Radio.Frame.{dev_tick-m_state}
use xbee_mqtt.Radio.Progress.{answered, follows, needs_apn, poll_progress}

-- How many states lie between this one and SOCKET_READY: 16 from START, 3 from the cooldown. The
-- states of the TLS profile, which no poll reaches, are put behind all others.
abbrev pub to_ready : RadioState → ℕ
to_ready RadioState.socket_cooldown_period = 3
to_ready RadioState.begin_create_socket = 2
to_ready RadioState.await_socket_id = 1
to_ready RadioState.begin_set_tls_profile = 17
to_ready RadioState.await_tls_profile_response = 17
to_ready st = 16 - index st

module _ {W : Type 0} (P : Platform W) where
  -- What a state between the startup and SOCKET_READY waits for is there, after the tick of the driver.
  abbrev opens_in : RadioState → Sys W → Bool
  opens_in RadioState.socket_cooldown_period s = (poll_socket_cooldown P s).0
  opens_in RadioState.begin_create_socket s =
      not (is_neg (P.sock_create s.radio.transport_protocol (P.sock_reset s.world)).0)
  opens_in RadioState.await_socket_id s =
      not (Notify.count s.notify == s.radio.notify_count) && socket_created s.notify
  opens_in _ s = false

  -- A poll that finds what the radio waits for on its way to a socket.
  unfoldable pub advances : Sys W → Bool
  advances s =
      if lt_state s.radio.m_state RadioState.socket_cooldown_period
      then answered P s
      else opens_in s.radio.m_state (dev_tick P s).1

  follows-to_ready :
      (need : Bool) (st : RadioState)
      → lt_state st RadioState.socket_cooldown_period ≡ true
      → 1 + to_ready (follows need st) ≤ to_ready st
  follows-to_ready true RadioState.await_read_apn_response e = omega arith
  follows-to_ready false RadioState.await_read_apn_response e = omega arith
  follows-to_ready need RadioState.start e = omega arith
  follows-to_ready need _ e = ground arith

  socket_step-to_ready :
      (st : RadioState) (s : Sys W)
      → s.radio.m_state ≡ st
      → opens_in st s ≡ true
      → 1 + to_ready (socket_step P st s).1.radio.m_state ≤ to_ready st
  unfolding socket_step poll_socket_cooldown send_socket_create
  socket_step-to_ready RadioState.socket_cooldown_period s e h = ground arith
  socket_step-to_ready RadioState.begin_create_socket s e h = ground arith
  socket_step-to_ready RadioState.await_socket_id s e h = ground arith
  socket_step-to_ready RadioState.start s e h = cc
  socket_step-to_ready _ s e h = cc

  poll_socket-to_ready :
      (s : Sys W)
      → opens_in s.radio.m_state (dev_tick P s).1 ≡ true
      → 1 + to_ready (poll_socket P s).1.radio.m_state ≤ to_ready s.radio.m_state
  unfolding poll_socket
  poll_socket-to_ready s h =
      let t = (dev_tick P s).1 in
      let same = dev_tick-m_state P s in
      let there : opens_in t.radio.m_state t ≡ true =
        subst (λ st. opens_in st t ≡ true) (sym same) h in
      subst (λ st. 1 + to_ready (poll_socket P s).1.radio.m_state ≤ to_ready st) same
        (socket_step-to_ready t.radio.m_state t refl there)

  poll_startup-to_ready :
      (s : Sys W)
      → lt_state s.radio.m_state RadioState.socket_cooldown_period ≡ true
      → answered P s ≡ true
      → 1 + to_ready (poll P s).1.radio.m_state ≤ to_ready s.radio.m_state
  poll_startup-to_ready s early h =
      let next = poll_progress P s early in
      let less = follows-to_ready (needs_apn P s) s.radio.m_state early in rw (next, h) less

  -- A poll that finds what the radio waits for brings it one state nearer to its socket.
  pub poll-to_ready :
      (s : Sys W)
      → advances s ≡ true
      → 1 + to_ready (poll P s).1.radio.m_state ≤ to_ready s.radio.m_state
  unfolding poll advances
  poll-to_ready s h =
      elim (Bool-cases (lt_state s.radio.m_state RadioState.socket_cooldown_period)) [
        | inl early ↦ poll_startup-to_ready s early (rw early at h)
        | inr late ↦ rw (late, poll) (poll_socket-to_ready s (rw late at h))
      ]

  pub ready-to_ready :
      (t : RadioState) → lt_state t RadioState.socket_ready ≡ false → to_ready t ≡ 0
  ready-to_ready RadioState.start h = cc
  ready-to_ready _ h = ground arith
