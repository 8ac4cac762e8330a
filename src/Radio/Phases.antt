-- ===== src/Radio/Phases.antt =====
-- Three phases of the radio, as its client GB4MQTT sees them: at rest (no connection was asked for),
-- connecting and online. What a call of `poll` and of the other methods makes of them.
use xbee_mqtt.Base.{
  ℕ, ◌≡◌, refl, inl, inr, Bool, true, false, ◌&&◌, ◌||◌, not, List, arith, leb, Bool-cases,
}
use xbee_mqtt.Platform.{Platform}
use xbee_mqtt.Radio.Types.{RadioState, Radio, Sys, index, lt_state, eq_state}
use xbee_mqtt.Radio.Timers.{poll_socket_cooldown, reset_socket}
use xbee_mqtt.Radio.Commands.{dev_tick}
use xbee_mqtt.Radio.Socket.{send_socket_create, socket_step, poll_socket, poll, connect}
use xbee_mqtt.Radio.Message.{send_message}
use xbee_mqtt.Radio.Frame.{dev_tick-m_state, dev_tick-connect_in_progress}
use xbee_mqtt.Radio.Graph.{◌⟶◌, stay, poll-⟶, poll_startup-⟶}

-- No later than SOCKET_READY; once a socket is being created, no connection is in progress.
abbrev pub resting : RadioState → Bool → Bool
resting t in_progress =
    lt_state t RadioState.await_socket_id
    || (leb (index t) (index RadioState.socket_ready) && not in_progress)

abbrev pub connecting : RadioState → Bool → Bool
connecting RadioState.socket_ready in_progress = in_progress
connecting RadioState.await_connect_response _ = true
connecting RadioState.await_connection _ = true
connecting _ _ = false

abbrev pub online : RadioState → Bool
online RadioState.connected = true
online RadioState.sending = true
online _ = false

abbrev pub at_rest : Radio → Bool
at_rest r = resting r.m_state r.connect_in_progress

abbrev pub is_connecting : Radio → Bool
is_connecting r = connecting r.m_state r.connect_in_progress

pub startup_edge :
    {t u : RadioState}
    → t ⟶ u
    → lt_state t RadioState.socket_cooldown_period ≡ true
    → lt_state u RadioState.await_socket_id ≡ true
startup_edge stay h = ground arith
startup_edge _ h = ground arith

online_edge :
    {t u : RadioState}
    → t ⟶ u
    → online t ≡ true
    → (online u || eq_state u RadioState.socket_cooldown_period) ≡ true
online_edge stay h = ground arith
online_edge _ h = ground arith

module _ {W : Type 0} (P : Platform W) where
  socket_step-resting :
      (st : RadioState) (s : Sys W)
      → s.radio.m_state ≡ st
      → resting st s.radio.connect_in_progress ≡ true
      → at_rest (socket_step P st s).1.radio ≡ true
  unfolding socket_step reset_socket poll_socket_cooldown send_socket_create
  socket_step-resting RadioState.start s h r = ground arith
  socket_step-resting _ s h r = ground arith

  socket_step-connecting :
      (st : RadioState) (s : Sys W)
      → s.radio.m_state ≡ st
      → connecting st s.radio.connect_in_progress ≡ true
      → let r = (socket_step P st s).1.radio in
        (is_connecting r
          || (online r.m_state || eq_state r.m_state RadioState.socket_cooldown_period))
        ≡ true
  unfolding socket_step reset_socket poll_socket_cooldown send_socket_create
  socket_step-connecting RadioState.start s h r = ground arith
  socket_step-connecting _ s h r = ground arith

  poll_socket-resting :
      (s : Sys W) → at_rest s.radio ≡ true → at_rest (poll_socket P s).1.radio ≡ true
  unfolding poll_socket
  poll_socket-resting s h =
      socket_step-resting _ (dev_tick P s).1 refl
        (rw (dev_tick-m_state P s, dev_tick-connect_in_progress P s) h)

  poll_socket-connecting :
      (s : Sys W)
      → is_connecting s.radio ≡ true
      → let r = (poll_socket P s).1.radio in
        (is_connecting r
          || (online r.m_state || eq_state r.m_state RadioState.socket_cooldown_period))
        ≡ true
  unfolding poll_socket
  poll_socket-connecting s h =
      socket_step-connecting _ (dev_tick P s).1 refl
        (rw (dev_tick-m_state P s, dev_tick-connect_in_progress P s) h)

  -- `poll` returns the state that it leaves.
  pub poll_lem : (s : Sys W) → (poll P s).0 ≡ (poll P s).1.radio.m_state
  unfolding poll
  poll_lem s = refl

  -- A radio at rest stays so, whatever comes in.
  pub poll-at_rest : (s : Sys W) → at_rest s.radio ≡ true → at_rest (poll P s).1.radio ≡ true
  unfolding poll
  poll-at_rest s h =
      elim (Bool-cases (lt_state s.radio.m_state RadioState.socket_cooldown_period)) [
        | inl e ↦ rw (e, poll) (ground (arith, startup_edge (poll_startup-⟶ P s) e))
        | inr e ↦ rw (e, poll) (poll_socket-resting s h)
      ]

  -- A connecting radio goes on, is online, or cools down.
  pub poll-is_connecting :
      (s : Sys W)
      → is_connecting s.radio ≡ true
      → let r = (poll P s).1.radio in
        (is_connecting r
          || (online r.m_state || eq_state r.m_state RadioState.socket_cooldown_period))
        ≡ true
  unfolding poll
  poll-is_connecting s h =
      elim (Bool-cases (lt_state s.radio.m_state RadioState.socket_cooldown_period)) [
        | inl e ↦ ground arith
        | inr e ↦ rw (e, poll) (poll_socket-connecting s h)
      ]

  -- A radio that is online stays so or cools down.
  pub poll-online :
      (s : Sys W)
      → online s.radio.m_state ≡ true
      → let t = (poll P s).1.radio.m_state in
        (online t || eq_state t RadioState.socket_cooldown_period) ≡ true
  poll-online s h = online_edge (poll-⟶ P s) h

  pub send_message-online :
      (message : List ℕ) (len : ℕ) (s : Sys W)
      → online s.radio.m_state ≡ true
      → online (send_message P message len s).1.radio.m_state ≡ true
  unfolding send_message
  send_message-online message len s h = ground arith

  pub reset_socket-at_rest : (s : Sys W) → at_rest (reset_socket P s).1.radio ≡ true
  unfolding reset_socket
  reset_socket-at_rest s = refl

  pub connect-m_state :
      (port : ℕ) (address : List ℕ) (s : Sys W)
      → (connect P port address s).1.radio.m_state ≡ s.radio.m_state
  unfolding connect
  connect-m_state port address s = ground arith

  pub connect-in_progress :
      (port : ℕ) (address : List ℕ) (s : Sys W)
      → (connect P port address s).0 ≡ true
      → (connect P port address s).1.radio.connect_in_progress ≡ true
  unfolding connect
  connect-in_progress port address s h = ground arith
