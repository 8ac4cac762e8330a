-- ===== src/Radio/Evidence.antt =====
-- What the radio has seen when it changes state: a connection rests on the notifications that report
-- it.
use xbee_mqtt.Base.{◌≡◌, refl, sym, ◌∙◌, ◌≢◌, true, false, arith, inl, inr, Bool-cases}
use xbee_mqtt.Platform.{Platform}
use xbee_mqtt.Radio.Types.{RadioState, Sys, lt_state}
use xbee_mqtt.Radio.Timers.{reset_socket, poll_socket_cooldown}
use xbee_mqtt.Radio.Commands.{dev_tick}
use xbee_mqtt.Radio.Socket.{connection_made, send_socket_create, socket_step, poll_socket, poll}
use xbee_mqtt.Radio.Frame.{dev_tick-m_state, poll_early, poll_late}
use xbee_mqtt.Radio.Graph.{poll_startup-⟶}
use xbee_mqtt.Radio.Phases.{online, startup_edge}

module _ {W : Type 0} (P : Platform W) where
  socket_step_connects :
      (st : RadioState) (s : Sys W)
      → s.radio.m_state ≡ st
      → online st ≡ false
      → online (socket_step P st s).1.radio.m_state ≡ true
      → (st ≡ RadioState.await_connection)
        × (s.notify.m_count ≢ s.radio.notify_count)
        × (connection_made s.notify ≡ true)
  unfolding socket_step reset_socket poll_socket_cooldown send_socket_create
  socket_step_connects RadioState.start s h o k = ground arith
  socket_step_connects _ s h o k = ground arith

  poll_socket-online :
      (s : Sys W)
      → online (poll_socket P s).1.radio.m_state ≡ true
      → online (socket_step P (dev_tick P s).1.radio.m_state (dev_tick P s).1).1.radio.m_state
        ≡ true
  unfolding poll_socket
  poll_socket-online s h = h

  -- A poll brings the radio online only from AWAIT_CONNECTION, and only on a new notification that
  -- is a Socket State frame reporting CONNECTED.
  pub poll_connects :
      (s : Sys W)
      → online s.radio.m_state ≡ false
      → online (poll P s).1.radio.m_state ≡ true
      → let seen = (dev_tick P s).1 in
        (s.radio.m_state ≡ RadioState.await_connection)
        × (seen.notify.m_count ≢ seen.radio.notify_count)
        × (connection_made seen.notify ≡ true)
  poll_connects s o h =
      elim (Bool-cases (lt_state s.radio.m_state RadioState.socket_cooldown_period)) [
        | inl e ↦ ground (arith, poll_early P s e, startup_edge (poll_startup-⟶ P s) e)
        | inr e ↦
            let (at, new, made) =
              socket_step_connects _ (dev_tick P s).1 refl (rw (dev_tick-m_state P s) o)
                (poll_socket-online s (rw (poll_late P s e) at h)) in
            (sym (dev_tick-m_state P s) ∙ at, new, made)
      ]
