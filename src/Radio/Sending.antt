-- ===== src/Radio/Sending.antt =====
-- GB4XBee::sendMessage on every branch.
use xbee_mqtt.Base.{ℕ, ◌≡◌, ◌↔◌, true, if◌then◌else◌, List, arith, ℤ, pos, is_zero}
use xbee_mqtt.Platform.{Platform}
use xbee_mqtt.Radio.Types.{RadioState, RadioReturn, Sys, eq_state}
use xbee_mqtt.Radio.Message.{send_status, send_message}

module _ {W : Type 0} (P : Platform W) (message : List ℕ) (len : ℕ) (s : Sys W) where
  abbrev sock_result : ℤ × W
  sock_result = P.sock_send s.radio.sock 0 message len s.world

  -- The members and the world after the driver was asked, with its timer started if it took the
  -- message.
  abbrev pub after_sock_send : Sys W
  after_sock_send =
      if is_zero sock_result.0
      then (record s {
        radio = record s.radio {
          m_state = RadioState.sending;
          send_start_time = (P.millis sock_result.1).0;
        };
        world = (P.millis sock_result.1).1;
      })
      else (record s { world = sock_result.1 })

  pub connected-send_message :
      s.radio.m_state ≡ RadioState.connected
      → is_zero sock_result.0 ≡ true
      → (send_message P message len s).0 ≡ RadioReturn.message_sent
  unfolding send_message
  connected-send_message h k = ground arith

  -- `sendMessage` returns MESSAGE_SENT exactly if the radio is CONNECTED and the driver takes the
  -- message. In any other state it changes nothing, neither the members of the radio nor the world
  -- behind the driver; in CONNECTED it asks the driver once, and if the driver takes the message the
  -- radio is SENDING, its send timer at the reading of the clock after that call, and otherwise the
  -- members are as they were.
  pub send_message_lem :
      let (result, s') = send_message P message len s in
      ((result ≡ RadioReturn.message_sent)
        ↔ ((s.radio.m_state ≡ RadioState.connected) × (sock_result.0 ≡ pos 0)))
      × (s' ≡ (if eq_state s.radio.m_state RadioState.connected then after_sock_send else s))
  unfolding send_message send_status
  send_message_lem = ((λ h. ground arith, λ (h, k). ground arith), ground arith)
