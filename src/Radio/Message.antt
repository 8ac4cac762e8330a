-- ===== src/Radio/Message.antt =====
-- GB4XBee::sendMessage and GB4XBee::getReceivedMessage.
use xbee_mqtt.Base.{
  ℕ, ◌+◌, zero, suc, List, [], ◌==◌, if◌then◌else◌, ℤ, pos, negsuc, Prog, ◌>>=◌, ◌>>◌, pure, get,
}
use xbee_mqtt.Notify.Receive.{pending, read}
use xbee_mqtt.Platform.{Platform, enoent, ebusy, emsgsize}
use xbee_mqtt.Radio.Types.{RadioState, RadioReturn, Sys, on_radio, call}

-- The `switch` of `sendMessage` on what `xbee_sock_send` returned.
unfoldable pub send_status : ℤ → RadioReturn
send_status (pos zero) = RadioReturn.message_sent
send_status (pos (suc _)) = RadioReturn.socket_error
send_status (negsuc n) =
    if n + 1 == enoent
    then RadioReturn.disconnected
    else if n + 1 == ebusy
    then RadioReturn.buffer_full
    else if n + 1 == emsgsize
    then RadioReturn.packet_error
    else RadioReturn.socket_error

module _ {W : Type 0} (P : Platform W) where
  -- What `sendMessage` does besides choosing its result.
  after_send : RadioReturn → Prog (Sys W) RadioReturn
  after_send RadioReturn.message_sent = do
    now ← call P.millis
    on_radio (λ r. record r { send_start_time = now; m_state = RadioState.sending })
    pure RadioReturn.message_sent
  after_send status = pure status

  send_in : RadioState → List ℕ → ℕ → Prog (Sys W) RadioReturn
  unfolding after_send send_status
  send_in RadioState.sending message len = pure RadioReturn.in_progress
  send_in RadioState.connected message len = do
    sock ← get (λ s. s.radio.sock)
    send_ok ← call (P.sock_send sock 0 message len)
    after_send (send_status send_ok)
  send_in _ message len = pure RadioReturn.disconnected

  -- GB4XBee::sendMessage
  unfoldable pub send_message : List ℕ → ℕ → Prog (Sys W) RadioReturn
  unfolding send_in
  send_message message len = do st ← get (λ s. s.radio.m_state); send_in st message len

-- GB4XBee::getReceivedMessage with a buffer of `len` bytes: the status, the bytes written to the
-- buffer and the new `*message_len`.
module _ {W : Type 0} where
  unfoldable pub get_received_message : ℕ → Prog (Sys W) (RadioReturn × List ℕ × ℕ)
  unfolding read
  get_received_message len s =
      if pending s.receive
      then (let ((bytes, n), receive) = read len s.receive in
          ((RadioReturn.message_received, bytes, n), record s { receive = receive }))
      else ((RadioReturn.waiting_message, [], len), s)
