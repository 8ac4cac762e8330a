-- ===== src/Notify.antt =====
-- xbee_notify.h and xbee_notify.cpp: the two global objects that the XBee driver's callbacks fill
-- and that the state machine of `GB4XBee` reads after `xbee_dev_tick`.
pub mod Codes
pub mod Receive
pub mod Laws
use xbee_mqtt.Base.{ℕ, ◌+◌, ◌||◌, ◌==◌, if◌then◌else◌, ℤ, u32}
use Codes.FrameType
use Codes.FrameType.{FrameType}
use Codes.TxMesg
use Codes.TxMesg.{TxMesg}
use Codes.SockMesg
use Codes.SockMesg.{SockMesg}
use Codes.StateMesg
use Codes.StateMesg.{StateMesg}

-- class XBeeNotify
pub record Notify : Type 0 where
  pub socket : ℤ
  pub type : FrameType
  pub tx_mesg : TxMesg
  pub sock_mesg : SockMesg
  pub state_mesg : StateMesg
  pub m_count : ℕ

-- The constructor; `socket` has no initializer and keeps what memory held.
unfoldable pub new_notify : ℤ → Notify
new_notify raw_socket = record {
  socket = raw_socket;
  type = FrameType.none;
  tx_mesg = TxMesg.success;
  sock_mesg = SockMesg.success;
  state_mesg = StateMesg.connected;
  m_count = 0;
}

unfoldable pub count_up : Notify → Notify
count_up n = record n { m_count = u32 (n.m_count + 1) }

abbrev pub count : Notify → ℕ
count n = n.m_count

-- `XBeeNotify::reset`, with the count that it returns
unfoldable pub reset : Notify → ℕ × Notify
reset n = (0, record n { m_count = 0 })

-- XBeeNotify::callback. A frame of another type is recorded in `type`, and not counted.
unfoldable pub callback : ℤ → ℕ → ℕ → Notify → Notify
unfolding count_up
callback sockid frame_type message n0 =
    let n = record n0 { socket = sockid; type = frame_type } in
    if frame_type == FrameType.tx_status
    then count_up (record n { tx_mesg = message })
    else if frame_type == FrameType.sock_create_resp || frame_type == FrameType.sock_connect_resp
    then count_up (record n { sock_mesg = message })
    else if frame_type == FrameType.sock_state
    then count_up (record n { state_mesg = message })
    else n
