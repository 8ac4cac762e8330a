-- ===== src/Notify/Codes/FrameType.antt =====
-- enum class XBeeNotify::FrameType (xbee_notify.h). A byte is cast to it unchecked, so a value may
-- lie outside the enumerators: the type is that of the underlying integer.
use xbee_mqtt.Base.{ℕ}

abbrev pub FrameType : Type 0
FrameType = ℕ

abbrev pub none : FrameType
none = 0x00

abbrev pub tx_status : FrameType
tx_status = 0x89

abbrev pub sock_option_resp : FrameType
sock_option_resp = 0xc1

abbrev pub sock_create_resp : FrameType
sock_create_resp = 0xc0

abbrev pub sock_connect_resp : FrameType
sock_connect_resp = 0xc2

abbrev pub sock_close_resp : FrameType
sock_close_resp = 0xc3

abbrev pub sock_listen_resp : FrameType
sock_listen_resp = 0xc6

abbrev pub sock_receive : FrameType
sock_receive = 0xcd

abbrev pub sock_receive_from : FrameType
sock_receive_from = 0xce

abbrev pub sock_state : FrameType
sock_state = 0xcf
