-- ===== src/Notify/Codes/SockMesg.antt =====
-- enum class XBeeNotify::SockMesg (xbee_notify.h). A byte is cast to it unchecked, so a value may
-- lie outside the enumerators: the type is that of the underlying integer.
use xbee_mqtt.Base.{ℕ}

abbrev pub SockMesg : Type 0
SockMesg = ℕ

abbrev pub success : SockMesg
success = 0x00

abbrev pub invalid_param : SockMesg
invalid_param = 0x01

abbrev pub failed_to_read : SockMesg
failed_to_read = 0x02

abbrev pub in_progress : SockMesg
in_progress = 0x03

abbrev pub connected : SockMesg
connected = 0x04

abbrev pub unknown : SockMesg
unknown = 0x05

abbrev pub bad_socket : SockMesg
bad_socket = 0x20

abbrev pub offline : SockMesg
offline = 0x22

abbrev pub internal_err : SockMesg
internal_err = 0x31

abbrev pub resource_err : SockMesg
resource_err = 0x32

abbrev pub bad_protocol : SockMesg
bad_protocol = 0x7b
