-- ===== src/Notify/Codes/StateMesg.antt =====
-- enum class XBeeNotify::StateMesg (xbee_notify.h). A byte is cast to it unchecked, so a value may
-- lie outside the enumerators: the type is that of the underlying integer.
use xbee_mqtt.Base.{ℕ}

abbrev pub StateMesg : Type 0
StateMesg = ℕ

abbrev pub connected : StateMesg
connected = 0x00

abbrev pub dns_failed : StateMesg
dns_failed = 0x01

abbrev pub connection_refused : StateMesg
connection_refused = 0x02

abbrev pub transport_closed : StateMesg
transport_closed = 0x03

abbrev pub timed_out : StateMesg
timed_out = 0x04

abbrev pub internal_err : StateMesg
internal_err = 0x05

abbrev pub host_unreachable : StateMesg
host_unreachable = 0x06

abbrev pub connection_lost : StateMesg
connection_lost = 0x07

abbrev pub unknown_err : StateMesg
unknown_err = 0x08

abbrev pub unknown_server : StateMesg
unknown_server = 0x09

abbrev pub resource_err : StateMesg
resource_err = 0x0a

abbrev pub listener_closed : StateMesg
listener_closed = 0x0b
