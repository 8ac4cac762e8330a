-- ===== src/Notify/Codes/TxMesg.antt =====
-- enum class XBeeNotify::TxMesg (xbee_notify.h). A byte is cast to it unchecked, so a value may
-- lie outside the enumerators: the type is that of the underlying integer.
use xbee_mqtt.Base.{ℕ}

abbrev pub TxMesg : Type 0
TxMesg = ℕ

abbrev pub success : TxMesg
success = 0x00

abbrev pub mac_ack_fail : TxMesg
mac_ack_fail = 0x01

abbrev pub cca_fail : TxMesg
cca_fail = 0x02

abbrev pub stack_not_ready : TxMesg
stack_not_ready = 0x03

abbrev pub physical_error : TxMesg
physical_error = 0x04

abbrev pub no_buffers : TxMesg
no_buffers = 0x18

abbrev pub net_ack_fail : TxMesg
net_ack_fail = 0x21

abbrev pub not_joined : TxMesg
not_joined = 0x22

abbrev pub invalid_ep : TxMesg
invalid_ep = 0x2c

abbrev pub internal_error : TxMesg
internal_error = 0x31

abbrev pub resource_error : TxMesg
resource_error = 0x32

abbrev pub no_secure_session : TxMesg
no_secure_session = 0x34

abbrev pub encryption_failure : TxMesg
encryption_failure = 0x35

abbrev pub payload_too_big : TxMesg
payload_too_big = 0x74

abbrev pub unreq_indirect_msg : TxMesg
unreq_indirect_msg = 0x75

abbrev pub socket_creation_fail : TxMesg
socket_creation_fail = 0x76

abbrev pub connection_dne : TxMesg
connection_dne = 0x77

abbrev pub invalid_udp_port : TxMesg
invalid_udp_port = 0x78

abbrev pub invalid_tcp_port : TxMesg
invalid_tcp_port = 0x79

abbrev pub invalid_host_addr : TxMesg
invalid_host_addr = 0x7a

abbrev pub invalid_data_mode : TxMesg
invalid_data_mode = 0x7b

abbrev pub invalid_interface : TxMesg
invalid_interface = 0x7c

abbrev pub interface_blocked : TxMesg
interface_blocked = 0x7d

abbrev pub connection_refused : TxMesg
connection_refused = 0x80

abbrev pub connection_lost : TxMesg
connection_lost = 0x81

abbrev pub no_server : TxMesg
no_server = 0x82

abbrev pub socket_closed : TxMesg
socket_closed = 0x83

abbrev pub unknown_server : TxMesg
unknown_server = 0x84

abbrev pub unknown_error : TxMesg
unknown_error = 0x85

abbrev pub invalid_tls_config : TxMesg
invalid_tls_config = 0x86

abbrev pub key_not_authorized : TxMesg
key_not_authorized = 0xbb
