-- ===== src/Mqtt/Library.antt =====
-- What GB4MQTT calls of paho.mqtt.embedded-c (MQTTPacket.h), as parameters: pure functions of their
-- arguments, `packet_read` with the callback that fetches its bytes.
use xbee_mqtt.Base.{ℕ, List, Option, ℤ}
use xbee_mqtt.Mqtt.Types.{Fetch, MqttReturn}

-- The members of MQTTPacket_connectData that the code sets.
pub record ConnectData : Type 0 where
  pub client_id : List ℕ
  pub username : List ℕ
  pub password : List ℕ
  pub keep_alive_interval : ℕ
  pub clean_session : ℕ

pub record PublishData : Type 0 where
  pub dup : ℕ
  pub qos : ℕ
  pub retained : ℕ
  pub packet_id : ℕ
  pub topic : List ℕ
  pub payload : List ℕ
  pub payload_len : ℕ

-- enum msgTypes; `other` is every value that the code does not name.
pub data MsgType : Type 0 where
  connack publish puback pubrec pubcomp suback unsuback pingresp other : MsgType

pub record PacketLibrary : Type 0 where
  -- The buffer's size; what is returned, and the buffer after the call.
  pub serialize_connect : ℕ → ConnectData → ℤ × List ℕ
  pub serialize_pingreq : ℕ → ℤ × List ℕ
  pub serialize_publish : ℕ → PublishData → ℤ × List ℕ
  -- `none` where 0 is returned; else the session flag and the return code.
  pub deserialize_connack : List ℕ → ℕ → Option (ℕ × ℕ)
  -- `none` where 0 is returned; else the packet type, the dup flag and the packet id.
  pub deserialize_ack : List ℕ → ℕ → Option (ℕ × ℕ × ℕ)
  pub connection_accepted : ℕ
  -- The callback gives its result, the bytes and the new statics; then the size of the buffer. The
  -- result is the packet type, the buffer after the call and the statics.
  pub packet_read : (ℕ → Fetch → ℤ × List ℕ × Fetch) → ℕ → Fetch → MsgType × List ℕ × Fetch
  -- Not the library's: the byte that memory holds at an index of `_fetch_data` that no received byte
  -- has.
  pub byte_behind : ℕ → ℕ
  -- Not the library's: the value that the uninitialized local `status` of `dispatchIncomming` holds
  -- on the target, which is as arbitrary.
  pub unassigned_status : MqttReturn
