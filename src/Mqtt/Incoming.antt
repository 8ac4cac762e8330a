-- ===== src/Mqtt/Incoming.antt =====
-- What GB4MQTT does with packets from the broker.
use xbee_mqtt.Base.{
  ℕ, zero, suc, ◌+◌, Bool, true, false, List, [], ◌∷◌, none, some, get_elem?, ltb, ◌==◌,
  if◌then◌else◌, ℤ, pos, negsuc, elapsed, Prog, ◌>>=◌, ◌>>◌, pure, get,
}
use xbee_mqtt.Platform.{Platform}
use xbee_mqtt.Radio.Types.{RadioReturn, call}
use xbee_mqtt.Radio.Message.{get_received_message}
use xbee_mqtt.Mqtt.Library.{
  PacketLibrary, MsgType, connack, publish, puback, pubrec, pubcomp, suback, unsuback, pingresp,
  other,
}
use xbee_mqtt.Mqtt.Types.{
  MqttReturn, Fetch, Client, on_mqtt, on_request, radio, gb4mqtt_max_packet_size,
  gb4mqtt_connack_timeout,
}

-- _set_fetch_data
unfoldable pub set_fetch_data : List ℕ → Fetch → Fetch
set_fetch_data d _ = record { source = some d; head = 0 }

-- The loop of _fetch_callback with `n` rounds left: the bytes that it writes to `c[i]`, `c[i + 1]`, ….
-- Past the end of the received bytes it reads what lies `behind` them in memory.
unfoldable pub copy_loop : (ℕ → ℕ) → ℕ → ℕ → ℕ → List ℕ → List ℕ
copy_loop behind zero i head d = []
copy_loop behind (suc n) i head d = elim (get_elem? d (i + head)) [
  | none ↦ behind (i + head) ∷ copy_loop behind n (i + 1) head d
  | some b ↦ b ∷ copy_loop behind n (i + 1) head d
]

-- _fetch_callback: its result, the bytes written to `c`, and the statics.
unfoldable pub fetch_callback : (ℕ → ℕ) → ℕ → Fetch → ℤ × List ℕ × Fetch
unfolding copy_loop
fetch_callback behind len f = elim f.source [
  | none ↦ (negsuc 0, [], f)
  | some d ↦ (pos len, copy_loop behind len 0 f.head d, record f { head = f.head + len })
]

module _ {W : Type 0} (P : Platform W) (L : PacketLibrary) where
  -- GB4MQTT::resetKeepAliveTimer
  unfoldable pub reset_keep_alive_timer : Prog (Client W) (Unit {0})
  reset_keep_alive_timer = do
    now ← radio (call P.millis)
    on_mqtt (λ m. record m { keepalive_period_start_time = now })
    later ← radio (call P.millis)
    on_mqtt (λ m. record m { ping_period_start_time = later })

  unfoldable pub read_packet :
      RadioReturn → List ℕ → ℕ → ℕ → Prog (Client W) (MqttReturn × MsgType × List ℕ × ℕ)
  unfolding set_fetch_data
  read_packet RadioReturn.waiting_message payload payload_len message_len =
      pure (MqttReturn.waiting_message, other, [], message_len)
  read_packet _ payload payload_len message_len = do
    on_mqtt (λ m. record m { fetch = set_fetch_data payload m.fetch })
    fetch ← get (λ c. c.mqtt.fetch)
    let size = if ltb message_len payload_len then message_len else payload_len
    let (type, message, fetch') = L.packet_read (fetch_callback L.byte_behind) size fetch
    on_mqtt (λ m. record m { fetch = fetch' })
    pure (MqttReturn.message_received, type, message, size)

  -- GB4MQTT::pollIncomming with a buffer of `message_len` bytes: the result, the type, the message
  -- and its length.
  unfoldable pub poll_incomming : ℕ → Prog (Client W) (MqttReturn × MsgType × List ℕ × ℕ)
  poll_incomming message_len = do
    (status, payload, payload_len) ← radio (get_received_message gb4mqtt_max_packet_size)
    read_packet status payload payload_len message_len

  -- GB4MQTT::checkConnack
  unfoldable pub check_connack : List ℕ → ℕ → MqttReturn
  check_connack message message_len = elim (L.deserialize_connack message message_len) [
    | none ↦ MqttReturn.connack_error
    | some (_, code) ↦
        if code == L.connection_accepted
        then MqttReturn.got_connack
        else MqttReturn.connack_rejected
  ]

  -- GB4MQTT::checkPuback
  unfoldable pub check_puback : List ℕ → ℕ → Prog (Client W) Bool
  check_puback message message_len = elim (L.deserialize_ack message message_len) [
    | none ↦ pure false
    | some (_, _, id) ↦ do
      r ← get (λ c. c.mqtt.request)
      if r.packet_id == id
          then (do on_request (λ r. record r { got_puback = true }); pure true)
          else pure false
  ]

  -- The `switch` of `dispatchIncomming`.
  unfoldable pub dispatch : MsgType → List ℕ → ℕ → Prog (Client W) MqttReturn
  unfolding check_connack check_puback reset_keep_alive_timer
  dispatch connack message len = do reset_keep_alive_timer; pure (check_connack message len)
  dispatch pingresp message len = do reset_keep_alive_timer; pure MqttReturn.dispatched_ping
  dispatch publish message len = pure L.unassigned_status
  -- `status = PUBACK_MALFORMED` after a failed check is overwritten by the next statement.
  dispatch puback message len = do
    _ ← check_puback message len
    reset_keep_alive_timer
    pure MqttReturn.dispatched_puback
  dispatch pubrec message len = do reset_keep_alive_timer; pure MqttReturn.dispatch_type_error
  dispatch pubcomp message len = do reset_keep_alive_timer; pure MqttReturn.dispatch_type_error
  dispatch suback message len = do reset_keep_alive_timer; pure MqttReturn.dispatch_type_error
  dispatch unsuback message len = do reset_keep_alive_timer; pure MqttReturn.dispatch_type_error
  dispatch other message len = pure MqttReturn.dispatch_type_error

  unfoldable pub dispatch_read : MqttReturn × MsgType × List ℕ × ℕ → Prog (Client W) MqttReturn
  dispatch_read (MqttReturn.waiting_message, _, _, _) = pure MqttReturn.listening
  dispatch_read (_, type, message, len) = dispatch type message len

  -- GB4MQTT::dispatchIncomming
  unfoldable pub dispatch_incomming : Prog (Client W) MqttReturn
  dispatch_incomming = do incoming ← poll_incomming gb4mqtt_max_packet_size; dispatch_read incoming

  unfoldable pub check_timeout : MqttReturn → Prog (Client W) MqttReturn
  check_timeout MqttReturn.got_connack = pure MqttReturn.got_connack
  check_timeout status = do
    now ← radio (call P.millis)
    start ← get (λ c. c.mqtt.connect_start_time)
    pure (
        if ltb gb4mqtt_connack_timeout (elapsed now start)
        then MqttReturn.connack_timeout
        else status)

  -- GB4MQTT::pollConnackStatus
  unfoldable pub poll_connack_status : Prog (Client W) MqttReturn
  poll_connack_status = do status ← dispatch_incomming; check_timeout status
