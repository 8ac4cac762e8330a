-- ===== src/Mqtt/Requests.antt =====
-- GB4MQTT::publish: what is stored, and which packet ids the requests get.
use xbee_mqtt.Base.{
  ℕ, ◌+◌, ◌%◌, ◌≤◌, ◌<◌, ◌≡◌, ◌∙◌, Bool, List, [], ◌∷◌, arith, length, take, drop, overwrite,
  strncpy_bytes, length-overwrite, length-strncpy_bytes, length-take, take-append, u16,
}
use xbee_mqtt.Platform.{Platform}
use xbee_mqtt.Mqtt.Types.{MqttRequest, Client, topic_max_size, message_max_size}
use xbee_mqtt.Mqtt.Client.{publish}

-- A call of `publish`.
pub record Message : Type 0 where
  pub topic : List ℕ
  pub topic_len : ℕ
  pub payload : List ℕ
  pub payload_len : ℕ
  pub qos : ℕ
  pub disconnect : Bool

-- The two arrays of a request have their declared sizes.
pub record IsSized (r : MqttRequest) : Type 0 where
  pub topic : length r.topic ≡ topic_max_size
  pub message : length r.message ≡ message_max_size

take-overwrite :
    (bytes dst : List ℕ) (n : ℕ) → length bytes ≡ n → take n (overwrite bytes dst) ≡ bytes
unfolding overwrite
take-overwrite bytes dst n h = take-append bytes (drop (length bytes) dst) n h

module _ {W : Type 0} (P : Platform W) where
  abbrev pub publish_message : Message → Client W → Client W
  publish_message m c =
      (publish P m.topic m.topic_len m.payload m.payload_len m.qos m.disconnect c).1

  -- Where the two lengths are at most those of the arrays and the payload has `payload_len` bytes,
  -- both arrays keep their sizes and begin with the topic (as strncpy copies it) and the payload. The
  -- packet id is the counter modulo 256, so that every 256th is 0, and the counter moves on by one
  -- modulo 65536.
  pub publish-stores :
      (m : Message) (c : Client W)
      → IsSized c.mqtt.request
      → m.topic_len ≤ topic_max_size
      → m.payload_len ≤ message_max_size
      → m.payload_len ≤ length m.payload
      → let r = (publish_message m c).mqtt.request in
        IsSized r
        × (take m.topic_len r.topic ≡ strncpy_bytes m.topic_len m.topic)
        × (take m.payload_len r.message ≡ take m.payload_len m.payload)
        × (r.packet_id ≡ c.mqtt.packet_id.packet_id % 256)
        × ((publish_message m c).mqtt.packet_id.packet_id
            ≡ (c.mqtt.packet_id.packet_id + 1) % 65536)
  unfolding publish
  publish-stores m c s t p l = (
    record {
      topic = omega (
        arith,
        length-overwrite (strncpy_bytes m.topic_len m.topic) c.mqtt.request.topic,
        length-strncpy_bytes m.topic_len m.topic,
        s.topic,
      );
      message = omega (
        arith,
        length-overwrite (take m.payload_len m.payload) c.mqtt.request.message,
        length-take m.payload_len m.payload,
        s.message,
      );
    },
    take-overwrite _ c.mqtt.request.topic m.topic_len (length-strncpy_bytes m.topic_len m.topic),
    take-overwrite _ c.mqtt.request.message m.payload_len
        (omega (arith, length-take m.payload_len m.payload)),
    omega arith,
    omega arith,
  )

  -- A topic whose stated length is above that of its array is written past the end of the array: the
  -- lengths are not checked.
  pub publish_topic_overrun :
      (m : Message) (c : Client W)
      → topic_max_size < m.topic_len
      → topic_max_size < length (publish_message m c).mqtt.request.topic
  unfolding publish
  publish_topic_overrun m c h = omega (
    arith,
    length-overwrite (strncpy_bytes m.topic_len m.topic) c.mqtt.request.topic,
    length-strncpy_bytes m.topic_len m.topic,
  )

  -- So is a message that is longer than its array.
  pub publish_message_overrun :
      (m : Message) (c : Client W)
      → message_max_size < m.payload_len
      → m.payload_len ≤ length m.payload
      → message_max_size < length (publish_message m c).mqtt.request.message
  unfolding publish
  publish_message_overrun m c h l = omega (
    arith,
    length-overwrite (take m.payload_len m.payload) c.mqtt.request.message,
    length-take m.payload_len m.payload,
  )

  pub publish_all : List Message → Client W → Client W
  publish_all [] c = c
  publish_all (m ∷ ms) c = publish_all ms (publish_message m c)

  publish_ids_from :
      (ms : List Message) (m : Message) (k : ℕ) (c : Client W)
      → c.mqtt.packet_id.packet_id ≡ u16 (k + 1)
      → (publish_all (m ∷ ms) c).mqtt.request.packet_id ≡ (k + length (m ∷ ms)) % 256
  unfolding publish_all publish
  publish_ids_from [] m k c e = ground arith
  publish_ids_from (m' ∷ ms) m k c e =
      publish_ids_from ms m' (k + 1) (publish_message m c) (ground arith) ∙ ground arith

  -- From a packet counter of 1, which a new client has, the n-th of n calls of `publish` in a row gets
  -- the packet id n modulo 256: the ids repeat after 256 requests, and every 256th is 0.
  pub publish_ids :
      (m : Message) (ms : List Message) (c : Client W)
      → c.mqtt.packet_id.packet_id ≡ 1
      → (publish_all (m ∷ ms) c).mqtt.request.packet_id ≡ length (m ∷ ms) % 256
  publish_ids m ms c e = publish_ids_from ms m 0 c (ground arith) ∙ ground arith
