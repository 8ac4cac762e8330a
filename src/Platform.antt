-- ===== src/Platform.antt =====
-- What the firmware calls and does not implement: the Arduino core (`millis`, `Serial`), the XBee
-- driver (xbee_ansic_library) and the serializer paho.mqtt.embedded-c. Their state, with that of the
-- device and the network, is a `World`; each call is a parameter that moves the world on and says
-- what the call returned. The driver runs the registered callbacks within `xbee_dev_tick`: they come
-- back as a list of events, in the order in which they were made.
use xbee_mqtt.Base.{ℕ, List, ℤ}

pub data Event : Type 0 where
  -- XBeeNotify::callback(sockid, frame_type, message)
  notified : ℤ → ℕ → ℕ → Event
  -- XBeeReceive::callback(sock, status, payload, payload_length)
  received : ℤ → ℕ → List ℕ → Event
  -- The callback of an AT command: the word `cast_guard` that stands at the response's context
  -- pointer, and the value.
  at_response : ℕ → List ℕ → Event

pub record Platform (World : Type 0) : Type 0 where
  pub millis : World → ℕ × World
  pub serial_write : List ℕ → World → World
  pub serial_available : World → ℕ × World
  -- `Serial.readBytes(buffer, n)`: the bytes that it wrote to the buffer
  pub serial_read_bytes : ℕ → World → List ℕ × World
  -- Not the core's: the 7 bytes that the local array `ok_buffer` of `pollResponseOK` holds before it is
  -- read into.
  pub stale_ok_buffer : World → List ℕ
  pub dev_init : World → ℤ × World
  pub dev_tick : World → List Event × World
  pub cmd_init_device : World → World
  pub cmd_query_device : World → World
  pub cmd_query_status : World → ℤ × World
  pub cmd_create : List ℕ → World → ℤ × World
  -- The callback is always `readAPNCallback`, its context the radio.
  pub cmd_set_callback : ℤ → World → World
  pub cmd_set_param_str : ℤ → List ℕ → World → ℤ × World
  pub cmd_send : ℤ → World → ℤ × World
  pub sock_reset : World → World
  pub protocol_tcp : ℕ
  pub protocol_ssl : ℕ
  pub sock_create : ℕ → World → ℤ × World
  -- socket, remote port, local port, address
  pub sock_connect : ℤ → ℕ → ℕ → List ℕ → World → ℤ × World
  -- socket, options, payload, its length
  pub sock_send : ℤ → ℕ → List ℕ → ℕ → World → ℤ × World
  -- The two words of `xbee.wpan_dev.address.ieee`.
  pub ieee_address : World → ℕ × ℕ

-- The error numbers of <errno.h> on the target (newlib).
abbrev pub enoent : ℕ
enoent = 2

abbrev pub ebusy : ℕ
ebusy = 16

abbrev pub emsgsize : ℕ
emsgsize = 122
