-- ===== src/Notify/Receive.antt =====
-- class XBeeReceive: the one-message buffer between the socket's receive callback and the reader.
use xbee_mqtt.Base.{
  ℕ, ◌+◌, Bool, true, false, List, ltb, if◌then◌else◌, length, take, replicate, overwrite, ℤ, u32,
}

abbrev pub message_payload_size : ℕ
message_payload_size = 300

pub record Receive : Type 0 where
  pub socket : ℤ
  pub m_count : ℕ
  pub m_dropped_count : ℕ
  pub m_pending : Bool
  pub m_payload_len : ℕ
  pub m_payload : List ℕ

-- The constructor; `socket` has no initializer.
unfoldable pub new_receive : ℤ → Receive
new_receive raw_socket = record {
  socket = raw_socket;
  m_count = 0;
  m_dropped_count = 0;
  m_pending = false;
  m_payload_len = 0;
  m_payload = replicate message_payload_size 0;
}

abbrev pub pending : Receive → Bool
pending r = r.m_pending

-- `XBeeReceive::read` with a buffer of `len` bytes: the bytes copied and their number.
unfoldable pub read : ℕ → Receive → (List ℕ × ℕ) × Receive
read len r =
    let n = if ltb r.m_payload_len len then r.m_payload_len else len in
    ((take n r.m_payload, n), record r { m_pending = false })

-- XBeeReceive::write. `len` is the length of `buffer`.
unfoldable pub write : List ℕ → Receive → Receive
write buffer r =
    let len = length buffer in
    let n = if ltb message_payload_size len then message_payload_size else len in
    record r {
      m_dropped_count = if r.m_pending then u32 (r.m_dropped_count + 1) else r.m_dropped_count;
      m_payload_len = n;
      m_payload = overwrite (take n buffer) r.m_payload;
      m_count = u32 (r.m_count + 1);
      m_pending = true;
    }

-- XBeeReceive::callback
unfoldable pub receive_callback : ℤ → ℕ → List ℕ → Receive → Receive
unfolding write
receive_callback sock status payload r = write payload (record r { socket = sock })
