-- ===== src/Notify/Laws.antt =====
-- What the two objects of xbee_notify.cpp promise the state machine.
use Prim.Native.Nat.{min}
use xbee_mqtt.Base.{
  ℕ, ◌+◌, ◌^◌, ◌≤◌, ◌<◌, ◌≡◌, refl, Bool, false, ◌||◌, ◌==◌, if◌then◌else◌, List, [], ◌∷◌, arith,
  length, take, ℤ, u32, overwrite, take-append_le, ◌∙◌, take-take, length-take,
}
use xbee_mqtt.Notify.{Notify, callback}
use xbee_mqtt.Notify.Codes.FrameType
use xbee_mqtt.Notify.Receive.{Receive, new_receive, message_payload_size, read, write, pending}

-- The four frame types that are counted.
abbrev pub is_counted : ℕ → Bool
is_counted t =
    t == FrameType.tx_status
    || (t == FrameType.sock_create_resp
        || (t == FrameType.sock_connect_resp || t == FrameType.sock_state))

-- A frame of a counted type raises the count by one, modulo 2 ^ 32; any other leaves it alone. Both
-- kinds replace the socket and the type of the last notification.
pub callback-m_count :
    (sock : ℤ) (t message : ℕ) (n : Notify)
    → ((callback sock t message n).m_count
        ≡ (if is_counted t then u32 (n.m_count + 1) else n.m_count))
      × ((callback sock t message n).type ≡ t)
      × ((callback sock t message n).socket ≡ sock)
unfolding callback
callback-m_count sock t message n = ground arith

-- The status byte of a frame is kept in the field for its type, and the other two stay.
pub callback-message :
    (sock : ℤ) (t message : ℕ) (n : Notify)
    → let m = callback sock t message n in
      (m.tx_mesg ≡ (if t == FrameType.tx_status then message else n.tx_mesg))
      × (m.sock_mesg ≡ (
          if t == FrameType.sock_create_resp || t == FrameType.sock_connect_resp
          then message
          else n.sock_mesg))
      × (m.state_mesg ≡ (if t == FrameType.sock_state then message else n.state_mesg))
unfolding callback
callback-message sock t message n = ground arith

front_of_overwrite :
    (bytes payload : List ℕ) (k m : ℕ)
    → k ≤ m
    → m ≤ length bytes
    → take k (overwrite (take m bytes) payload) ≡ take k bytes
unfolding overwrite
front_of_overwrite bytes payload k m h l =
    take-append_le k (take m bytes) _ (omega (arith, length-take m bytes)) ∙ take-take k m bytes h

-- Reading what was just written gives the front of the message, cut to the 300 bytes of the buffer
-- and to the reader's length, and how many bytes that is; and the message is no longer pending.
pub read-write :
    (bytes : List ℕ) (len : ℕ) (r : Receive)
    → let ((out, n), r') = read len (write bytes r) in
      (n ≡ min (min message_payload_size (length bytes)) len)
      × (out ≡ take n bytes)
      × (pending r' ≡ false)
unfolding read write
read-write bytes len r =
    (ground arith, front_of_overwrite bytes r.m_payload _ _ (ground arith) (ground arith), refl)

-- What the environment and the reader do to the buffer, in some order.
pub data Use : Type 0 where
  writes : List ℕ → Use
  reads : ℕ → Use

abbrev pub apply : Use → Receive → Receive
apply (writes bytes) r = write bytes r
apply (reads len) r = (read len r).1

-- The buffer after the uses, first to last.
unfoldable pub apply_all : List Use → Receive → Receive
apply_all [] r = r
apply_all (u ∷ us) r = apply_all us (apply u r)

-- How many reads found a pending message.
unfoldable pub delivered : List Use → Receive → ℕ
delivered [] r = 0
delivered (writes bytes ∷ us) r = delivered us (write bytes r)
delivered (reads len ∷ us) r = (if r.m_pending then 1 else 0) + delivered us ((read len r).1)

abbrev pub waiting : Receive → ℕ
waiting r = if r.m_pending then 1 else 0

accounted_from :
    (us : List Use) (r : Receive)
    → r.m_count + length us < 2 ^ 32
    → r.m_dropped_count + length us < 2 ^ 32
    → let r' = apply_all us r in
      r'.m_count + r.m_dropped_count + waiting r
      ≡ r.m_count + delivered us r + r'.m_dropped_count + waiting r'
unfolding apply_all delivered read write
accounted_from [] r h k = omega arith
accounted_from (writes bytes ∷ us) r h k = ground (arith, accounted_from us (write bytes r))
accounted_from (reads len ∷ us) r h k = ground (arith, accounted_from us ((read len r).1))

-- After fewer than 2 ^ 32 writes and reads of a new buffer, in any order, the messages counted are
-- those that a read found pending, those counted as dropped, and the one that is still pending.
pub accounted :
    (us : List Use) (raw : ℤ)
    → length us < 2 ^ 32
    → let r = apply_all us (new_receive raw) in
      r.m_count ≡ delivered us (new_receive raw) + r.m_dropped_count + waiting r
unfolding new_receive
accounted us raw h = omega (arith, accounted_from us (new_receive raw))
