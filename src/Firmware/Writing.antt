-- ===== src/Firmware/Writing.antt =====
-- Bytes written into the middle of an array.
use Prim.Native.Nat.{min}
use xbee_mqtt.Base.{
  ℕ, ◌+◌, ◌-◌, ◌≤◌, ◌≡◌, ◌∙◌, refl, ap, List, [], ◌∷◌, ◌++◌, length, take, drop, overwrite,
  length-append, length-take, length-drop, length-overwrite, take-append_le, take-append,
  take-append_beyond, take-all, arith,
}
use xbee_mqtt.Firmware.Report.{write_at, snprintf_bytes}

-- What an array holds up to a place in the bytes that were written.
pub take-write_at :
    (i k : ℕ) (bytes dst : List ℕ)
    → i ≤ length dst
    → k ≤ length bytes
    → take (i + k) (write_at i bytes dst) ≡ take i dst ++ take k bytes
unfolding write_at overwrite
take-write_at i k bytes dst h l =
    let rest = drop (length bytes) (drop i dst) in
    let front : i ≡ length (take i dst) = omega (arith, length-take i dst) in
    ap (λ n. take (n + k) (take i dst ++ (bytes ++ rest))) front
    ∙ take-append_beyond k (take i dst) (bytes ++ rest)
    ∙ ap (λ ys. take i dst ++ ys) (take-append_le k bytes rest l)

-- The array keeps its size if the bytes end within it.
pub length-write_at :
    (i : ℕ) (bytes dst : List ℕ)
    → i + length bytes ≤ length dst
    → length (write_at i bytes dst) ≡ length dst
unfolding write_at
length-write_at i bytes dst h = omega (
  arith,
  length-append (take i dst) (overwrite bytes (drop i dst)),
  length-overwrite bytes (drop i dst),
  length-take i dst,
  length-drop i dst,
)

-- Bytes that end behind the array are written all the same.
pub length-write_at_past :
    (i : ℕ) (bytes dst : List ℕ)
    → length dst ≤ i + length bytes
    → i ≤ length dst
    → length (write_at i bytes dst) ≡ i + length bytes
unfolding write_at
length-write_at_past i bytes dst h k = omega (
  arith,
  length-append (take i dst) (overwrite bytes (drop i dst)),
  length-overwrite bytes (drop i dst),
  length-take i dst,
  length-drop i dst,
)

-- A text shorter than the limit is written whole.
pub take-snprintf_bytes :
    (n : ℕ) (text : List ℕ)
    → length text + 1 ≤ n
    → take (length text) (snprintf_bytes n text) ≡ text
unfolding snprintf_bytes
take-snprintf_bytes n text h =
    rw (take-all text (n - 1) (omega arith)) (take-append text (0 ∷ []) (length text) refl)

pub length-snprintf_bytes :
    (n : ℕ) (text : List ℕ) → length (snprintf_bytes n text) ≡ min (n - 1) (length text) + 1
unfolding snprintf_bytes
length-snprintf_bytes n text =
    omega (arith, length-append (take (n - 1) text) (0 ∷ []), length-take (n - 1) text)
