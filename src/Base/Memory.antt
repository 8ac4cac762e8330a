-- ===== src/Base/Memory.antt =====
-- The functions of <cstring> that the sources call, on arrays of bytes as lists. An array that is
-- longer after a write than before has been overrun.
use Prim.Native.Nat.{ℕ, zero, suc, max}
use mathlib.Core.Path.{◌≡◌, refl}
use mathlib.Core.Bool.{Bool, true, false, ◌&&◌}
use mathlib.Core.List.{List, [], ◌∷◌, ◌++◌}
use native.Mathlib.Omega.{arith}
use xbee_mqtt.Base.Tests.{◌==◌, if◌then◌else◌}
use xbee_mqtt.Base.Lists.{length, drop, replicate, length-append, length-drop, length-replicate}

-- The n bytes that `strncpy(dst, src, n)` writes: `src` up to its NUL, then NULs.
unfoldable pub strncpy_bytes : ℕ → List ℕ → List ℕ
strncpy_bytes zero src = []
strncpy_bytes (suc n) [] = replicate (suc n) 0
strncpy_bytes (suc n) (c ∷ src) = if c == 0 then replicate (suc n) 0 else c ∷ strncpy_bytes n src

-- `bytes` written over the front of the array `dst`
unfoldable pub overwrite : List ℕ → List ℕ → List ℕ
overwrite bytes dst = bytes ++ drop (length bytes) dst

-- `0 == memcmp(a, b, n)`. Bytes past the end of either array differ from all others.
unfoldable pub memcmp_eq : ℕ → List ℕ → List ℕ → Bool
memcmp_eq zero a b = true
memcmp_eq (suc n) [] b = false
memcmp_eq (suc n) (x ∷ a) [] = false
memcmp_eq (suc n) (x ∷ a) (y ∷ b) = x == y && memcmp_eq n a b

pub length-strncpy_bytes : (n : ℕ) (src : List ℕ) → length (strncpy_bytes n src) ≡ n
unfolding strncpy_bytes
length-strncpy_bytes zero src = refl
length-strncpy_bytes (suc n) [] = length-replicate {A = ℕ} (suc n) 0
length-strncpy_bytes (suc n) (c ∷ src) =
    ground (arith, length-replicate {A = ℕ} n 0, length-strncpy_bytes n src)

pub length-overwrite :
    (bytes dst : List ℕ) → length (overwrite bytes dst) ≡ max (length bytes) (length dst)
unfolding overwrite
length-overwrite bytes dst =
    omega (arith, length-append bytes (drop (length bytes) dst), length-drop (length bytes) dst)
