-- ===== src/Base/Clock.antt =====
-- uint32_t arithmetic as `millis() - start_time` uses it. An int32_t that takes part is kept as its
-- bit pattern, a number below 2 ^ 32.
use Prim.Native.Nat.{ℕ, ◌+◌, ◌-◌, ◌%◌, ◌^◌, ◌<◌}
use mathlib.Core.Path.{◌≡◌}
use mathlib.Core.Bool.{Bool, false}
use native.Mathlib.Omega.{arith}
use xbee_mqtt.Base.Tests.{ltb, if◌then◌else◌, ℤ, pos, negsuc}

abbrev pub u8 : ℕ → ℕ
u8 n = n % 2 ^ 8

abbrev pub u16 : ℕ → ℕ
u16 n = n % 2 ^ 16

abbrev pub u32 : ℕ → ℕ
u32 n = n % 2 ^ 32

-- `now - start` in uint32_t
unfoldable pub elapsed : ℕ → ℕ → ℕ
elapsed now start = (u32 now + 2 ^ 32 - u32 start) % 2 ^ 32

-- The conversion of an int to size_t.
unfoldable pub to_size : ℤ → ℕ
to_size (pos n) = u32 n
to_size (negsuc n) = 2 ^ 32 - 1 - u32 n

-- `a > b` of an int32_t given by its bit pattern and a non-negative constant
abbrev pub signed_gt : ℕ → ℕ → Bool
signed_gt a b = if ltb a (2 ^ 31) then ltb b a else false

-- The clock may wrap between the two readings: the difference is still the time that passed.
pub elapsed-add : (start d : ℕ) → d < 2 ^ 32 → elapsed (u32 (start + d)) (u32 start) ≡ d
unfolding elapsed
elapsed-add start d h = omega arith

pub elapsed-lt : (now start : ℕ) → elapsed now start < 2 ^ 32
unfolding elapsed
elapsed-lt now start = omega arith
