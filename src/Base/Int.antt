-- ===== src/Base/Int.antt =====
-- The arithmetic of C's `int`: sums, differences, the division that cuts towards zero, and the number
-- that a 32-bit pattern stands for.
use Prim.Native.Nat.{ℕ, suc, ◌+◌, ◌-◌, ◌/◌, ◌%◌, ◌^◌}
use xbee_mqtt.Base.Tests.{ltb, leb, if◌then◌else◌, ℤ, pos, negsuc}
use xbee_mqtt.Base.Clock.{u32}

abbrev pub pos_part : ℤ → ℕ
pos_part (pos n) = n
pos_part (negsuc n) = 0

abbrev pub neg_part : ℤ → ℕ
neg_part (pos n) = 0
neg_part (negsuc n) = suc n

-- a - b, as an integer.
abbrev pub sub_ℕ : ℕ → ℕ → ℤ
sub_ℕ a b = if leb b a then pos (a - b) else negsuc (b - a - 1)

infixl 65 ◌+ℤ◌ ◌-ℤ◌
infixl 70 ◌/ℤ◌
unfoldable pub ◌+ℤ◌ : ℤ → ℤ → ℤ
a +ℤ b = sub_ℕ (pos_part a + pos_part b) (neg_part a + neg_part b)

unfoldable pub ◌-ℤ◌ : ℤ → ℤ → ℤ
a -ℤ b = sub_ℕ (pos_part a + neg_part b) (neg_part a + pos_part b)

-- `a / n` for a positive constant.
unfoldable pub ◌/ℤ◌ : ℤ → ℕ → ℤ
(pos a) /ℤ n = pos (a / n)
(negsuc a) /ℤ n = sub_ℕ 0 (suc a / n)

-- The int32_t of a bit pattern.
unfoldable pub int32 : ℕ → ℤ
int32 n = if ltb (u32 n) (2 ^ 31) then pos (u32 n) else negsuc (2 ^ 32 - 1 - u32 n)

-- The int16_t that an int is converted to.
abbrev pub of_16_bits : ℕ → ℤ
of_16_bits k = if ltb k (2 ^ 15) then pos k else negsuc (2 ^ 16 - 1 - k)

unfoldable pub int16 : ℤ → ℤ
int16 (pos n) = of_16_bits (n % 2 ^ 16)
int16 (negsuc n) = of_16_bits (2 ^ 16 - 1 - n % 2 ^ 16)
