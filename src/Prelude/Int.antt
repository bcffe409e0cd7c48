-- ===== src/Prelude/Int.antt =====
-- Signed 64-bit values that stay in range: an integer over the native numbers.
use Prim.Native.Nat.{ℕ, zero, suc, ◌+◌, ◌-◌, ◌*◌, ◌/◌, ◌%◌, ◌^◌}
use mathlib.Core.Bool.{Bool, true, false}
use fyredocs_backend.Prelude.Tests.{ltb, if◌then◌else◌}

-- `negsuc n` is -(n + 1).
pub data ℤ : Type 0 where
  pos : ℕ → ℤ
  negsuc : ℕ → ℤ

-- x > 0
abbrev pub is_positive : ℤ → Bool
is_positive (pos zero) = false
is_positive (pos (suc n)) = true
is_positive (negsuc n) = false

-- The value where it is known not to be negative.
abbrev pub to_nat : ℤ → ℕ
to_nat (pos n) = n
to_nat (negsuc n) = 0

-- a > b
abbrev pub gtb_ℤ : ℤ → ℤ → Bool
gtb_ℤ (pos a) (pos b) = ltb b a
gtb_ℤ (pos a) (negsuc b) = true
gtb_ℤ (negsuc a) (pos b) = false
gtb_ℤ (negsuc a) (negsuc b) = ltb a b

-- The int64 with the bits of `n`, for `n` below 2 ^ 64.
abbrev pub to_int64 : ℕ → ℤ
to_int64 n = if ltb n (2 ^ 63) then pos n else negsuc (2 ^ 64 - 1 - n)

abbrev pub negate : ℕ → ℤ
negate zero = pos 0
negate (suc n) = negsuc n

-- int64 products and sums wrap round; the quotient is truncated towards 0.
unfoldable pub scale64 : ℤ → ℕ → ℤ
scale64 (pos n) k = to_int64 (n * k % 2 ^ 64)
scale64 (negsuc n) k = to_int64 ((2 ^ 64 - suc n * k % 2 ^ 64) % 2 ^ 64)

unfoldable pub quotient : ℤ → ℕ → ℤ
quotient (pos n) k = pos (n / k)
quotient (negsuc n) k = negate (suc n / k)

-- The 64 bits of an int64.
abbrev bits : ℤ → ℕ
bits (pos n) = n % 2 ^ 64
bits (negsuc n) = 2 ^ 64 - 1 - n

unfoldable pub plus64 : ℤ → ℤ → ℤ
plus64 a b = to_int64 ((bits a + bits b) % 2 ^ 64)
