-- ===== src/Common/Words.antt =====
-- Machine integers. A w-bit integer, signed or not, is the number below 2 ^ w of its bit pattern;
-- the kernel is built with wrapping signed arithmetic, so `+` and `-` wrap for both.
use Prim.Native.Nat.{ℕ, ◌+◌, ◌-◌, ◌/◌, ◌%◌, ◌^◌}
use mathlib.Core.Bool.{Bool}
use kernel_io.Common.Tests.{ltb, if◌then◌else◌}

abbrev pub u1 : ℕ → ℕ
u1 n = n % 2

abbrev pub u8 : ℕ → ℕ
u8 n = n % 2 ^ 8

abbrev pub u32 : ℕ → ℕ
u32 n = n % 2 ^ 32

abbrev pub u64 : ℕ → ℕ
u64 n = n % 2 ^ 64

-- a - b of two 64-bit patterns
abbrev pub sub64 : ℕ → ℕ → ℕ
sub64 a b = (a + 2 ^ 64 - b) % 2 ^ 64

-- The conversion of an int32_t to a 64-bit signed type.
abbrev pub sign_extend : ℕ → ℕ
sign_extend w = if ltb w (2 ^ 31) then w else w + 2 ^ 64 - 2 ^ 32

-- The order of the signed numbers that two patterns stand for: moving both up by half the range
-- turns it into the order of the patterns.
abbrev pub slt64 : ℕ → ℕ → Bool
slt64 a b = ltb (u64 (a + 2 ^ 63)) (u64 (b + 2 ^ 63))

abbrev pub slt32 : ℕ → ℕ → Bool
slt32 a b = ltb (u32 (a + 2 ^ 31)) (u32 (b + 2 ^ 31))

-- Signed division by a positive number rounds towards zero.
abbrev pub sdiv64 : ℕ → ℕ → ℕ
sdiv64 a b = if ltb a (2 ^ 63) then a / b else u64 (2 ^ 64 - (2 ^ 64 - a) / b)

-- The remainder that goes with it is zero exactly if the division of the magnitude has none.
abbrev pub magnitude64 : ℕ → ℕ
magnitude64 a = if ltb a (2 ^ 63) then a else 2 ^ 64 - a
