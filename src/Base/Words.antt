-- ===== src/Base/Words.antt =====
-- Machine words as native numbers: a cast is the remainder, and unsigned subtraction adds the
-- modulus first.
use Prim.Native.Nat.{ℕ, ◌+◌, ◌-◌, ◌%◌, ◌^◌}
use mathlib.Core.Bool.{Bool}
use od_esphome.Base.Tests.{ltb}

abbrev pub u8 : ℕ → ℕ
u8 n = n % 2 ^ 8

abbrev pub u16 : ℕ → ℕ
u16 n = n % 2 ^ 16

abbrev pub u32 : ℕ → ℕ
u32 n = n % 2 ^ 32

-- a - b on uint32_t
abbrev pub sub32 : ℕ → ℕ → ℕ
sub32 a b = (a + 2 ^ 32 - b) % 2 ^ 32

-- `static_cast<int32_t>(w) >= 0`: the sign bit of the word is clear.
abbrev pub non_negative32 : ℕ → Bool
non_negative32 w = ltb w (2 ^ 31)
