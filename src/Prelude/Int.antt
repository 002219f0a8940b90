-- ===== src/Prelude/Int.antt =====
-- Signed integers over the native numbers, and the 32-bit conversions of the source.
use Prim.Native.Nat.{ℕ, ◌+◌, ◌-◌, ◌%◌, ◌^◌}
use mathlib.Core.Bool.{Bool, true, false}
use palmira.Prelude.Tests.{ltb, if◌then◌else◌}

-- `negsuc n` is -(n + 1).
pub data ℤ : Type 0 where
  pos : ℕ → ℤ
  negsuc : ℕ → ℤ

-- `x < 0`
abbrev pub is_neg : ℤ → Bool
is_neg (pos n) = false
is_neg (negsuc n) = true

-- `x != 0`
abbrev pub is_nonzero : ℤ → Bool
is_nonzero (pos n) = ltb 0 n
is_nonzero (negsuc n) = true

-- `uint32_t` difference.
abbrev pub sub32 : ℕ → ℕ → ℕ
sub32 a b = (a + 2 ^ 32 - b) % 2 ^ 32

-- A `uint32_t` bit pattern read as `int`.
abbrev pub to_int32 : ℕ → ℤ
to_int32 n = if ltb n (2 ^ 31) then pos n else negsuc (2 ^ 32 - 1 - n)
