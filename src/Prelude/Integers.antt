-- ===== src/Prelude/Integers.antt =====
-- Integers over the native numbers, and the 32-bit ones among them.
use Prim.Native.Nat.{ℕ, ◌-◌, ◌%◌, ◌^◌}
use hexmagnet.Prelude.Tests.{ltb, if◌then◌else◌}

-- `negsuc n` is - 1 - n.
pub data ℤ : Type 0 where
  pos : ℕ → ℤ
  negsuc : ℕ → ℤ

-- Go's `int32(n)` of a number that is not negative.
abbrev pub int32 : ℕ → ℤ
int32 n = if ltb (n % 2 ^ 32) (2 ^ 31) then pos (n % 2 ^ 32) else negsuc (2 ^ 32 - 1 - n % 2 ^ 32)
