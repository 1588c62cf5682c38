-- ===== src/Common/Words.antt =====
-- Unsigned machine words of a release build, on a 64-bit target: plain operators wrap around. And
-- the integers.
use Prim.Native.Nat.{ℕ, ◌+◌, ◌-◌, ◌*◌, ◌%◌, ◌^◌, ◌<◌, min}
use native.Mathlib.Omega.{arith}

abbrev pub u64_mod : ℕ
u64_mod = 2 ^ 64

abbrev pub u256_mod : ℕ
u256_mod = 2 ^ 256

-- `a + b` on `u64` and `usize`
abbrev pub add64 : ℕ → ℕ → ℕ
add64 a b = (a + b) % u64_mod

-- `a - b` on `u64` and `usize`
abbrev pub sub64 : ℕ → ℕ → ℕ
sub64 a b = (a + u64_mod - b) % u64_mod

-- `saturating_mul` on `u64` and `usize`
abbrev pub saturating_mul : ℕ → ℕ → ℕ
saturating_mul a b = min (a * b) (u64_mod - 1)

pub add64-lt : (a b : ℕ) → add64 a b < u64_mod
add64-lt a b = omega arith

-- The integers, for the signed words of the source.
pub data ℤ : Type 0 where
  pos : ℕ → ℤ
  negsuc : ℕ → ℤ  -- of n is -(n + 1)
