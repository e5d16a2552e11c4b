-- ===== src/Prelude/Int.antt =====
-- Signed integers, and the conversions between the C++ integer types that the program makes.
use Prim.Native.Nat.{ℕ, ◌-◌, ◌%◌, ◌^◌, ◌<◌, suc}
use mathlib.Core.Path.{◌≡◌}
use native.Mathlib.Omega.{arith}
use mars_wrapper.Prelude.Tests.{ltb, if◌then◌else◌}

-- `negsuc n` is -(n + 1).
pub data ℤ : Type 0 where
  pos : ℕ → ℤ
  negsuc : ℕ → ℤ

-- A value of an unsigned type as an `int`: the bit pattern is kept.
abbrev pub to_int : ℕ → ℤ
to_int n = let w = n % 2 ^ 32 in if ltb w (2 ^ 31) then pos w else negsuc (2 ^ 32 - w - 1)

-- An `int` as an unsigned type with `modulus` values.
abbrev pub to_unsigned : ℕ → ℤ → ℕ
to_unsigned modulus (pos n) = n % modulus
to_unsigned modulus (negsuc n) = (modulus - suc (n % modulus)) % modulus

pub small_int : (n : ℕ) → n < 2 ^ 31 → to_int n ≡ pos n
small_int n h = ground arith
