-- ===== src/Prelude/Int32.antt =====
-- Go's conversion to int32: an integer in [-2^31, 2^31), with the wrap-around written out.
use Prim.Native.Nat.{ℕ, ◌+◌, ◌-◌, ◌≤◌, ◌<◌, ◌%◌, ◌^◌}
use mathlib.Core.Path.{◌≡◌}
use native.Mathlib.Omega.{arith}
use cobalt_dingo.Prelude.Tests.{ltb, if◌then◌else◌}
use cobalt_dingo.Prelude.Int.{ℤ, pos, negsuc, pos_part, neg_part}

abbrev modulus : ℕ
modulus = 2 ^ 32

abbrev pub half : ℕ
half = 2 ^ 31

bits : ℤ → ℕ
bits a = (pos_part a + (modulus - neg_part a % modulus)) % modulus

signed : ℕ → ℤ
signed n = if ltb n half then pos n else negsuc (modulus - 1 - n)

-- `int32(a)`
unfoldable pub wrap32 : ℤ → ℤ
unfolding bits signed
wrap32 a = signed (bits a)

-- The values that an int32 can hold.
pub record InRange (a : ℤ) : Type 0 where
  pub low : neg_part a ≤ half
  pub high : pos_part a < half

-- A value that fits is not changed.
pub wrap32_of_InRange : (a : ℤ) → InRange a → wrap32 a ≡ a
unfolding wrap32 bits signed
wrap32_of_InRange a h = ground arith
