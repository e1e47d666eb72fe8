-- ===== src/Prelude/Int64.antt =====
-- Go's int64: an integer in [-2^63, 2^63), with the wrap-around of every operation written out.
use Prim.Native.Nat.{ℕ, ◌+◌, ◌-◌, ◌≤◌, ◌<◌, ◌%◌, ◌^◌}
use mathlib.Core.Path.{◌≡◌, refl, ap, sym, ◌∙◌}
use native.Mathlib.Omega.{arith}
use cobalt_dingo.Prelude.Tests.{ltb, if◌then◌else◌}
use cobalt_dingo.Prelude.Int.{ℤ, pos, negsuc, pos_part, neg_part, ◌+ℤ◌, ◌-ℤ◌, +ℤ_parts, -ℤ_parts}

abbrev modulus : ℕ
modulus = 2 ^ 64

abbrev pub half : ℕ
half = 2 ^ 63

-- The bit pattern of an integer, as a number below 2^64.
pub bits : ℤ → ℕ
bits a = (pos_part a + (modulus - neg_part a % modulus)) % modulus

-- The integer that a bit pattern stands for.
signed : ℕ → ℤ
signed n = if ltb n half then pos n else negsuc (modulus - 1 - n)

-- What is left of an exact result in 64 bits.
unfoldable pub wrap64 : ℤ → ℤ
unfolding bits signed
wrap64 a = signed (bits a)

abbrev pub add64 : ℤ → ℤ → ℤ
add64 a b = wrap64 (a +ℤ b)

abbrev pub sub64 : ℤ → ℤ → ℤ
sub64 a b = wrap64 (a -ℤ b)

abbrev pub neg64 : ℤ → ℤ
neg64 a = wrap64 (pos 0 -ℤ a)

-- The values that an int64 can hold.
pub record InRange (a : ℤ) : Type 0 where
  pub low : neg_part a ≤ half
  pub high : pos_part a < half

pub bits-lt : (a : ℤ) → bits a < modulus
unfolding bits
bits-lt a = omega arith

bits-signed : (n : ℕ) → n < modulus → bits (signed n) ≡ n
unfolding bits signed
bits-signed n h = ground arith

pub bits-wrap64 : (a : ℤ) → bits (wrap64 a) ≡ bits a
unfolding wrap64
bits-wrap64 a = bits-signed (bits a) (bits-lt a)

pub bits-+ℤ : (a b : ℤ) → bits (a +ℤ b) ≡ (bits a + bits b) % modulus
unfolding bits
bits-+ℤ a b = omega (arith, +ℤ_parts a b)

pub bits--ℤ : (a b : ℤ) → bits (a -ℤ b) ≡ (bits a + (modulus - bits b)) % modulus
unfolding bits
bits--ℤ a b = omega (arith, -ℤ_parts a b)

-- Two integers with the same bits are the same int64.
pub same_bits : (a b : ℤ) → bits a ≡ bits b → wrap64 a ≡ wrap64 b
unfolding wrap64
same_bits a b h = ap signed h

pub wrap64-InRange : (a : ℤ) → InRange (wrap64 a)
unfolding wrap64 bits signed
wrap64-InRange a = ground (arith, bits-lt a)

-- A value that fits is not changed.
pub wrap64_of_InRange : (a : ℤ) → InRange a → wrap64 a ≡ a
unfolding wrap64 bits signed
wrap64_of_InRange a h = ground arith

-- An inner wrap is absorbed by an outer one.
pub wrap64-wrap64 : (a : ℤ) → wrap64 (wrap64 a) ≡ wrap64 a
wrap64-wrap64 a = same_bits (wrap64 a) a (bits-wrap64 a)

pub wrap64-add_left : (a b : ℤ) → wrap64 (wrap64 a +ℤ b) ≡ wrap64 (a +ℤ b)
wrap64-add_left a b =
    same_bits _ _ (omega (arith, bits-+ℤ (wrap64 a) b, bits-+ℤ a b, bits-wrap64 a))

pub wrap64-add_right : (a b : ℤ) → wrap64 (a +ℤ wrap64 b) ≡ wrap64 (a +ℤ b)
wrap64-add_right a b =
    same_bits _ _ (omega (arith, bits-+ℤ a (wrap64 b), bits-+ℤ a b, bits-wrap64 b))

pub wrap64-sub_left : (a b : ℤ) → wrap64 (wrap64 a -ℤ b) ≡ wrap64 (a -ℤ b)
wrap64-sub_left a b =
    same_bits _ _ (omega (arith, bits--ℤ (wrap64 a) b, bits--ℤ a b, bits-wrap64 a))

pub wrap64-sub_right : (a b : ℤ) → wrap64 (a -ℤ wrap64 b) ≡ wrap64 (a -ℤ b)
wrap64-sub_right a b =
    same_bits _ _ (omega (arith, bits--ℤ a (wrap64 b), bits--ℤ a b, bits-wrap64 b))

-- With these `simp` writes a nest of 64-bit operations as one wrap of the exact expression.
pub ruleset wrap_laws =
    (wrap64-wrap64, wrap64-add_left, wrap64-add_right, wrap64-sub_left, wrap64-sub_right)

-- With these `simp` takes a goal about bits to sums of bits, which `omega` compares.
pub bits-zero : bits (pos 0) ≡ 0
unfolding bits
bits-zero = refl

pub ruleset bits_laws = (bits-wrap64, bits-+ℤ, bits--ℤ, bits-zero)

pub bits_of_same : (a b : ℤ) → wrap64 a ≡ wrap64 b → bits a ≡ bits b
bits_of_same a b h = sym (bits-wrap64 a) ∙ ap bits h ∙ bits-wrap64 b

-- A sum in which one addend grows by `c`, up to the wrap.
pub same_of_exchange :
    (x y a b c : ℤ) → x +ℤ a ≡ y +ℤ b → wrap64 b ≡ wrap64 (a +ℤ c) → wrap64 x ≡ wrap64 (y +ℤ c)
same_of_exchange x y a b c h k = same_bits _ _ (
    simp bits_laws (
      omega (
        arith,
        simp bits_laws at (ap bits h),
        simp bits_laws at (bits_of_same _ _ k),
        bits-lt x,
        bits-lt y,
        bits-lt a,
        bits-lt b,
        bits-lt c,
      )))

-- Equal up to the wrap, in a larger sum.
pub same_add_right : (x y c : ℤ) → wrap64 x ≡ wrap64 y → wrap64 (x +ℤ c) ≡ wrap64 (y +ℤ c)
same_add_right x y c h =
    sym (wrap64-add_left x c) ∙ ap (λ z. wrap64 (z +ℤ c)) h ∙ wrap64-add_left y c

pub same_add_left : (x y c : ℤ) → wrap64 x ≡ wrap64 y → wrap64 (c +ℤ x) ≡ wrap64 (c +ℤ y)
same_add_left x y c h =
    sym (wrap64-add_right c x) ∙ ap (λ z. wrap64 (c +ℤ z)) h ∙ wrap64-add_right c y
