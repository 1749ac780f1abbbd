-- ===== src/Base/Int.antt =====
-- C's `int` as an integer over the native numbers, under the library's names.
use Prim.Native.Nat.{ℕ, zero, suc, ◌+◌, ◌-◌, ◌*◌, ◌/◌, ◌%◌, ◌^◌, bit_and, bit_or}
use mathlib.Core.Bool.{Bool, true, false}
use zmachine.Base.Tests.{ltb, leb, ◌==◌, if◌then◌else◌}

-- `negsuc n` is -(n + 1).
pub data ℤ : Type 0 where
  pos : ℕ → ℤ
  negsuc : ℕ → ℤ

abbrev pub pos_part : ℤ → ℕ
pos_part (pos n) = n
pos_part (negsuc n) = 0

abbrev pub neg_part : ℤ → ℕ
neg_part (pos n) = 0
neg_part (negsuc n) = suc n

-- a - b, as an integer.
abbrev pub sub_ℕ : ℕ → ℕ → ℤ
sub_ℕ a b = if leb b a then pos (a - b) else negsuc (b - a - 1)

infixl 65 ◌+ℤ◌ ◌-ℤ◌
infixl 70 ◌*ℤ◌
unfoldable pub ◌+ℤ◌ : ℤ → ℤ → ℤ
a +ℤ b = sub_ℕ (pos_part a + pos_part b) (neg_part a + neg_part b)

unfoldable pub ◌-ℤ◌ : ℤ → ℤ → ℤ
a -ℤ b = sub_ℕ (pos_part a + neg_part b) (neg_part a + pos_part b)

unfoldable pub ◌*ℤ◌ : ℤ → ℤ → ℤ
a *ℤ b =
    sub_ℕ (pos_part a * pos_part b + neg_part a * neg_part b)
      (pos_part a * neg_part b + neg_part a * pos_part b)

-- `a + k` for a constant `k` that is not negative.
abbrev pub offset : ℤ → ℕ → ℤ
offset (pos a) k = pos (a + k)
offset (negsuc n) k = sub_ℕ k (suc n)

abbrev pub ltb_ℤ : ℤ → ℤ → Bool
ltb_ℤ (pos a) (pos b) = ltb a b
ltb_ℤ (pos a) (negsuc b) = false
ltb_ℤ (negsuc a) (pos b) = true
ltb_ℤ (negsuc a) (negsuc b) = ltb b a

abbrev pub eq_ℤ : ℤ → ℤ → Bool
eq_ℤ (pos a) (pos b) = a == b
eq_ℤ (pos a) (negsuc b) = false
eq_ℤ (negsuc a) (pos b) = false
eq_ℤ (negsuc a) (negsuc b) = a == b

abbrev pub abs : ℤ → ℕ
abs (pos n) = n
abs (negsuc n) = suc n

-- -(n), for a magnitude n.
abbrev pub neg : ℕ → ℤ
neg zero = pos 0
neg (suc n) = negsuc n

-- `~a`
abbrev pub not_ℤ : ℤ → ℤ
not_ℤ (pos n) = negsuc n
not_ℤ (negsuc n) = pos n

-- C's `/` and `%` cut towards zero; the divisor is not zero.
unfoldable pub quot : ℤ → ℤ → ℤ
quot (pos a) (pos b) = pos (a / b)
quot (pos a) (negsuc b) = neg (a / suc b)
quot (negsuc a) (pos b) = neg (suc a / b)
quot (negsuc a) (negsuc b) = pos (suc a / suc b)

unfoldable pub rem : ℤ → ℤ → ℤ
rem (pos a) b = pos (a % abs b)
rem (negsuc a) b = neg (suc a % abs b)

-- The number that the low bits of the two's complement pattern make, `a & (m - 1)` for m = 2 ^ w.
abbrev pub low_bits : ℤ → ℕ → ℕ
low_bits (pos n) m = n % m
low_bits (negsuc n) m = m - 1 - n % m

-- `a >> k` keeps the sign.
abbrev pub shr_ℤ : ℤ → ℕ → ℤ
shr_ℤ (pos n) m = pos (n / m)
shr_ℤ (negsuc n) m = negsuc (n / m)

-- The integer of a `w`-bit pattern, for m = 2 ^ w and half = 2 ^ (w - 1).
abbrev pub signed : ℕ → ℕ → ℕ → ℤ
signed half m n = if ltb n half then pos n else negsuc (m - 1 - n)

-- `a & b` and `a | b` on `int`.
unfoldable pub and_ℤ : ℤ → ℤ → ℤ
and_ℤ a b = signed (2 ^ 31) (2 ^ 32) (bit_and (low_bits a (2 ^ 32)) (low_bits b (2 ^ 32)))

unfoldable pub or_ℤ : ℤ → ℤ → ℤ
or_ℤ a b = signed (2 ^ 31) (2 ^ 32) (bit_or (low_bits a (2 ^ 32)) (low_bits b (2 ^ 32)))
