-- ===== src/Base/Xor.antt =====
-- Exclusive or on bytes, checked value by value.
use Prim.Native.Nat.{ℕ, ◌<◌, bit_xor}
use mathlib.Core.Path.{◌≡◌, refl}
use mathlib.Core.Bool.{Bool, true, ◌&&◌, not, ◌||◌}
use native.Mathlib.Omega.{arith}
use zmachine.Base.Tests.{ltb, ◌==◌}
use zmachine.Base.Bits.{grid, grid-at}

xor_holds : ℕ → ℕ → Bool
xor_holds a b =
    (bit_xor a (bit_xor a b) == b) && ltb (bit_xor a b) 256 && (not (bit_xor a b == 0) || (a == b))

xor_table : grid xor_holds 256 256 ≡ true
unfolding grid xor_holds
xor_table = refl

module _ (a b : ℕ) (ha : a < 256) (hb : b < 256) where
  xor_at : xor_holds a b ≡ true
  xor_at = grid-at xor_holds 256 a b 256 xor_table ha hb

  pub xor_cancel : bit_xor a (bit_xor a b) ≡ b
  unfolding xor_holds
  xor_cancel = ground (arith, xor_at)

  pub xor-lt : bit_xor a b < 256
  unfolding xor_holds
  xor-lt = ground (arith, xor_at)

  pub xor_zero : bit_xor a b ≡ 0 → a ≡ b
  unfolding xor_holds
  xor_zero e = ground (arith, xor_at)
