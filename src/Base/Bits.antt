-- ===== src/Base/Bits.antt =====
-- Bytes: a bit test, and facts about them checked value by value.
use Prim.Native.Nat.{ℕ, zero, suc, ◌/◌, ◌%◌, ◌^◌, ◌<◌}
use mathlib.Core.Path.{◌≡◌}
use mathlib.Core.Bool.{Bool, true, false, ◌&&◌}
use mathlib.Core.List.{List, [], ◌∷◌, ◌++◌}
use native.Mathlib.Omega.{arith}
use zmachine.Base.Tests.{◌==◌}

-- `(x & (1 << k)) != 0`
abbrev pub test_bit : ℕ → ℕ → Bool
test_bit x k = (x / 2 ^ k) % 2 == 1

-- A test that holds in a whole grid, `width` columns of `height` cells.
abbrev column : (ℕ → Bool) → ℕ → Bool
column holds zero = true
column holds (suc height) = column holds height && holds height

unfoldable pub grid : (ℕ → ℕ → Bool) → ℕ → ℕ → Bool
grid holds zero height = true
grid holds (suc width) height = grid holds width height && column (holds width) height

module _ (holds : ℕ → Bool) where
  column-at : (height y : ℕ) → column holds height ≡ true → y < height → holds y ≡ true
  column-at zero y all inside = absurd (omega arith)
  column-at (suc height) y all inside = let below = column-at height y in ground (arith, below)

module _ (holds : ℕ → ℕ → Bool) (height x y : ℕ) where
  pub grid-at :
      (width : ℕ) → grid holds width height ≡ true → x < width → y < height → holds x y ≡ true
  unfolding grid
  grid-at zero all left inside = absurd (omega arith)
  grid-at (suc width) all left inside =
      let before = grid-at width in
      let here = column-at (holds width) height y in ground (arith, before, here)

abbrev pub bit_val : Bool → ℕ
bit_val true = 1
bit_val false = 0

-- The lowest `k` binary digits of a number, the lowest first.
abbrev pub digits_of : ℕ → ℕ → List Bool
digits_of zero v = []
digits_of (suc k) v = (v % 2 == 1) ∷ digits_of k (v / 2)

-- The bits of bytes, in the order in which they are sent.
abbrev pub bits_of : List ℕ → List Bool
bits_of [] = []
bits_of (v ∷ vs) = digits_of 8 v ++ bits_of vs
