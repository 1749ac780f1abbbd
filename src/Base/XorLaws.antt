-- ===== src/Base/XorLaws.antt =====
-- The exclusive or of any two numbers, by their binary digits.
use Prim.Native.Nat.{
  ℕ, zero, suc, ◌+◌, ◌-◌, ◌*◌, ◌/◌, ◌%◌, ◌<◌, ◌≤◌, bit_xor, digits, differ, bit_xor-bitwise,
}
use mathlib.Core.Path.{◌≡◌, refl, sym, ap, ◌∙◌}
use native.Mathlib.Omega.{arith}

abbrev run : ℕ → ℕ → ℕ → ℕ
run count a b = digits (λ rest. rest) differ count a b

-- One digit more to go makes no difference, and so does any number more.
run-suc : (count a b : ℕ) → a ≤ count → run (suc count) a b ≡ run count a b
run-suc count zero b h = run-zero count b
  where
    run-zero : (count b : ℕ) → run (suc count) 0 b ≡ run count 0 b
    run-zero zero b = refl
    run-zero (suc count) b = refl
run-suc zero (suc a) b h = absurd (omega arith)
run-suc (suc count) (suc a) b h =
    ap (λ x. x * 2 + differ (suc a % 2) (b % 2)) (run-suc count (suc a / 2) (b / 2) (omega arith))

run-more : (extra a b : ℕ) → run (extra + a) a b ≡ run a a b
run-more zero a b = ap (λ n. run n a b) (omega arith)
run-more (suc extra) a b =
    let e : suc extra + a ≡ suc (extra + a) = omega arith in
    ap (λ n. run n a b) e ∙ run-suc (extra + a) a b (omega arith) ∙ run-more extra a b

differ_digits : (x y : ℕ) → x < 2 → y < 2 → differ x y ≡ (x + y) % 2
differ_digits zero y hx hy = omega arith
differ_digits (suc zero) zero hx hy = refl
differ_digits (suc zero) (suc zero) hx hy = refl
differ_digits (suc zero) (suc (suc y)) hx hy = absurd (omega arith)
differ_digits (suc (suc x)) y hx hy = absurd (omega arith)

pub zero-bit_xor : (b : ℕ) → bit_xor 0 b ≡ b
zero-bit_xor b = bit_xor-bitwise 0 b

-- The lowest digit and the others.
pub bit_xor_step : (a b : ℕ) → bit_xor a b ≡ bit_xor (a / 2) (b / 2) * 2 + (a + b) % 2
bit_xor_step zero b = omega (arith, zero-bit_xor b, zero-bit_xor (b / 2))
bit_xor_step (suc a) b =
    let half = suc a / 2 in
    let spare : a - half + half ≡ a = omega arith in
    omega (
      arith,
      bit_xor-bitwise (suc a) b,
      bit_xor-bitwise half (b / 2),
      run-more (a - half) half (b / 2),
      ap (λ n. run n half (b / 2)) spare,
      differ_digits (suc a % 2) (b % 2) (omega arith) (omega arith),
    )

pub bit_xor-zero : (a : ℕ) → bit_xor a 0 ≡ a
bit_xor-zero a = upto a a (omega arith)
  where
    upto : (n a : ℕ) → a ≤ n → bit_xor a 0 ≡ a
    upto zero a h = let e : a ≡ 0 = omega arith in ap (λ x. bit_xor x 0) e ∙ zero-bit_xor 0 ∙ sym e
    upto (suc n) zero h = zero-bit_xor 0
    upto (suc n) (suc a) h =
        let rest = upto n (suc a / 2) (omega arith) in omega (arith, bit_xor_step (suc a) 0, rest)

bit_xor-half : (a b : ℕ) → bit_xor a b / 2 ≡ bit_xor (a / 2) (b / 2)
bit_xor-half a b = omega (arith, bit_xor_step a b)

pub bit_xor_assoc : (a b c : ℕ) → bit_xor (bit_xor a b) c ≡ bit_xor a (bit_xor b c)
bit_xor_assoc a b c = upto a a b c (omega arith)
  where
    upto : (n a b c : ℕ) → a ≤ n → bit_xor (bit_xor a b) c ≡ bit_xor a (bit_xor b c)
    upto n zero b c h = ap (λ x. bit_xor x c) (zero-bit_xor b) ∙ sym (zero-bit_xor (bit_xor b c))
    upto zero (suc a) b c h = absurd (omega arith)
    upto (suc n) (suc a) b c h = omega (
      arith,
      bit_xor_step (bit_xor (suc a) b) c,
      bit_xor_step (suc a) (bit_xor b c),
      bit_xor_step (suc a) b,
      bit_xor_step b c,
      ap (λ x. bit_xor x (c / 2)) (bit_xor-half (suc a) b),
      ap (λ x. bit_xor (suc a / 2) x) (bit_xor-half b c),
      upto n (suc a / 2) (b / 2) (c / 2) (omega arith),
    )

pub bit_xor_double :
    (a b x y : ℕ) → x < 2 → y < 2 → bit_xor (a * 2 + x) (b * 2 + y) ≡ bit_xor a b * 2 + (x + y) % 2
bit_xor_double a b x y hx hy =
    let ea : (a * 2 + x) / 2 ≡ a = omega arith in
    let eb : (b * 2 + y) / 2 ≡ b = omega arith in
    omega (
      arith,
      bit_xor_step (a * 2 + x) (b * 2 + y),
      ap (λ h. bit_xor h ((b * 2 + y) / 2)) ea,
      ap (λ h. bit_xor a h) eb,
    )

-- 2 ^ k, as a literal for a literal k.
abbrev pub two_to : ℕ → ℕ
two_to zero = 1
two_to (suc k) = 2 * two_to k

-- The digits from the k-th on, and those below it, are taken apart.
pub bit_xor_split :
    (k a b x y : ℕ)
    → x < two_to k
    → y < two_to k
    → (bit_xor (a * two_to k + x) (b * two_to k + y) ≡ bit_xor a b * two_to k + bit_xor x y)
      × (bit_xor x y < two_to k)
bit_xor_split zero a b x y hx hy =
    let ex : x ≡ 0 = omega arith in
    let ey : y ≡ 0 = omega arith in
    let ea : a * 1 + x ≡ a = omega arith in
    let eb : b * 1 + y ≡ b = omega arith in
    rw (ea, eb, ex, ey, zero-bit_xor 0) (omega arith, omega arith)
bit_xor_split (suc k) a b x y hx hy =
    let m = two_to k in
    let (high, low) = bit_xor_split k a b (x / 2) (y / 2) (omega arith) (omega arith) in
    let ea : a * (2 * m) + x ≡ (a * m + x / 2) * 2 + x % 2 = omega arith in
    let eb : b * (2 * m) + y ≡ (b * m + y / 2) * 2 + y % 2 = omega arith in
    let whole =
      bit_xor_double (a * m + x / 2) (b * m + y / 2) (x % 2) (y % 2) (omega arith) (omega arith) in
    let here = bit_xor_step x y in
    (
      ap (λ n. bit_xor n (b * (2 * m) + y)) ea
          ∙ ap (λ n. bit_xor ((a * m + x / 2) * 2 + x % 2) n) eb
          ∙ omega (arith, whole, high, here),
      omega (arith, here, low),
    )
