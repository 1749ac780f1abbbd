-- ===== src/BitStream/Digits.antt =====
-- Bytes and their bits as lists.
use zmachine.Base.{
  ℕ, zero, suc, ◌+◌, ◌*◌, ◌/◌, ◌%◌, ◌<◌, ◌≡◌, refl, sym, ap, ◌∙◌, arith, Bool, true, false, not,
  ◌||◌, some, List, [], ◌∷◌, ◌++◌, ◌==◌, ltb, if◌then◌else◌, get_elem?, length, bit_and, bit_or,
  length-append, get_elem?-append_low, get_elem?-append_high,
}
use mathlib.Core.List.{append_assoc}
use zmachine.Base.Bits.{grid, grid-at, bit_val, digits_of, bits_of}
use zmachine.Base.XorLaws.{two_to}

-- v / 2 ^ k
abbrev pub shr : ℕ → ℕ → ℕ
shr zero v = v
shr (suc k) v = shr k (v / 2)

pub length-digits_of : (k v : ℕ) → length (digits_of k v) ≡ k
length-digits_of zero v = refl
length-digits_of (suc k) v = ap suc (length-digits_of k (v / 2))

pub length-bits_of : (vs : List ℕ) → length (bits_of vs) ≡ 8 * length vs
length-bits_of [] = refl
length-bits_of (v ∷ vs) =
    omega (arith, length-append (digits_of 8 v) (bits_of vs), length-bits_of vs)

pub digits_of-add : (k j v : ℕ) → digits_of (k + j) v ≡ digits_of k v ++ digits_of j (shr k v)
digits_of-add zero j v = ap (λ n. digits_of n v) (omega arith)
digits_of-add (suc k) j v =
    let e : suc k + j ≡ suc (k + j) = omega arith in
    ap (λ n. digits_of n v) e ∙ ap (λ xs. (v % 2 == 1) ∷ xs) (digits_of-add k j (v / 2))

-- One more digit on top.
pub digits_of-snoc :
    (k v : ℕ) (b : Bool)
    → v < two_to k
    → digits_of (suc k) (v + bit_val b * two_to k) ≡ digits_of k v ++ b ∷ []
digits_of-snoc zero v true h = let e : v ≡ 0 = omega arith in rw e refl
digits_of-snoc zero v false h = let e : v ≡ 0 = omega arith in rw e refl
digits_of-snoc (suc k) v b h =
    let w = v + bit_val b * two_to (suc k) in
    let high : w / 2 ≡ v / 2 + bit_val b * two_to k = halves b in
    let low : w % 2 ≡ v % 2 = parity b in
    rw (low, high)
      (ap (λ xs. (v % 2 == 1) ∷ xs)
        (digits_of-snoc k (v / 2) b (let small : v / 2 < two_to k = omega (arith, h) in small)))
  where
    halves : (c : Bool) → (v + bit_val c * (2 * two_to k)) / 2 ≡ v / 2 + bit_val c * two_to k
    halves true = omega arith
    halves false = omega arith

    parity : (c : Bool) → (v + bit_val c * (2 * two_to k)) % 2 ≡ v % 2
    parity true = omega arith
    parity false = omega arith

pub bits_of-append : (us vs : List ℕ) → bits_of (us ++ vs) ≡ bits_of us ++ bits_of vs
bits_of-append [] vs = refl
bits_of-append (u ∷ us) vs =
    ap (λ xs. digits_of 8 u ++ xs) (bits_of-append us vs)
    ∙ sym (append_assoc (digits_of 8 u) (bits_of us) (bits_of vs))

or_holds : ℕ → ℕ → Bool
or_holds k v = not (ltb v (two_to k)) || (bit_or v (two_to k) == v + two_to k)

or_table : grid or_holds 8 128 ≡ true
unfolding grid or_holds
or_table = refl

-- Setting a bit above the others.
pub bit_or-two_to : (k v : ℕ) → k < 8 → v < 128 → v < two_to k → bit_or v (two_to k) ≡ v + two_to k
unfolding or_holds
bit_or-two_to k v hk hv h = ground (arith, grid-at or_holds 128 k v 8 or_table hk hv)

and_holds : ℕ → ℕ → Bool
and_holds k v = if not (bit_and v (two_to k) == 0) then shr k v % 2 == 1 else shr k v % 2 == 0

and_table : grid and_holds 8 256 ≡ true
unfolding grid and_holds
and_table = refl

pub bit_and-two_to :
    (k v : ℕ) → k < 8 → v < 256 → not (bit_and v (two_to k) == 0) ≡ (shr k v % 2 == 1)
unfolding and_holds
bit_and-two_to k v hk hv = ground (arith, grid-at and_holds 256 k v 8 and_table hk hv)

-- The bit at a position.
digits_of-at : (n k v : ℕ) → k < n → get_elem? (digits_of n v) k ≡ some (shr k v % 2 == 1)
digits_of-at zero k v h = absurd (omega arith)
digits_of-at (suc n) zero v h = refl
digits_of-at (suc n) (suc k) v h = digits_of-at n k (v / 2) (omega arith)

pub bits_of-at :
    (vs : List ℕ) (i k v : ℕ)
    → k < 8
    → get_elem? vs i ≡ some v
    → get_elem? (bits_of vs) (8 * i + k) ≡ some (shr k v % 2 == 1)
bits_of-at [] i k v h e = absurd (ground arith)
bits_of-at (u ∷ vs) zero k v h e =
    let same : u ≡ v = ground arith in
    ap (get_elem? (bits_of (u ∷ vs))) (let at : 8 * 0 + k ≡ k = omega arith in at)
    ∙ get_elem?-append_low (digits_of 8 u) (bits_of vs) k h
    ∙ digits_of-at 8 k u h
    ∙ ap (λ w. some (shr k w % 2 == 1)) same
bits_of-at (u ∷ vs) (suc i) k v h e =
    get_elem?-append_high (digits_of 8 u) (bits_of vs) (8 * suc i + k) (8 * i + k) (omega arith)
    ∙ bits_of-at vs i k v h e
