-- ===== src/Crc/Table.antt =====
-- About the table of Firmware/main/crc.cpp against the register that takes one bit at a time.
use zmachine.Base.{
  ℕ, zero, suc, ◌+◌, ◌*◌, ◌/◌, ◌%◌, ◌<◌, ◌≡◌, refl, sym, ap, ◌∙◌, arith, true, Bool, List, [], ◌∷◌,
  ◌++◌, ◌==◌, ==_iff, bit_xor,
}
use zmachine.Base.Bits.{grid, grid-at, bit_val, digits_of, bits_of}
use zmachine.Base.XorLaws.{bit_xor_split, zero-bit_xor, bit_xor-zero}
use zmachine.Crc.{
  crc_step, crc_steps, lookup, build_column, build_columns, build_crc_lookup, crc_nibble, crc_bytes,
}
use zmachine.Crc.Step.{crc_step-bit_xor, crc_step-lt}

-- The register after these bits, one at a time.
abbrev pub crc_bits : ℕ → List Bool → ℕ
crc_bits crc [] = crc
crc_bits crc (b ∷ bits) = crc_bits (crc_step crc (bit_val b)) bits

entry_holds : ℕ → ℕ → Bool
entry_holds crc value =
    lookup build_crc_lookup crc value == crc_steps 4 (crc * 0x1000 % 0x10000) value

table_holds : grid entry_holds 16 16 ≡ true
unfolding grid entry_holds build_crc_lookup build_columns build_column crc_steps crc_step
table_holds = refl

lookup-crc_steps :
    (crc value : ℕ)
    → crc < 16
    → value < 16
    → lookup build_crc_lookup crc value ≡ crc_steps 4 (crc * 0x1000) value
unfolding entry_holds
lookup-crc_steps crc value hc hv =
    let e : crc * 0x1000 % 0x10000 ≡ crc * 0x1000 = omega arith in
    (==_iff _ _).0 (grid-at entry_holds 16 crc value 16 table_holds hc hv)
    ∙ ap (λ n. crc_steps 4 n value) e

-- A part of the register that is not shifted out is carried along.
low_step :
    (l d b : ℕ)
    → l < 0x8000
    → d < 0x10000
    → b < 2
    → crc_step (bit_xor l d) b ≡ bit_xor (l * 2) (crc_step d b)
low_step l d b hl hd hb =
    let doubled : l * 2 % 0x10000 ≡ l * 2 = omega arith in
    let top : l / 0x8000 ≡ 0 = omega arith in
    crc_step-bit_xor l d b (omega arith) hd hb
    ∙ ap (λ n. bit_xor n (crc_step d (bit_xor b (l / 0x8000)))) doubled
    ∙ ap (λ n. bit_xor (l * 2) (crc_step d (bit_xor b n))) top
    ∙ ap (λ n. bit_xor (l * 2) (crc_step d n)) (bit_xor-zero b)

four_steps :
    (l d value : ℕ)
    → l < 0x1000
    → d < 0x10000
    → crc_steps 4 (bit_xor l d) value ≡ bit_xor (l * 2 * 2 * 2 * 2) (crc_steps 4 d value)
unfolding crc_steps
four_steps l d value hl hd =
    let d1 = crc_step d (value % 2) in
    let d2 = crc_step d1 (value / 2 % 2) in
    let d3 = crc_step d2 (value / 2 / 2 % 2) in
    rw
      (
        low_step l d (value % 2) (omega arith) hd (omega arith),
        low_step (l * 2) d1 (value / 2 % 2) (omega arith) (crc_step-lt d (value % 2)) (omega arith),
        low_step (l * 2 * 2) d2 (value / 2 / 2 % 2) (omega arith) (crc_step-lt d1 (value / 2 % 2))
            (omega arith),
        low_step (l * 2 * 2 * 2) d3 (value / 2 / 2 / 2 % 2) (omega arith)
            (crc_step-lt d2 (value / 2 / 2 % 2)) (omega arith),
      )
      refl

crc_steps-lt : (n crc value : ℕ) → crc < 0x10000 → crc_steps n crc value < 0x10000
unfolding crc_steps
crc_steps-lt zero crc value h = h
crc_steps-lt (suc n) crc value h =
    crc_steps-lt n (crc_step crc (value % 2)) (value / 2) (crc_step-lt crc (value % 2))

bit_xor-disjoint : (hi lo : ℕ) → lo < 0x1000 → bit_xor lo (hi * 0x1000) ≡ hi * 0x1000 + lo
bit_xor-disjoint hi lo h =
    let (joined, _) = bit_xor_split 12 0 hi lo 0 h (omega arith) in
    let whole : bit_xor (0 * 0x1000 + lo) (hi * 0x1000 + 0) ≡ bit_xor 0 hi * 0x1000 + bit_xor lo 0 =
      joined in
    let left : 0 * 0x1000 + lo ≡ lo = omega arith in
    let right : hi * 0x1000 + 0 ≡ hi * 0x1000 = omega arith in
    sym (ap (λ n. bit_xor n (hi * 0x1000)) left)
    ∙ sym (ap (λ n. bit_xor (0 * 0x1000 + lo) n) right)
    ∙ omega (arith, whole, zero-bit_xor hi, bit_xor-zero lo)

bit_xor-mod :
    (hi lo t : ℕ)
    → lo < 0x10000
    → t < 0x10000
    → bit_xor (hi * 0x10000 + lo) t % 0x10000 ≡ bit_xor lo t
bit_xor-mod hi lo t hl ht =
    let (joined, low) = bit_xor_split 16 hi 0 lo t hl ht in
    let whole : bit_xor (hi * 0x10000 + lo) (0 * 0x10000 + t)
        ≡ bit_xor hi 0 * 0x10000 + bit_xor lo t =
      joined in
    let right : 0 * 0x10000 + t ≡ t = omega arith in
    let bound : bit_xor lo t < 0x10000 = low in
    sym (ap (λ n. bit_xor (hi * 0x10000 + lo) n % 0x10000) right) ∙ omega (arith, whole, bound)

-- One look into the table is four steps.
pub crc_nibble-crc_steps :
    (crc byte : ℕ) → crc < 0x10000 → crc_nibble crc byte ≡ crc_steps 4 crc (byte % 16)
unfolding crc_nibble
crc_nibble-crc_steps crc byte h =
    let hi = crc / 0x1000 in
    let lo = crc % 0x1000 in
    let value = byte % 16 in
    let t = crc_steps 4 (hi * 0x1000) value in
    let parts : bit_xor lo (hi * 0x1000) ≡ crc =
      bit_xor-disjoint hi lo (omega arith) ∙ (let e : hi * 0x1000 + lo ≡ crc = omega arith in e) in
    let small = crc_steps-lt 4 (hi * 0x1000) value (omega arith) in
    let shifted : crc * 16 ≡ hi * 0x10000 + lo * 2 * 2 * 2 * 2 = omega arith in
    ap (λ n. bit_xor (crc * 16) n % 0x10000) (lookup-crc_steps hi value (omega arith) (omega arith))
    ∙ ap (λ n. bit_xor n t % 0x10000) shifted
    ∙ bit_xor-mod hi (lo * 2 * 2 * 2 * 2) t (omega arith) small
    ∙ sym (four_steps lo (hi * 0x1000) value (omega arith) (omega arith))
    ∙ ap (λ n. crc_steps 4 n value) parts

crc_steps-crc_bits : (n crc value : ℕ) → crc_steps n crc value ≡ crc_bits crc (digits_of n value)
unfolding crc_steps
crc_steps-crc_bits zero crc value = refl
crc_steps-crc_bits (suc n) crc value =
    let e : bit_val (value % 2 == 1) ≡ value % 2 = ground arith in
    ap (λ b. crc_steps n (crc_step crc b) (value / 2)) (sym e)
    ∙ crc_steps-crc_bits n (crc_step crc (bit_val (value % 2 == 1))) (value / 2)

pub crc_bits-append :
    (crc : ℕ) (xs ys : List Bool) → crc_bits crc (xs ++ ys) ≡ crc_bits (crc_bits crc xs) ys
crc_bits-append crc [] ys = refl
crc_bits-append crc (x ∷ xs) ys = crc_bits-append (crc_step crc (bit_val x)) xs ys

pub crc_bits-lt : (crc : ℕ) (xs : List Bool) → crc < 0x10000 → crc_bits crc xs < 0x10000
crc_bits-lt crc [] h = h
crc_bits-lt crc (x ∷ xs) h = crc_bits-lt (crc_step crc (bit_val x)) xs (crc_step-lt crc (bit_val x))

crc_steps_low : (crc value : ℕ) → crc_steps 4 crc (value % 16) ≡ crc_steps 4 crc value
unfolding crc_steps
crc_steps_low crc value =
    let e1 : value % 16 % 2 ≡ value % 2 = omega arith in
    let e2 : value % 16 / 2 % 2 ≡ value / 2 % 2 = omega arith in
    let e3 : value % 16 / 2 / 2 % 2 ≡ value / 2 / 2 % 2 = omega arith in
    let e4 : value % 16 / 2 / 2 / 2 % 2 ≡ value / 2 / 2 / 2 % 2 = omega arith in
    rw (e1, e2, e3, e4) refl

crc_steps-eight :
    (crc value : ℕ)
    → crc_steps 8 crc value ≡ crc_steps 4 (crc_steps 4 crc value) (value / 2 / 2 / 2 / 2)
unfolding crc_steps
crc_steps-eight crc value = refl

-- `ValidatePacket`'s loop over any bytes, from any 16-bit register, ends with the register that
-- takes the bits of these bytes one at a time, the lowest bit of each byte first.
pub crc_bytes-crc_bits :
    (crc : ℕ) (vs : List ℕ) → crc < 0x10000 → crc_bytes crc vs ≡ crc_bits crc (bits_of vs)
unfolding crc_bytes
crc_bytes-crc_bits crc [] h = refl
crc_bytes-crc_bits crc (v ∷ vs) h =
    let low = crc_nibble-crc_steps crc v h ∙ crc_steps_low crc v in
    let mid = crc_steps-lt 4 crc v h in
    let e : v / 16 ≡ v / 2 / 2 / 2 / 2 = omega arith in
    let high =
      crc_nibble-crc_steps (crc_steps 4 crc v) (v / 16) mid
      ∙ crc_steps_low (crc_steps 4 crc v) (v / 16)
      ∙ ap (crc_steps 4 (crc_steps 4 crc v)) e in
    let byte =
      ap (λ c. crc_nibble c (v / 16)) low
      ∙ high
      ∙ sym (crc_steps-eight crc v)
      ∙ crc_steps-crc_bits 8 crc v in
    ap (λ c. crc_bytes c vs) byte
    ∙ crc_bytes-crc_bits (crc_bits crc (digits_of 8 v)) vs (crc_bits-lt crc (digits_of 8 v) h)
    ∙ sym (crc_bits-append crc (digits_of 8 v) (bits_of vs))
