-- ===== src/Crc/Residue.antt =====
-- About the check sequence that Firmware/main/LowLevel.cpp appends and crc.cpp checks.
use zmachine.Base.{
  ℕ, zero, suc, ◌*◌, ◌/◌, ◌%◌, ◌<◌, ◌≡◌, refl, sym, ap, ◌∙◌, arith, Bool, List, [], length, ◌∷◌,
  ◌==◌, bit_xor,
}
use zmachine.Base.Bits.{bit_val}
use zmachine.Base.XorLaws.{bit_xor-zero, zero-bit_xor}
use zmachine.Crc.{crc_step}
use zmachine.Crc.Step.{crc_step-bit_xor, crc_step-lt}
use zmachine.Crc.Table.{crc_bits}

-- The complement of the register, its top bit first.
abbrev pub check_bits : ℕ → ℕ → List Bool
check_bits zero crc = []
check_bits (suc n) crc = (crc / 0x8000 == 0) ∷ check_bits n (crc * 2 % 0x10000)

pub length-check_bits : (n crc : ℕ) → length (check_bits n crc) ≡ n
length-check_bits zero crc = refl
length-check_bits (suc n) crc = ap suc (length-check_bits n (crc * 2 % 0x10000))

abbrev pub shifted : ℕ → ℕ → ℕ
shifted zero crc = crc
shifted (suc n) crc = shifted n (crc * 2 % 0x10000)

abbrev ones : ℕ → ℕ → ℕ
ones zero crc = crc
ones (suc n) crc = ones n (crc_step crc 1)

-- Every check bit looks like a one to the rest of the register.
check_bit : (top : ℕ) → top < 2 → bit_xor (bit_val (top == 0)) top ≡ 1
check_bit zero h = refl
check_bit (suc zero) h = refl
check_bit (suc (suc top)) h = absurd (omega arith)

crc_bits-check_bits :
    (n c s : ℕ)
    → c < 0x10000
    → s < 0x10000
    → crc_bits (bit_xor c s) (check_bits n c) ≡ bit_xor (shifted n c) (ones n s)
crc_bits-check_bits zero c s hc hs = refl
crc_bits-check_bits (suc n) c s hc hs =
    let top = c / 0x8000 in
    let b = bit_val (top == 0) in
    let next = c * 2 % 0x10000 in
    let small : b < 2 = ground arith in
    ap (λ r. crc_bits r (check_bits n next))
      (crc_step-bit_xor c s b hc hs small
        ∙ ap (λ x. bit_xor next (crc_step s x)) (check_bit top (omega arith)))
    ∙ crc_bits-check_bits n next (crc_step s 1) (omega arith) (crc_step-lt s 1)

shifted_out : (c : ℕ) → c < 0x10000 → shifted 16 c ≡ 0
shifted_out c h = omega arith

ones-sixteen : ones 16 0 ≡ 0x1D0F
unfolding crc_step
ones-sixteen = refl

-- A register that takes its own complement ends at the constant that `ValidatePacket` wants.
pub crc_bits_residue : (c : ℕ) → c < 0x10000 → crc_bits c (check_bits 16 c) ≡ 0x1D0F
crc_bits_residue c h =
    ap (λ r. crc_bits r (check_bits 16 c)) (sym (bit_xor-zero c))
    ∙ crc_bits-check_bits 16 c 0 h (omega arith)
    ∙ ap (λ x. bit_xor x (ones 16 0)) (shifted_out c h)
    ∙ zero-bit_xor (ones 16 0)
    ∙ ones-sixteen
