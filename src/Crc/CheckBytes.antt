-- ===== src/Crc/CheckBytes.antt =====
-- About the check sequence of Firmware/main/LowLevel.cpp as the two bytes that `ValidatePacket` of
-- crc.cpp reads.
use zmachine.Base.{
  ℕ, ◌+◌, ◌*◌, ◌/◌, ◌%◌, ◌<◌, ◌≡◌, refl, sym, ap, ◌∙◌, arith, Bool, true, false, List, [], ◌∷◌,
  ◌++◌, ◌==◌, length,
}
use mathlib.Core.List.{append-nil}
use zmachine.Base.Bits.{bit_val, digits_of, bits_of}
use zmachine.Base.XorLaws.{two_to}
use zmachine.BitStream.Digits.{bits_of-append}
use zmachine.Crc.{validate_packet}
use zmachine.Crc.Table.{crc_bits, crc_bytes-crc_bits, crc_bits-append, crc_bits-lt}
use zmachine.Crc.Residue.{check_bits, shifted, length-check_bits, crc_bits_residue}

-- The number with these binary digits.
abbrev from_digits : List Bool → ℕ
from_digits [] = 0
from_digits (b ∷ bits) = bit_val b + 2 * from_digits bits

parts : (b : Bool) (n : ℕ) → ((bit_val b + 2 * n) % 2 == 1) ≡ b × ((bit_val b + 2 * n) / 2 ≡ n)
parts true n = ground arith
parts false n = ground arith

digits_of-from_digits : (bits : List Bool) → digits_of (length bits) (from_digits bits) ≡ bits
digits_of-from_digits [] = refl
digits_of-from_digits (b ∷ bits) =
    let (bit, rest) = parts b (from_digits bits) in
    rw (bit, rest) (ap (λ zs. b ∷ zs) (digits_of-from_digits bits))

pub from_digits-lt : (bits : List Bool) → from_digits bits < two_to (length bits)
from_digits-lt [] = omega arith
from_digits-lt (true ∷ bits) = omega (arith, from_digits-lt bits)
from_digits-lt (false ∷ bits) = omega (arith, from_digits-lt bits)

-- The check sequence as bytes.
abbrev pub check_bytes : ℕ → List ℕ
check_bytes crc = from_digits (check_bits 8 crc) ∷ from_digits (check_bits 8 (shifted 8 crc)) ∷ []

byte_digits : (crc : ℕ) → digits_of 8 (from_digits (check_bits 8 crc)) ≡ check_bits 8 crc
byte_digits crc =
    ap (λ n. digits_of n (from_digits (check_bits 8 crc))) (sym (length-check_bits 8 crc))
    ∙ digits_of-from_digits (check_bits 8 crc)

pub check_bytes-lt : (crc : ℕ) → from_digits (check_bits 8 crc) < 256
check_bytes-lt crc = from_digits-lt (check_bits 8 crc)

pub bits_of-check_bytes : (crc : ℕ) → bits_of (check_bytes crc) ≡ check_bits 16 crc
bits_of-check_bytes crc =
    ap (λ zs. digits_of 8 (from_digits (check_bits 8 crc)) ++ zs)
      (append-nil (digits_of 8 (from_digits (check_bits 8 (shifted 8 crc))))
        ∙ byte_digits (shifted 8 crc))
    ∙ ap (λ zs. zs ++ check_bits 8 (shifted 8 crc)) (byte_digits crc)

-- `ValidatePacket` accepts any bytes with their check sequence behind them: the complement of the
-- register after their bits, its top bit first, as two bytes.
pub validate_packet-check_bytes :
    (vs : List ℕ) → validate_packet (vs ++ check_bytes (crc_bits 0xFFFF (bits_of vs))) ≡ true
unfolding validate_packet
validate_packet-check_bytes vs =
    let crc = crc_bits 0xFFFF (bits_of vs) in
    let small = crc_bits-lt 0xFFFF (bits_of vs) (omega arith) in
    let whole =
      crc_bytes-crc_bits 0xFFFF (vs ++ check_bytes crc) (omega arith)
      ∙ ap (crc_bits 0xFFFF) (
          bits_of-append vs (check_bytes crc)
          ∙ ap (λ zs. bits_of vs ++ zs) (bits_of-check_bytes crc))
      ∙ crc_bits-append 0xFFFF (bits_of vs) (check_bits 16 crc)
      ∙ crc_bits_residue crc small in
    ap (λ n. n == 0x1D0F) whole
