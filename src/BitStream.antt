-- ===== src/BitStream.antt =====
-- `CBitStream` of Firmware/main/LowLevel.cpp: bits in an array of bytes, the lowest bit of a byte
-- first. An access outside the array is `none`.
pub mod Digits
pub mod Laws
pub mod Reading
use zmachine.Base.{
  ℕ, ◌+◌, ◌*◌, ◌%◌, Bool, not, true, false, Option, none, some, List, ◌++◌, ltb, leb, ◌==◌,
  if◌then◌else◌, bit_and, bit_or, get_elem?, set, drop, length,
}
use zmachine.Base.Int.{ℤ, pos, negsuc, eq_ℤ, ◌+ℤ◌}

abbrev pub max_message_length : ℕ
max_message_length = 3072

pub record BitStream : Type 0 where
  pub total_bits : ℤ
  pub current_byte : ℕ
  pub current_mask : ℕ
  pub bytes : List ℕ

-- Bytes[i] = v
abbrev pub store : List ℕ → ℕ → ℕ → Option (List ℕ)
store bytes i v = if ltb i (length bytes) then some (set bytes i v) else none

-- The constructor with data; `old` is what the array held.
unfoldable pub of_bytes : List ℕ → List ℕ → Option BitStream
of_bytes old source =
    if leb (length source) (length old)
    then some (record {
      total_bits = pos (8 * length source);
      current_byte = length source;
      current_mask = 1;
      bytes = source ++ drop (length source) old;
    })
    else none

unfoldable pub reset : BitStream → Option BitStream
reset s = elim (store s.bytes 0 0) [
  | none ↦ none
  | some bytes ↦
      some (record { total_bits = pos 0; current_byte = 0; current_mask = 1; bytes = bytes })
]

unfoldable pub flush : BitStream → BitStream
flush s = record s { current_byte = 0; current_mask = 1 }

unfoldable pub finished : BitStream → Bool
finished s = eq_ℤ s.total_bits (pos 0)

unfoldable pub read_bit : BitStream → Option (Bool × BitStream)
read_bit s = elim (get_elem? s.bytes s.current_byte) [
  | none ↦ none
  | some byte ↦
      let bit = not (bit_and byte s.current_mask == 0) in
      let total = s.total_bits +ℤ negsuc 0 in
      if s.current_mask == 0x80
      then some (
        bit,
        record s { total_bits = total; current_mask = 1; current_byte = s.current_byte + 1 },
      )
      else some (bit, record s { total_bits = total; current_mask = s.current_mask * 2 % 256 })
]

-- if (bBit) Bytes[CurrentByte] |= CurrentMask
unfoldable pub put_bit : Bool → BitStream → Option (List ℕ)
put_bit false s = some s.bytes
put_bit true s = elim (get_elem? s.bytes s.current_byte) [
  | none ↦ none
  | some byte ↦ store s.bytes s.current_byte (bit_or byte s.current_mask)
]

unfoldable pub write_bit : Bool → BitStream → Option BitStream
write_bit bit s = elim (put_bit bit s) [
  | none ↦ none
  | some bytes ↦
      let total = s.total_bits +ℤ pos 1 in
      if s.current_mask == 0x80
      then elim (store bytes (s.current_byte + 1) 0) [
        | none ↦ none
        | some cleared ↦ some (record {
          total_bits = total;
          current_byte = s.current_byte + 1;
          current_mask = 1;
          bytes = cleared;
        })
      ]
      else some
          (record s { total_bits = total; current_mask = s.current_mask * 2 % 256; bytes = bytes })
]
