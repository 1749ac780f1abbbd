-- ===== src/Crc.antt =====
-- Firmware/main/crc.cpp: the table of the frame check sequence and `ValidatePacket`. A `uint16_t`
-- keeps the low sixteen bits of what is assigned to it.
pub mod Step
pub mod Table
pub mod Residue
pub mod CheckBytes
use zmachine.Base.{
  ℕ, zero, suc, ◌+◌, ◌*◌, ◌/◌, ◌%◌, Bool, List, [], ◌∷◌, ◌==◌, if◌then◌else◌, bit_xor, get_or, set,
  replicate,
}

-- One step of the register for a data bit, the same in `BuildCRCLookup` and `CalculateCRC`.
unfoldable pub crc_step : ℕ → ℕ → ℕ
crc_step crc value =
    let last_bit = crc / 0x8000 in
    let data_bit = bit_xor value last_bit in
    let shifted = (data_bit + crc * 2) % 0x10000 in
    if data_bit == 0 then shifted else bit_xor shifted 0x1020

-- for (Step = 0; Step < steps; Step++)
unfoldable pub crc_steps : ℕ → ℕ → ℕ → ℕ
crc_steps zero crc value = crc
crc_steps (suc steps) crc value = crc_steps steps (crc_step crc (value % 2)) (value / 2)

-- CRCLookup[crc][data], out of range never read
abbrev pub lookup : List (List ℕ) → ℕ → ℕ → ℕ
lookup table crc value = get_or (get_or table crc []) value 0

abbrev set_lookup : List (List ℕ) → ℕ → ℕ → ℕ → List (List ℕ)
set_lookup table crc value v = set table crc (set (get_or table crc []) value v)

-- for (CRCNibble = crc; CRCNibble < crc + n; CRCNibble++)
unfoldable pub build_column : ℕ → ℕ → ℕ → List (List ℕ) → List (List ℕ)
build_column zero value crc table = table
build_column (suc n) value crc table =
    build_column n value (crc + 1)
      (set_lookup table crc value (crc_steps 4 (crc * 0x1000 % 0x10000) value))

-- for (DataNibble = data; DataNibble < data + n; DataNibble++)
unfoldable pub build_columns : ℕ → ℕ → List (List ℕ) → List (List ℕ)
build_columns zero value table = table
build_columns (suc n) value table = build_columns n (value + 1) (build_column 16 value 0 table)

-- The table after `BuildCRCLookup`; a static array is zero before.
unfoldable pub build_crc_lookup : List (List ℕ)
build_crc_lookup = build_columns 16 0 (replicate 16 (replicate 16 0))

-- CRC = (CRC << 4) ^ CRCLookup[CRC>>12][Byte & 0xF]
unfoldable pub crc_nibble : ℕ → ℕ → ℕ
crc_nibble crc byte =
    bit_xor (crc * 16) (lookup build_crc_lookup (crc / 0x1000) (byte % 16)) % 0x10000

-- The loop of `ValidatePacket` over a buffer and its length, which are a list here.
unfoldable pub crc_bytes : ℕ → List ℕ → ℕ
crc_bytes crc [] = crc
crc_bytes crc (byte ∷ value) = crc_bytes (crc_nibble (crc_nibble crc byte) (byte / 16)) value

unfoldable pub validate_packet : List ℕ → Bool
validate_packet value = crc_bytes 0xFFFF value == 0x1D0F
