-- ===== src/CharTables.antt =====
-- Firmware/main/3270.cpp: the tables between ASCII and EBCDIC. A character is its byte.
pub mod RoundTrip
use zmachine.Base.{ℕ, zero, suc, ◌+◌, ◌-◌, List, [], ◌∷◌, set, get_or, replicate}

pub record CharTables : Type 0 where
  pub ebcdic_to_ascii : List ℕ
  pub ascii_to_ebcdic : List ℕ

unfoldable pub map_char : ℕ → ℕ → CharTables → CharTables
map_char ascii ebcdic t = record {
  ebcdic_to_ascii = set t.ebcdic_to_ascii ebcdic ascii;
  ascii_to_ebcdic = set t.ascii_to_ebcdic ascii ebcdic;
}

-- for (char ASCII = ascii; ASCII < ascii + n; ASCII++)
unfoldable pub map_run : ℕ → ℕ → ℕ → CharTables → CharTables
map_run zero ascii ebcdic t = t
map_run (suc n) ascii ebcdic t = map_run n (ascii + 1) (ebcdic + 1) (map_char ascii ebcdic t)

unfoldable pub map_range : ℕ → ℕ → ℕ → CharTables → CharTables
map_range ascii_start ascii_end ebcdic t =
    map_run (ascii_end + 1 - ascii_start) ascii_start ebcdic t

-- Calls of `Map` with two arguments, in order.
unfoldable pub map_chars : List (ℕ × ℕ) → CharTables → CharTables
map_chars [] t = t
map_chars ((ascii, ebcdic) ∷ pairs) t = map_chars pairs (map_char ascii ebcdic t)

abbrev pub single_chars : List (ℕ × ℕ)
single_chars =
    (b'\n', 0x15)
    ∷ (b' ', 0x40)
    ∷ (b'$', 0x4A)
    ∷ (b'.', 0x4B)
    ∷ (b'<', 0x4C)
    ∷ (b'(', 0x4D)
    ∷ (b'+', 0x4E)
    ∷ (b'|', 0x4F)
    ∷ (b'&', 0x50)
    ∷ (b'!', 0x5A)
    ∷ (0xA2, 0x5B)
    ∷ (b'*', 0x5C)
    ∷ (b')', 0x5D)
    ∷ (b';', 0x5E)
    ∷ (0xAC, 0x5F)
    ∷ (b'-', 0x60)
    ∷ (b'/', 0x61)
    ∷ (0xA6, 0x6A)
    ∷ (b',', 0x6B)
    ∷ (b'%', 0x6C)
    ∷ (b'_', 0x6D)
    ∷ (b'>', 0x6E)
    ∷ (b'?', 0x6F)
    ∷ (b'`', 0x79)
    ∷ (b':', 0x7A)
    ∷ (b'#', 0x7B)
    ∷ (b'@', 0x7C)
    ∷ (0x27, 0x7D)
    ∷ (b'=', 0x7E)
    ∷ (0x22, 0x7F)
    ∷ (0xB1, 0x8F)
    ∷ (b'~', 0xA1)
    ∷ (b'^', 0xB0)
    ∷ (b'[', 0xBA)
    ∷ (b']', 0xBB)
    ∷ (b'{', 0xC0)
    ∷ (b'}', 0xD0)
    ∷ (0x5C, 0xE0)
    ∷ (b'[', 0x8E)
    ∷ (b']', 0x8F)
    ∷ []

-- The tables after `BuildTextTables`.
unfoldable pub build_text_tables : CharTables
build_text_tables = map_chars single_chars (
    map_range b'0' b'9' 0xF0 (
      map_range b'S' b'Z' 0xE2 (
        map_range b'J' b'R' 0xD1 (
          map_range b'A' b'I' 0xC1 (
            map_range b's' b'z' 0xA2 (
              map_range b'j' b'r' 0x91 (
                map_range b'a' b'i' 0x81 (record {
                  ebcdic_to_ascii = replicate 256 b' ';
                  ascii_to_ebcdic = replicate 256 0x40;
                }))))))))

unfoldable pub to_ebcdic : ℕ → ℕ
to_ebcdic ascii = get_or build_text_tables.ascii_to_ebcdic ascii 0

unfoldable pub to_ascii : ℕ → ℕ
to_ascii ebcdic = get_or build_text_tables.ebcdic_to_ascii ebcdic 0
