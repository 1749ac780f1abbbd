-- ===== src/CharTables/RoundTrip.antt =====
-- About the character tables of Firmware/main/3270.cpp on the characters that a screen holds.
use zmachine.Base.{
  ℕ, ◌+◌, ◌-◌, ◌<◌, ◌≤◌, ◌≡◌, refl, arith, Bool, true, ◌&&◌, ltb, leb, ◌==◌, List, [], ◌∷◌,
}
use zmachine.Base.Bits.{grid, grid-at}
use zmachine.CharTables.{
  map_char, map_run, map_range, map_chars, build_text_tables, to_ebcdic, to_ascii,
}

abbrev pub IsPrintable : ℕ → Type 0
IsPrintable c = (0x20 ≤ c) × (c < 0x7F)

abbrev pub IsText : List ℕ → Type 0
IsText [] = Unit {0}
IsText (c ∷ value) = IsPrintable c × IsText value

prints : ℕ → ℕ → Bool
prints _ c = let e = to_ebcdic (0x20 + c) in leb 0x40 e && (ltb e 0x100 && (to_ascii e == 0x20 + c))

prints_table : grid prints 1 95 ≡ true
unfolding grid prints to_ebcdic to_ascii build_text_tables map_chars map_range map_run map_char
prints_table = refl

-- A printable ASCII character, turned to EBCDIC and back by the tables that `BuildTextTables`
-- fills, is itself, and its EBCDIC is a byte from 0x40 on, which is no order of a data stream.
pub to_ascii-to_ebcdic :
    (c : ℕ)
    → IsPrintable c
    → (to_ascii (to_ebcdic c) ≡ c) × (0x40 ≤ to_ebcdic c) × (to_ebcdic c < 0x100)
unfolding prints
to_ascii-to_ebcdic c (low, high) =
    let k = c - 0x20 in
    let same : 0x20 + k ≡ c = omega arith in
    let holds = grid-at prints 95 0 k 1 prints_table (omega arith) (omega arith) in
    rw (← same) (ground (arith, holds))
