-- ===== src/Dictionary/Packing.antt =====
-- About the packing of `zDictAddCharacter` in Firmware/main/zops.c and the unpacking of `printText`.
use zmachine.Base.{
  ℕ, ◌+◌, ◌*◌, ◌/◌, ◌%◌, ◌<◌, ◌≡◌, ◌⊎◌, refl, Bool, true, false, not, List, [], ◌∷◌, arith, leb,
  ◌==◌, ==_iff, bit_or, get_or, Bool-cases, inl, inr,
}
use zmachine.Base.Bits.{grid, grid-at}
use zmachine.Text.{codes_of}
use zmachine.Dictionary.{z_dict_init, z_dict_add_character, place_code, add_codes}

-- The first byte of a pair on top of `m`, 0 or the end mark 0x80; the second byte.
high_table : (m : ℕ) → Bool
high_table m = grid (λ c d. bit_or (bit_or m (c * 4)) d == m + c * 4 + d) 32 4

high_zero : high_table 0 ≡ true
unfolding high_table grid
high_zero = refl

high_mark : high_table 0x80 ≡ true
unfolding high_table grid
high_mark = refl

low_table : grid (λ c d. bit_or (bit_or 0 (c * 32 % 256)) d == c * 32 % 256 + d) 32 32 ≡ true
unfolding grid
low_table = refl

high_byte :
    (m c d : ℕ) → high_table m ≡ true → c < 32 → d < 4 → bit_or (bit_or m (c * 4)) d ≡ m + c * 4 + d
unfolding high_table
high_byte m c d h hc hd =
    (==_iff _ _).0 (grid-at (λ c d. bit_or (bit_or m (c * 4)) d == m + c * 4 + d) 4 c d 32 h hc hd)

low_byte : (c d : ℕ) → c < 32 → d < 32 → bit_or (bit_or 0 (c * 32 % 256)) d ≡ c * 32 % 256 + d
low_byte c d hc hd = (==_iff _ _).0 (
    grid-at (λ c d. bit_or (bit_or 0 (c * 32 % 256)) d == c * 32 % 256 + d) 32 c d 32 low_table hc
      hd)

-- A pair of bytes holds three codes, and bit 7 of the first is the mark.
pair_codes :
    (m a b c : ℕ)
    → high_table m ≡ true
    → (m ≡ 0) ⊎ (m ≡ 0x80)
    → let b1 = bit_or (bit_or m (a % 32 * 4)) (b % 32 / 8) in
      let b2 = bit_or (bit_or 0 (b % 32 * 32 % 256)) (c % 32) in
      (codes_of b1 b2 ≡ a % 32 ∷ b % 32 ∷ c % 32 ∷ []) × (leb 128 b1 ≡ leb 128 m)
pair_codes m a b c t two =
    let high = high_byte m (a % 32) (b % 32 / 8) t (omega arith) (omega arith) in
    let low = low_byte (b % 32) (c % 32) (omega arith) (omega arith) in
    rw (high, low) (ground arith, ground arith)

-- The codes in `coded[i]` and `coded[i + 1]`, and whether they end a text.
abbrev pub unpack : ℕ → List ℕ → List ℕ
unpack i coded = codes_of (get_or coded i 0) (get_or coded (i + 1) 0)

abbrev pub is_end : ℕ → List ℕ → Bool
is_end i coded = leb 128 (get_or coded i 0)

module _ (version c0 c1 c2 c3 c4 c5 c6 c7 c8 : ℕ) where
  abbrev pub packed : List ℕ
  packed = (add_codes (z_dict_init version) (c0 ∷ c1 ∷ c2 ∷ c3 ∷ c4 ∷ c5 ∷ c6 ∷ c7 ∷ c8 ∷ [])).coded

  -- Nine codes packed by `zDictAddCharacter` are unpacked by `printText`'s shifts as the same
  -- codes cut to five bits; the text ends with the second pair of bytes up to version 3, and with
  -- the third from version 4 on.
  pub unpack-packed :
      (unpack 0 packed ≡ c0 % 32 ∷ c1 % 32 ∷ c2 % 32 ∷ [])
      × (unpack 2 packed ≡ c3 % 32 ∷ c4 % 32 ∷ c5 % 32 ∷ [])
      × (unpack 4 packed ≡ c6 % 32 ∷ c7 % 32 ∷ c8 % 32 ∷ [])
      × (is_end 0 packed ≡ false)
      × (is_end 2 packed ≡ leb version 3)
      × (is_end 4 packed ≡ not (leb version 3))
  unfolding add_codes z_dict_init z_dict_add_character place_code
  unpack-packed =
      let first = pair_codes 0 c0 c1 c2 high_zero (inl refl) in
      elim (Bool-cases (leb version 3)) [
        | inl old ↦
            let second = pair_codes 0x80 c3 c4 c5 high_mark (inr refl) in
            let third = pair_codes 0 c6 c7 c8 high_zero (inl refl) in
            rw old (first.0, second.0, third.0, first.1, second.1, third.1)
        | inr new ↦
            let second = pair_codes 0 c3 c4 c5 high_zero (inl refl) in
            let third = pair_codes 0x80 c6 c7 c8 high_mark (inr refl) in
            rw new (first.0, second.0, third.0, first.1, second.1, third.1)
      ]
