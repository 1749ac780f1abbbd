-- ===== src/ScreenData/Address.antt =====
-- About the addresses that `AddScreenAddress` of Firmware/main/Screen.cpp writes.
use zmachine.Base.{
  ℕ, ◌+◌, ◌-◌, ◌*◌, ◌/◌, ◌%◌, ◌<◌, ◌≤◌, ◌≡◌, refl, ap, ◌∙◌, arith, Bool, true, leb, ◌==◌, ==_iff,
  if◌then◌else◌, bit_and, bit_or, [], ◌∷◌,
}
use zmachine.Base.Bits.{grid, grid-at}
use zmachine.ScreenData.{num_rows, num_cols, screen_address, add_screen_address}
use zmachine.ScreenData.Terminal.{address_of}

packs : ℕ → ℕ → Bool
packs high low =
    let a = high * 64 + low in
    bit_or (bit_or (bit_and a 0x0FC0 * 4) (bit_and a 0x3F)) 0x4040 == (high + 64) * 256 + (low + 64)

packs_table : grid packs 30 64 ≡ true
unfolding grid packs
packs_table = refl

-- The position that an address stands for.
abbrev pub position : ℕ → ℕ → ℕ
position col row = (row * 80 + col) % 1920

pub screen_address_lem :
    (col row : ℕ)
    → row < 24
    → col ≤ 80
    → screen_address col row ≡ (position col row / 64 + 64) * 256 + (position col row % 64 + 64)
unfolding screen_address packs
screen_address_lem col row hr hc =
    let p = position col row in
    let wrapped : (let a = (row * num_cols + col) % 0x10000 in
          if leb (num_cols * num_rows) a then a - num_cols * num_rows else a)
        ≡ p / 64 * 64 + p % 64 =
      ground arith in
    let packed =
      (==_iff _ _).0
        (grid-at packs 64 (p / 64) (p % 64) 30 packs_table (omega arith) (omega arith)) in
    ap (λ a. bit_or (bit_or (bit_and a 0x0FC0 * 4) (bit_and a 0x3F)) 0x4040 % 0x10000) wrapped
    ∙ ap (λ n. n % 0x10000) packed
    ∙ omega arith

-- The two bytes of an address: no orders, and read as the position.
pub add_screen_address_lem :
    (col row : ℕ)
    → row < 24
    → col ≤ 80
    → (high low : ℕ) × (add_screen_address col row ≡ high ∷ low ∷ [])
      × (address_of high low ≡ position col row)
unfolding add_screen_address
add_screen_address_lem col row hr hc =
    let address = screen_address_lem col row hr hc in
    let a = screen_address col row in (a / 256 % 256, a % 256, refl, omega arith)
