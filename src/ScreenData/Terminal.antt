-- ===== src/ScreenData/Terminal.antt =====
-- What a terminal makes of the characters and orders that Firmware/main/Screen.cpp writes: the cells
-- of its screen that it sets, in order.
use zmachine.Base.{
  ℕ, ◌+◌, ◌-◌, ◌*◌, ◌%◌, Bool, true, false, List, [], ◌∷◌, ◌++◌, ◌==◌, if◌then◌else◌, replicate,
}

-- A cell holds a character, or the attribute of the field that starts there.
pub data Cell : Type 0 where
  character : ℕ → Cell
  attribute : ℕ → Cell

pub data Order : Type 0 where
  no_order : Order
  address_order : Order
  cursor_order : Order
  field_order : Order
  repeat_order : Order

abbrev pub order_of : ℕ → Order
order_of byte =
    if byte == 0x11
    then address_order
    else if byte == 0x13
    then cursor_order
    else if byte == 0x1D
    then field_order
    else if byte == 0x3C
    then repeat_order
    else no_order

-- What the terminal waits for: a character or an order, the two bytes of an address, which may
-- belong to a repetition, the character that is repeated, and an attribute.
pub data Awaits : Type 0 where
  anything : Awaits
  high_byte : Bool → Awaits
  low_byte : Bool → ℕ → Awaits
  repeated : ℕ → Awaits
  field : Awaits

-- The low six bits of the two bytes.
abbrev pub address_of : ℕ → ℕ → ℕ
address_of high low = high % 64 * 64 + low % 64

-- The number of positions up to an address, the whole screen for the same position.
abbrev pub positions : ℕ → ℕ → ℕ
positions from to = let count = (to + 1920 - from) % 1920 in if count == 0 then 1920 else count

-- Cells one behind the other, around the end of the screen
abbrev pub cells_from : ℕ → List Cell → List (ℕ × Cell)
cells_from position [] = []
cells_from position (cell ∷ cells) = (position, cell) ∷ cells_from ((position + 1) % 1920) cells

abbrev pub shows : Awaits → ℕ → List ℕ → List (ℕ × Cell)
shows awaits position [] = []
shows anything position (byte ∷ bytes) = elim (order_of byte) [
  | no_order ↦ (position, character byte) ∷ shows anything ((position + 1) % 1920) bytes
  | address_order ↦ shows (high_byte false) position bytes
  | cursor_order ↦ shows anything position bytes
  | field_order ↦ shows field position bytes
  | repeat_order ↦ shows (high_byte true) position bytes
]
shows (high_byte repeats) position (byte ∷ bytes) = shows (low_byte repeats byte) position bytes
shows (low_byte true high) position (byte ∷ bytes) =
    shows (repeated (address_of high byte)) position bytes
shows (low_byte false high) position (byte ∷ bytes) = shows anything (address_of high byte) bytes
shows (repeated to) position (byte ∷ bytes) =
    cells_from position (replicate (positions position to) (character byte))
    ++ shows anything to bytes
shows field position (byte ∷ bytes) =
    (position, attribute byte) ∷ shows anything ((position + 1) % 1920) bytes
