-- ===== src/ScreenData.antt =====
-- The bytes of a line of text in Firmware/main/Screen.cpp: `AddScreenAddress`, `WriteMultiple` and
-- `WriteScreenData`. What a function writes through `Data` is its list of bytes.
pub mod Terminal
pub mod Address
pub mod Length
pub mod RoundTrip
use zmachine.Base.{
  ℕ, zero, suc, ◌+◌, ◌-◌, ◌*◌, ◌/◌, ◌%◌, List, [], ◌∷◌, ◌++◌, leb, ◌==◌, if◌then◌else◌, bit_and,
  bit_or, replicate,
}
use zmachine.CharTables.{to_ebcdic}

-- NUM_ROWS, NUM_COLS and the orders of a 3270 data stream
abbrev pub num_rows : ℕ
num_rows = 24

abbrev pub num_cols : ℕ
num_cols = 80

abbrev pub repeat_to_address : ℕ
repeat_to_address = 0x3C

unfoldable pub screen_address : ℕ → ℕ → ℕ
screen_address col row =
    let address = (row * num_cols + col) % 0x10000 in
    let wrapped =
      if leb (num_cols * num_rows) address then address - num_cols * num_rows else address in
    bit_or (bit_or (bit_and wrapped 0x0FC0 * 4) (bit_and wrapped 0x3F)) 0x4040 % 0x10000

unfoldable pub add_screen_address : ℕ → ℕ → List ℕ
add_screen_address col row =
    let address = screen_address col row in address / 256 % 256 ∷ address % 256 ∷ []

-- The bytes, for the column behind the run.
unfoldable pub write_multiple : ℕ → ℕ → ℕ → ℕ → List ℕ
write_multiple col row ebcdic run =
    if leb run 4
    then replicate run ebcdic
    else repeat_to_address ∷ (add_screen_address (col + run) row ++ ebcdic ∷ [])

-- while (NumData--), with the variables `Run` and `LastChar`
unfoldable pub write_runs : ℕ → List ℕ → ℕ → ℕ → ℕ → List ℕ
write_runs row [] col run last_char = write_multiple col row last_char run
write_runs row (ascii ∷ value) col run last_char =
    let same = to_ebcdic ascii == last_char in
    (if same then [] else write_multiple col row last_char run)
    ++ write_runs row value (if same then col else col + run) (if same then run + 1 else 1)
        (to_ebcdic ascii)

unfoldable pub write_screen_data : ℕ → ℕ → List ℕ → List ℕ
write_screen_data col row value = write_runs row value col 0 0
