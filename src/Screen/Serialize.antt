-- ===== src/Screen/Serialize.antt =====
-- SerializeScreen3270 of Firmware/main/Screen.cpp, behind its wait for `bSuspended`, and
-- GetScreen3270Packet. A packet is its bytes, and those of an earlier call are dropped.
pub mod Bounds
pub mod Display
use mathlib.Core.List.{flatten}
use zmachine.Base.{
  ℕ, zero, suc, ◌+◌, ◌-◌, Bool, true, false, ◌&&◌, ◌||◌, Option, none, some, List, [], ◌∷◌, ◌++◌,
  ltb, leb, ◌==◌, if◌then◌else◌, get_elem?, take, drop, length,
}
use zmachine.Base.Maybe.{◌>>=◌}
use zmachine.ScreenData.{
  num_rows, num_cols, repeat_to_address, add_screen_address, write_screen_data,
}
use zmachine.Screen.{Screen}

-- The commands and orders of a 3270 data stream
abbrev pub write_command : ℕ
write_command = 0xF1

abbrev pub wcc : ℕ
wcc = 0xC3

abbrev pub set_buffer_address : ℕ
set_buffer_address = 0x11

abbrev pub set_cursor : ℕ
set_cursor = 0x13

abbrev pub start_field : ℕ
start_field = 0x1D

abbrev pub protected_field : ℕ
protected_field = 0xF0

abbrev pub editable_field : ℕ
editable_field = 0x40

abbrev pub password_field : ℕ
password_field = 0x4C

-- The elements of `Packets`, the bytes of `Serialized3270Data`, and those of a packet
abbrev pub max_packets : ℕ
max_packets = 24

abbrev pub serialized_size : ℕ
serialized_size = 2304

abbrev pub max_packet_size : ℕ
max_packet_size = 240

-- if (RawStream), with enough rounds for the bytes that are left
unfoldable pub raw_packets : ℕ → ℕ → List ℕ → Option (List (List ℕ))
raw_packets zero num_packets raw = some []
raw_packets (suc n) num_packets [] = some []
raw_packets (suc n) num_packets (byte ∷ raw) = do
  rest ← raw_packets n (num_packets + 1) (drop max_packet_size (byte ∷ raw))
  if ltb (num_packets + 1) max_packets
      then some (take max_packet_size (byte ∷ raw) ∷ rest)
      else none

unfoldable pub cursor_field : ℕ → Screen → List ℕ
cursor_field line s =
    set_buffer_address
    ∷ (add_screen_address s.cursor_col line
        ++ start_field
          ∷ (if s.password_input then password_field else editable_field)
          ∷ set_cursor
          ∷ repeat_to_address
          ∷ (add_screen_address (num_cols - 1) line ++ 0 ∷ start_field ∷ protected_field ∷ []))

-- What a line adds; `row` is the characters of the current line.
unfoldable pub line_bytes : ℕ → ℕ → List ℕ → Screen → List ℕ
line_bytes line current_line row s =
    if line == 0
    then start_field
      ∷ (protected_field + 8)
      ∷ (write_screen_data 1 line (take (num_cols - 2) (drop 1 row))
          ++ start_field ∷ protected_field ∷ [])
    else write_screen_data 0 line row
      ++ (if current_line == s.cursor_row then cursor_field line s else [])

-- The loop on the lines that are left, with the bytes written so far and those of the packet that
-- is open.
unfoldable pub serialize_lines : ℕ → ℕ → ℕ → ℕ → ℕ → List ℕ → Screen → Option (List (List ℕ))
serialize_lines zero line current_line written num_packets packet s = some (packet ∷ [])
serialize_lines (suc n) line current_line written num_packets packet s = do
  row ← get_elem? s.rows current_line
  let bytes = line_bytes line current_line row s
  let closes = ltb max_packet_size (length packet + length bytes)
  let next_line = if leb num_rows (current_line + 1) then 0 else current_line + 1
  let next_packets = if closes then num_packets + 1 else num_packets
  let next_packet = if closes then bytes else packet ++ bytes
  rest ← serialize_lines n (line + 1) next_line (written + length bytes) next_packets next_packet s
  if ltb serialized_size (written + length bytes) || leb max_packets next_packets
      then none
      else some (if closes then packet ∷ rest else rest)

unfoldable pub header : List ℕ
header = write_command ∷ wcc ∷ set_buffer_address ∷ add_screen_address 0 0

-- The packets of the screen, or of the raw stream in its place
unfoldable pub serialize : Option (List ℕ) → Screen → Option (List (List ℕ))
serialize (some raw) s = raw_packets (length raw) 0 raw
serialize none s = serialize_lines num_rows 0 s.top_line (length header) 0 header s

unfoldable pub serialize_screen_3270 : Screen → Option (Screen × ℕ)
serialize_screen_3270 s = do
  packets ← serialize s.raw_stream s
  some (record s { packets = packets; raw_stream = none }, length packets)

unfoldable pub get_screen_3270_packet : ℕ → Screen → Option (List ℕ)
get_screen_3270_packet packet_num s = get_elem? s.packets packet_num
