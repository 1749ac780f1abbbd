-- ===== src/Tests/Screen.antt =====
-- The theorems about the code of Screen.cpp and 3270.cpp at concrete inputs.
use mathlib.Core.List.{flatten}
use zmachine.Base.{
  ℕ, ◌≤◌, ◌≡◌, refl, arith, Bool, true, false, none, some, List, [], ◌∷◌, ◌++◌, drop, length,
  replicate, get_elem?, take,
}
use zmachine.Base.Int.{pos}
use zmachine.Base.Maybe.{◌>>=◌}
use zmachine.ScreenData.{write_screen_data}
use zmachine.ScreenData.Terminal.{anything, cells_from, shows}
use zmachine.ScreenData.Address.{position}
use zmachine.ScreenData.RoundTrip.{text_cells, shows-write_screen_data}
use zmachine.Screen.Serialize.Display.{lines_cells, shows-serialize_screen_3270}
use zmachine.Screen.{
  Screen, blank_line, put_cell, get_cell, start_reading, read_wait, copy_lines, scroll_lines,
  show_more, clear_line, conditional_scroll, look_back, move_cells, wrap_word, put_char, print_char,
  print_chars, print_text,
}
use zmachine.Screen.Reply.{c_string, reply_offset, reply_text, process_3270_reply}
use zmachine.Screen.Grid.{blank_rows-IsGrid}
use zmachine.Screen.Valid.{IsValid, Yields, process_3270_reply-IsValid}
use zmachine.Screen.Scrolling.{WaitKeeps}
use zmachine.Screen.Printing.{print_text-IsValid}
use zmachine.Screen.Serialize.{serialize_screen_3270}
use zmachine.Screen.Serialize.Bounds.{
  AtMost, screen_bytes, serialize_screen_3270_lem, serialize_screen_3270-raw,
}

-- The cursor is near the end of the last line, and the next scroll asks for a key.
abbrev pub full_screen : Screen
full_screen = record {
  rows = replicate 24 blank_line;
  packets = [];
  raw_stream = none;
  top_line = 0;
  cursor_row = 23;
  cursor_col = 78;
  last_input_length = pos 0;
  non_scrolling_rows = 1;
  scrolls_without_input = 23;
  wordwrap = false;
  raw_input_wanted = false;
  password_input = false;
  cancel_input = false;
  waiting_input = [];
  suspended = false;
}

full_screen-IsValid : IsValid full_screen
full_screen-IsValid = record {
  shown = record { grid = blank_rows-IsGrid; top = omega arith; row = omega arith };
  col = omega arith;
  wrap = λ e. absurd (ground arith);
}

-- The user presses ENTER.
abbrev pub enter : Screen → Screen × Bool
enter s = (process_3270_reply (0x7D ∷ 0 ∷ 0 ∷ []) s, true)

enter-keeps : WaitKeeps enter
unfolding WaitKeeps
enter-keeps s v = process_3270_reply-IsValid (0x7D ∷ 0 ∷ 0 ∷ []) s v

abbrev words : List ℕ
words = b'o' ∷ b'n' ∷ b'c' ∷ b'e' ∷ b' ' ∷ b'm' ∷ b'o' ∷ b'r' ∷ b'e' ∷ b'\n' ∷ []

print_text-IsValid_example : Yields IsValid (print_text enter 2 words full_screen)
print_text-IsValid_example =
    print_text-IsValid enter enter-keeps words full_screen full_screen-IsValid

serialize_screen_3270_lem_example :
    (packets : List (List ℕ)) × (serialize_screen_3270 full_screen
      ≡ some (record full_screen { packets = packets; raw_stream = none }, length packets))
    × (flatten packets ≡ screen_bytes full_screen)
    × AtMost 240 packets
    × (length packets ≤ 16)
serialize_screen_3270_lem_example = serialize_screen_3270_lem full_screen full_screen-IsValid refl

abbrev raw_bytes : List ℕ
raw_bytes = 0xF1 ∷ 0xC3 ∷ 0xC8 ∷ []

serialize_screen_3270-raw_example :
    (packets : List (List ℕ)) × (serialize_screen_3270
        (record full_screen { raw_stream = some raw_bytes })
      ≡ some (record full_screen { packets = packets; raw_stream = none }, length packets))
    × (flatten packets ≡ raw_bytes)
    × AtMost 240 packets
    × (length packets ≤ 23)
serialize_screen_3270-raw_example =
    serialize_screen_3270-raw (record full_screen { raw_stream = some raw_bytes }) raw_bytes refl
      (omega arith)

-- Five spaces at least are one order.
abbrev spaced : List ℕ
spaced = b'a' ∷ b' ' ∷ b' ' ∷ b' ' ∷ b' ' ∷ b' ' ∷ b' ' ∷ b'b' ∷ []

-- Behind the text, the terminal goes on with the next bytes.
shows-write_screen_data_example :
    shows anything (position 0 3) (write_screen_data 0 3 spaced ++ 0xC1 ∷ [])
    ≡ cells_from (position 0 3) (text_cells spaced) ++ shows anything (position 8 3) (0xC1 ∷ [])
shows-write_screen_data_example =
    shows-write_screen_data 0 3 spaced (0xC1 ∷ []) (omega arith) (omega arith) (omega arith)

abbrev prompt_screen : Screen
prompt_screen = record full_screen { cursor_col = 2 }

prompt_screen-IsValid : IsValid prompt_screen
prompt_screen-IsValid = record {
  shown = record { grid = blank_rows-IsGrid; top = omega arith; row = omega arith };
  col = omega arith;
  wrap = λ e. absurd (ground arith);
}

shows-serialize_screen_3270_example :
    (packets : List (List ℕ)) × (serialize_screen_3270 prompt_screen
      ≡ some (record prompt_screen { packets = packets; raw_stream = none }, length packets))
    × (take 2 (flatten packets) ≡ 0xF1 ∷ 0xC3 ∷ [])
    × (shows anything 0 (drop 2 (flatten packets)) ≡ lines_cells 24 0 0 prompt_screen)
shows-serialize_screen_3270_example =
    shows-serialize_screen_3270 prompt_screen prompt_screen-IsValid refl

-- The word goes to the next line, and the line there behind it.
wrapped_word :
    (do
      printed ← print_text enter 2 words full_screen
      line ← get_elem? printed.rows 0
      some (take 9 line))
    ≡ some (take 9 words)
unfolding print_text print_chars print_char put_char put_cell get_cell wrap_word look_back
    move_cells conditional_scroll scroll_lines copy_lines show_more read_wait start_reading
    clear_line process_3270_reply reply_text reply_offset c_string
wrapped_word = refl
