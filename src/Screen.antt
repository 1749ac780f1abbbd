-- ===== src/Screen.antt =====
-- The screen of Firmware/main/Screen.cpp: its rows, its cursor, printing, and what is typed. An access
-- outside an array is `none`; the source's `int`s are never negative here, but for a length.
pub mod Grid
pub mod Reply
pub mod Valid
pub mod Scrolling
pub mod Printing
pub mod Serialize
use zmachine.Base.{
  ℕ, zero, suc, ◌+◌, ◌-◌, ◌%◌, Bool, true, false, not, ◌&&◌, ◌||◌, Option, none, some, List, [],
  ◌∷◌, map, ltb, leb, ◌==◌, if◌then◌else◌, get_elem?, set, take, drop, replicate, length,
}
use zmachine.Base.Int.{ℤ, pos, negsuc, ltb_ℤ}
use zmachine.Base.Maybe.{◌>>=◌}
use zmachine.CharTables.{to_ascii}
use zmachine.ScreenData.{num_rows, num_cols}

-- `Row` is a ring that starts at `TopLine`. `RawStream` and its size are the bytes that are left of
-- it, and a packet is its bytes. `WaitingInput` is the text that a reply has put there.
pub record Screen : Type 0 where
  pub rows : List (List ℕ)
  pub packets : List (List ℕ)
  pub raw_stream : Option (List ℕ)
  pub top_line : ℕ
  pub cursor_row : ℕ
  pub cursor_col : ℕ
  pub last_input_length : ℤ
  pub non_scrolling_rows : ℕ
  pub scrolls_without_input : ℕ
  pub wordwrap : Bool
  pub raw_input_wanted : Bool
  pub password_input : Bool
  pub cancel_input : Bool
  pub waiting_input : List ℕ
  pub suspended : Bool

-- Row[row].Col[col] = char
unfoldable pub put_cell : ℕ → ℕ → ℕ → Screen → Option Screen
put_cell row col char s = do
  line ← get_elem? s.rows row
  if ltb col (length line)
      then some (record s { rows = set s.rows row (set line col char) })
      else none

unfoldable pub get_cell : ℕ → ℕ → Screen → Option ℕ
get_cell row col s = do line ← get_elem? s.rows row; get_elem? line col

unfoldable pub set_cursor_position : ℕ → ℕ → Screen → Screen
set_cursor_position x y s =
    let row = y + s.top_line in
    record s {
      wordwrap = false;
      cursor_col = x;
      cursor_row = if leb num_rows row then row - num_rows else row;
    }

unfoldable pub get_cursor_position : Screen → ℕ × ℕ
get_cursor_position s = (
  s.cursor_col,
  if ltb s.cursor_row s.top_line
      then s.cursor_row + num_rows - s.top_line
      else s.cursor_row - s.top_line,
)

abbrev pub blank_line : List ℕ
blank_line = replicate num_cols b' '

unfoldable pub clear : Screen → Screen
clear s = set_cursor_position 0 0 (record s { rows = replicate num_rows blank_line })

-- ReadInput up to the wait, and what the wait ended with. `wait` stands for ulTaskNotifyTake: what
-- the other task does to the screen in the meantime, and whether it gave a notification.
pub data ReadEnd : Type 0 where
  timed_out : ReadEnd
  cancelled : ReadEnd
  entered : ReadEnd

unfoldable pub start_reading : Bool → Bool → Screen → Screen
start_reading want_raw_input password s =
    let counted : Screen = record s { scrolls_without_input = 0 } in
    if not s.suspended && not s.cancel_input
    then record counted {
      waiting_input = [];
      raw_input_wanted = want_raw_input;
      password_input = password;
      suspended = true;
    }
    else counted

-- for (Line = NonScrollingRows - 1; Line >= 0; Line--)
unfoldable pub copy_lines : ℕ → Screen → Option Screen
copy_lines zero s = some s
copy_lines (suc line) s = do
  moved ← get_elem? s.rows ((s.top_line + line) % num_rows)
  copy_lines line (record s { rows = set s.rows ((s.top_line + 1 + line) % num_rows) moved })

-- if (CursorRow == TopLine)
unfoldable pub scroll_lines : Screen → Option Screen
scroll_lines s = do
  copied ← copy_lines s.non_scrolling_rows s
  some (record copied {
    top_line = (copied.top_line + 1) % num_rows;
    scrolls_without_input = copied.scrolls_without_input + 1;
  })

abbrev pub more_text : List ℕ
more_text = b'[' ∷ b'M' ∷ b'O' ∷ b'R' ∷ b'E' ∷ b']' ∷ []

unfoldable pub clear_line : Screen → Option Screen
clear_line s =
    if ltb s.cursor_row (length s.rows)
    then some (record s { rows = set s.rows s.cursor_row blank_line })
    else none

-- The loop that looks for the end of the word before.
unfoldable pub look_back : ℕ → ℕ → Screen → Option ℕ
look_back zero row s = some 0
look_back (suc last_col) row s = if leb (suc last_col) 40 then some (suc last_col) else (do
  char ← get_cell row (suc last_col) s
  elim (char == b' ' || (char == b',' || char == b'.')) [
    | true ↦ some (suc last_col)
    | false ↦ look_back last_col row s
  ])

-- while (LastCol < NUM_COLS), with the rounds left
unfoldable pub move_cells : ℕ → ℕ → ℕ → Screen → Option Screen
move_cells zero last_row last_col s = some s
move_cells (suc n) last_row last_col s = do
  char ← get_cell last_row last_col s
  put ← put_cell s.cursor_row s.cursor_col char s
  blanked ← put_cell last_row last_col b' ' (record put { cursor_col = put.cursor_col + 1 })
  move_cells n last_row (last_col + 1) blanked

-- The word that a line broke goes to the next.
unfoldable pub wrap_word : Screen → Option Screen
wrap_word s =
    let last_row = if s.cursor_row == 0 then num_rows - 1 else s.cursor_row - 1 in
    do
      last_col ← look_back (num_cols - 1) last_row s
      if ltb 40 last_col
          then move_cells (num_cols - (last_col + 1)) last_row (last_col + 1) s
          else (do
            char ← get_cell last_row (num_cols - 1) s
            put ← put_cell s.cursor_row s.cursor_col char s
            put_cell last_row (num_cols - 1) b'-' (record put { cursor_col = put.cursor_col + 1 }))

module _ (wait : Screen → Screen × Bool) where
  unfoldable pub read_wait : Bool → Bool → Screen → Screen × ReadEnd
  read_wait want_raw_input password s =
      let (later, given) = wait (start_reading want_raw_input password s) in
      if not given
      then (later, timed_out)
      else if ltb_ℤ later.last_input_length (pos 0)
      then (record later { cancel_input = false }, cancelled)
      else (record later { cancel_input = false }, entered)

  -- The functions below print through `print`, which is one level of calls deeper.
  unfoldable pub show_more : (List ℕ → Screen → Option Screen) → Screen → Option Screen
  show_more print s = do
    shown ← print more_text (record s { wordwrap = false })
    some (record (read_wait false true shown).0 { wordwrap = s.wordwrap; cursor_col = 0 })

  unfoldable pub conditional_scroll : (List ℕ → Screen → Option Screen) → Screen → Option Screen
  conditional_scroll print s =
      let row = if leb num_rows (s.cursor_row + 1) then 0 else s.cursor_row + 1 in
      let moved : Screen = record s { cursor_col = 0; cursor_row = row } in
      do
        scrolled ← if row == s.top_line then scroll_lines moved else some moved
        asked ←
            if ltb num_rows (scrolled.scrolls_without_input + scrolled.non_scrolling_rows)
            then show_more print scrolled
            else some scrolled
        clear_line asked

  -- Print of a printable character, behind the word wrap
  unfoldable pub put_char : (List ℕ → Screen → Option Screen) → ℕ → Screen → Option Screen
  put_char print char s = do
    put ← put_cell s.cursor_row s.cursor_col char s
    let next : Screen = record put { cursor_col = put.cursor_col + 1 }
    if leb num_cols next.cursor_col
        then conditional_scroll print (record next { wordwrap = not (char == b' ') })
        else some next

  unfoldable pub print_char : (List ℕ → Screen → Option Screen) → ℕ → Screen → Option Screen
  print_char print char s =
      if ltb char 0x20 || leb 0x7F char
      then (if char == b'\n'
          then conditional_scroll print (record s { wordwrap = false })
          else some s)
      else if not s.wordwrap
      then put_char print char s
      else if char == b' '
      then some (record s { wordwrap = false })
      else (do wrapped ← wrap_word (record s { wordwrap = false }); put_char print char wrapped)

  unfoldable pub print_chars : (List ℕ → Screen → Option Screen) → List ℕ → Screen → Option Screen
  print_chars print [] s = some s
  print_chars print (char ∷ text) s = do
    printed ← print_char print char s
    print_chars print text printed

  -- Print of a string, with the depth of its calls of itself.
  unfoldable pub print_text : ℕ → List ℕ → Screen → Option Screen
  print_text zero text s = none
  print_text (suc depth) text s = print_chars (print_text depth) text s

  -- ReadInput with its echo, and its result.
  unfoldable pub read_input : Bool → Bool → Bool → Screen → Option (Screen × ℤ)
  read_input want_raw_input password echo s =
      let (later, ended) = read_wait want_raw_input password s in
      elim ended [
        | timed_out ↦ some (later, negsuc 0)
        | cancelled ↦ some (later, pos 0)
        | entered ↦
            if not want_raw_input && echo
            then (do
              spaced ← print_text 2 (b' ' ∷ []) later
              shown ← if password then some spaced else print_text 2 later.waiting_input spaced
              ended' ← print_text 2 (b'\n' ∷ b'\n' ∷ []) shown
              some (ended', ended'.last_input_length))
            else some (later, later.last_input_length)
      ]
