-- ===== src/Screen/Serialize/Display.antt =====
-- About SerializeScreen3270 of Firmware/main/Screen.cpp: what a terminal shows of its packets.
use mathlib.Core.List.{flatten, append_assoc}
use zmachine.Base.{
  ℕ, zero, suc, ◌+◌, ◌-◌, ◌%◌, ◌<◌, ◌≤◌, ◌≡◌, refl, sym, ap, ◌∙◌, arith, Bool, true, false, Option,
  none, some, List, [], ◌∷◌, ◌++◌, ltb, leb, ◌==◌, subst, if◌then◌else◌, get_elem?, get_elem?-some,
  take, drop, length, length-take, replicate, length-replicate,
}
use zmachine.CharTables.RoundTrip.{IsPrintable, IsText}
use zmachine.SaveStream.Read.{length-drop}
use zmachine.ScreenData.{screen_address, add_screen_address, write_screen_data}
use zmachine.ScreenData.Terminal.{
  Cell, character, attribute, anything, address_of, positions, cells_from, shows,
}
use zmachine.ScreenData.Address.{position, add_screen_address_lem}
use zmachine.ScreenData.RoundTrip.{text_cells, cells_from-append, shows-write_screen_data}
use zmachine.Screen.{Screen}
use zmachine.Screen.Grid.{IsLine, IsGrid}
use zmachine.Screen.Valid.{IsValid}
use zmachine.Screen.Serialize.{cursor_field, line_bytes, header, serialize_screen_3270}
use zmachine.Screen.Serialize.Bounds.{row_at, lines_bytes, screen_bytes, serialize_screen_3270_lem}

-- The status line is a field of its own.
abbrev pub top_cells : List ℕ → List Cell
top_cells row = attribute 0xF8 ∷ (text_cells (take 78 (drop 1 row)) ++ attribute 0xF0 ∷ [])

-- The field for input goes from the cursor to the end of its line. From column 78 on, the repetition
-- that empties it has gone past its end, and takes the way around the whole screen.
abbrev pub nuls : ℕ → ℕ
nuls col = if ltb col 78 then 78 - col else 1998 - col

abbrev pub input_cells : Screen → List Cell
input_cells s =
    attribute (if s.password_input then 0x4C else 0x40)
    ∷ (replicate (nuls s.cursor_col) (character 0) ++ attribute 0xF0 ∷ [])

abbrev pub line_cells : ℕ → ℕ → List ℕ → Screen → List (ℕ × Cell)
line_cells line current row s =
    if line == 0
    then cells_from 0 (top_cells row)
    else cells_from (position 0 line) (text_cells row)
      ++ (if current == s.cursor_row
          then cells_from (position s.cursor_col line) (input_cells s)
          else [])

unfoldable pub lines_cells : ℕ → ℕ → ℕ → Screen → List (ℕ × Cell)
lines_cells zero line current s = []
lines_cells (suc n) line current s =
    line_cells line current (row_at current s) s
    ++ lines_cells n (line + 1) (if leb 24 (current + 1) then 0 else current + 1) s

-- Cells, a last one, and what comes then
cells_then :
    (cells : List Cell) (cell : Cell) (p q : ℕ) (rest : List (ℕ × Cell))
    → p < 1920
    → (p + length cells) % 1920 ≡ q
    → cells_from p cells ++ (q, cell) ∷ rest ≡ cells_from p (cells ++ cell ∷ []) ++ rest
cells_then cells cell p q rest small e =
    sym (append_assoc (cells_from p cells) ((q, cell) ∷ []) rest)
    ∙ ap (λ zs. zs ++ rest) (sym (cells_from-append cells (cell ∷ []) p q small e))

field_shown :
    (line col p high low high' low' byte : ℕ) (rest : List ℕ)
    → address_of high low ≡ position col line
    → address_of high' low' ≡ position 79 line
    → col < 80
    → shows anything p
        (0x11 ∷ high ∷ low ∷ 0x1D ∷ byte ∷ 0x13 ∷ 0x3C ∷ high' ∷ low' ∷ 0 ∷ 0x1D ∷ 0xF0 ∷ rest)
      ≡ cells_from
          (position col line)
          (attribute byte ∷ (replicate (nuls col) (character 0) ++ attribute 0xF0 ∷ []))
        ++ shows anything (position 80 line) rest
field_shown line col p high low high' low' byte rest same same' room =
    let from = (position col line + 1) % 1920 in
    let count : positions from (position 79 line) ≡ nuls col = ground arith in
    let next : (position 79 line + 1) % 1920 ≡ position 80 line = omega arith in
    let empty = replicate (nuls col) (character 0) in
    rw (same, same', count, next)
      (ap (λ zs. (position col line, attribute byte) ∷ zs)
        (cells_then empty (attribute 0xF0) from (position 79 line)
          (shows anything (position 80 line) rest) (omega arith)
          (ground (arith, room, length-replicate (nuls col) (character 0)))))

shows-cursor_field :
    (line p : ℕ) (rest : List ℕ) (s : Screen)
    → line < 24
    → s.cursor_col < 80
    → shows anything p (cursor_field line s ++ rest)
      ≡ cells_from (position s.cursor_col line) (input_cells s)
        ++ shows anything (position 80 line) rest
unfolding cursor_field
shows-cursor_field line p rest s inside room =
    let (high, low, bytes, same) = add_screen_address_lem s.cursor_col line inside (omega arith) in
    let (high', low', bytes', same') = add_screen_address_lem 79 line inside (omega arith) in
    rw (bytes, bytes')
      (field_shown line s.cursor_col p high low high' low' (if s.password_input then 0x4C else 0x40)
        rest same same' room)

row_at-IsLine :
    (current : ℕ) (s : Screen) → IsGrid s.rows → current < 24 → IsLine (row_at current s)
unfolding row_at
row_at-IsLine current s g inside =
    let (row, e) = get_elem?-some s.rows current (omega (arith, g.size)) in
    let same = ap (λ (r : Option (List ℕ)). elim r [ none ↦ [] | some row ↦ row ]) e in
    subst IsLine (sym same) (g.lines current row e)

-- Text by its characters, and pieces of text
printable-IsText : (xs : List ℕ) → ((j c : ℕ) → get_elem? xs j ≡ some c → IsPrintable c) → IsText xs
printable-IsText [] p = tt
printable-IsText (x ∷ xs) p = (p 0 x refl, printable-IsText xs (λ j c e. p (suc j) c e))

IsText-take : (n : ℕ) (xs : List ℕ) → IsText xs → IsText (take n xs)
IsText-take zero xs t = tt
IsText-take (suc n) [] t = tt
IsText-take (suc n) (x ∷ xs) t = (t.0, IsText-take n xs t.1)

IsText-drop : (n : ℕ) (xs : List ℕ) → IsText xs → IsText (drop n xs)
IsText-drop zero xs t = t
IsText-drop (suc n) [] t = tt
IsText-drop (suc n) (x ∷ xs) t = IsText-drop n xs t.1

length-text_cells : (xs : List ℕ) → length (text_cells xs) ≡ length xs
length-text_cells [] = refl
length-text_cells (x ∷ xs) = ap suc (length-text_cells xs)

module _ (row : List ℕ) (l : IsLine row) where
  row-IsText : IsText row
  row-IsText = printable-IsText row l.printable

  shows-top_line :
      (current : ℕ) (rest : List ℕ) (s : Screen)
      → shows anything 0 (line_bytes 0 current row s ++ rest)
        ≡ cells_from 0 (top_cells row) ++ shows anything 80 rest
  unfolding line_bytes
  shows-top_line current rest s =
      let v = take 78 (drop 1 row) in
      let size : length v ≡ 78 =
        length-take 78 (drop 1 row) (omega (arith, length-drop 1 row, l.size)) in
      let close = 0x1D ∷ 0xF0 ∷ [] in
      let text : IsText v = IsText-take 78 (drop 1 row) (IsText-drop 1 row row-IsText) in
      ap (λ zs. (0, attribute 0xF8) ∷ zs)
        (ap (shows anything 1) (append_assoc (write_screen_data 1 0 v) close rest)
          ∙ shows-write_screen_data 1 0 v (close ++ rest) (omega arith) (omega (arith, size)) text
          ∙ ap
              (λ n.
                cells_from 1 (text_cells v) ++ shows anything (position (1 + n) 0) (close ++ rest))
              size
          ∙ cells_then (text_cells v) (attribute 0xF0) 1 79 (shows anything 80 rest) (omega arith)
              (omega (arith, size, length-text_cells v)))

  shows-input :
      (here : Bool) (line : ℕ) (rest : List ℕ) (s : Screen)
      → line < 24
      → s.cursor_col < 80
      → shows anything (position 80 line) ((if here then cursor_field line s else []) ++ rest)
        ≡ (if here then cells_from (position s.cursor_col line) (input_cells s) else [])
          ++ shows anything (position 80 line) rest
  shows-input true line rest s inside room =
      shows-cursor_field line (position 80 line) rest s inside room
  shows-input false line rest s inside room = refl

  shows-line_bytes :
      (line current : ℕ) (rest : List ℕ) (s : Screen)
      → line < 24
      → s.cursor_col < 80
      → shows anything (position 0 line) (line_bytes line current row s ++ rest)
        ≡ line_cells line current row s ++ shows anything (position 80 line) rest
  unfolding line_bytes
  shows-line_bytes zero current rest s inside room = shows-top_line current rest s
  shows-line_bytes (suc k) current rest s inside room =
      let line = suc k in
      let below : (line == 0) ≡ false = ground arith in
      let input = if current == s.cursor_row then cursor_field line s else [] in
      let cells = cells_from (position 0 line) (text_cells row) in
      let width : 0 + length row ≡ 80 = omega (arith, l.size) in
      rw below (
        ap (shows anything (position 0 line))
          (append_assoc (write_screen_data 0 line row) input rest)
        ∙ shows-write_screen_data 0 line row (input ++ rest) inside (omega (arith, l.size))
            row-IsText
        ∙ ap (λ n. cells ++ shows anything (position n line) (input ++ rest)) width
        ∙ ap (λ zs. cells ++ zs) (shows-input (current == s.cursor_row) line rest s inside room)
        ∙ sym (append_assoc cells _ (shows anything (position 80 line) rest)))

shows-lines_bytes :
    (n line current : ℕ) (s : Screen)
    → IsGrid s.rows
    → line + n ≤ 24
    → current < 24
    → s.cursor_col < 80
    → shows anything (position 0 line) (lines_bytes n line current s) ≡ lines_cells n line current s
unfolding lines_bytes lines_cells
shows-lines_bytes zero line current s g fits inside room = refl
shows-lines_bytes (suc n) line current s g fits inside room =
    let l : IsLine (row_at current s) = row_at-IsLine current s g inside in
    let next = if leb 24 (current + 1) then 0 else current + 1 in
    let cells = line_cells line current (row_at current s) s in
    shows-line_bytes (row_at current s) l line current (lines_bytes n (line + 1) next s) s
      (omega arith) room
    ∙ ap (λ p. cells ++ shows anything p (lines_bytes n (line + 1) next s)) (omega arith)
    ∙ ap (λ zs. cells ++ zs)
        (shows-lines_bytes n (line + 1) next s g (omega arith) (ground (arith, inside)) room)

-- On a valid screen without a raw stream, `SerializeScreen3270` succeeds, and its packets, one
-- behind the other, are a write command and its control byte, and then bytes for which a terminal
-- sets cells in this order: for each of the 24 lines, the status line in columns 1 to 78 between
-- two field attributes, any other line as its text; and behind the line of the cursor, unless that
-- is the status line, a field for input, hidden for a password, whose attribute stands at the
-- cursor, with NUL up to an attribute in column 79. From a cursor before column 78 these NULs are
-- the rest of the line; from column 78 or 79 they go around the whole screen first, over
-- everything that was set before.
pub shows-serialize_screen_3270 :
    (s : Screen)
    → IsValid s
    → s.raw_stream ≡ none
    → (packets : List (List ℕ)) × (serialize_screen_3270 s
        ≡ some (record s { packets = packets; raw_stream = none }, length packets))
      × (take 2 (flatten packets) ≡ 0xF1 ∷ 0xC3 ∷ [])
      × (shows anything 0 (drop 2 (flatten packets)) ≡ lines_cells 24 0 s.top_line s)
unfolding screen_bytes header add_screen_address screen_address
shows-serialize_screen_3270 s v plain =
    let (packets, e, same, _, _) = serialize_screen_3270_lem s v plain in
    (
      packets,
      e,
      ap (take 2) same,
      ap (λ bytes. shows anything 0 (drop 2 bytes)) same
          ∙ shows-lines_bytes 24 0 s.top_line s v.shown.grid (omega arith) v.shown.top v.col,
    )
