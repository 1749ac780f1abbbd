-- ===== src/Windows.antt =====
-- The `io` functions of zops.c: three windows over the screen, and the calls that reach Screen.cpp.
-- Window 0 is the main one, 1 the upper one, 2 the status line.
use zmachine.Base.{ℕ, ◌-◌, Bool, List, [], ◌∷◌, ltb, ◌==◌, if◌then◌else◌, get_elem?, set}
use zmachine.Base.Int.{ℤ, pos, negsuc, ◌+ℤ◌, ◌-ℤ◌}
use zmachine.Machine.{
  Call, print_char, set_cursor, set_non_scroll_rows, read_input, read_input_single,
}
use zmachine.Effects.{
  M, Done, undefined, waiting, stopped, ok, pure, valid, stop, skip, get, modify, when, for_range,
  ◌>>=◌, ◌>>◌,
}

abbrev pub num_cols : ℕ
num_cols = 80

abbrev pub num_rows : ℕ
num_rows = 24

unfoldable pub call : Call → Done
call c = modify (λ s. record s { console = record s.console { calls = c ∷ s.console.calls } })

-- `ScreenGetCursor`, `ScreenReadInput` and its single-key variant, `esp_random`
unfoldable pub screen_get_cursor : M (ℤ × ℤ)
screen_get_cursor s = elim s.console.cursors [
  | [] ↦ stopped waiting s
  | c ∷ cs ↦ ok c (record s { console = record s.console { cursors = cs } })
]

unfoldable pub io_read_input : ℕ → Bool → M (List ℕ)
io_read_input size single = do
  call (if single then read_input_single size else read_input size)
  λ s. elim s.console.lines [
    | [] ↦ stopped waiting s
    | l ∷ ls ↦ ok l (record s { console = record s.console { lines = ls } })
  ]

unfoldable pub io_random : M ℕ
io_random s = elim s.console.randoms [
  | [] ↦ stopped waiting s
  | r ∷ rs ↦ ok r (record s { console = record s.console { randoms = rs } })
]

unfoldable pub io_print_char : ℕ → Done
io_print_char c = call (print_char c)

-- `windowStart[curWindow]`
unfoldable pub window_offset : M ℤ
window_offset = do
  starts ← get (λ s. s.window_start)
  window ← get (λ s. s.cur_window)
  valid (get_elem? starts window)

unfoldable pub io_set_cursor : ℤ → ℤ → Done
io_set_cursor x y = do start ← window_offset; call (set_cursor x (y +ℤ start))

unfoldable pub io_get_cursor : M (ℤ × ℤ)
io_get_cursor = do (x, y) ← screen_get_cursor; start ← window_offset; pure (x, y -ℤ start)

unfoldable pub set_window_start : (List ℤ → M ℤ) → Done
set_window_start first = do
  starts ← get (λ s. s.window_start)
  v ← first starts
  modify (λ s. record s { window_start = set s.window_start 0 v })
  call (set_non_scroll_rows v)

unfoldable pub io_split_window : ℤ → Done
io_split_window num_lines =
    set_window_start (λ starts. do top ← valid (get_elem? starts 1); pure (num_lines +ℤ top))

unfoldable pub io_unsplit_window : Done
io_unsplit_window = set_window_start (λ starts. valid (get_elem? starts 1))

-- cursorX[curWindow], cursorY[curWindow] = the screen's cursor, and back
unfoldable pub save_cursor : Done
save_cursor = do
  (x, y) ← io_get_cursor
  modify (λ s. record s {
    cursor_x = set s.cursor_x s.cur_window x;
    cursor_y = set s.cursor_y s.cur_window y;
  })

unfoldable pub restore_cursor : Done
restore_cursor = do
  window ← get (λ s. s.cur_window)
  xs ← get (λ s. s.cursor_x)
  ys ← get (λ s. s.cursor_y)
  x ← valid (get_elem? xs window)
  y ← valid (get_elem? ys window)
  io_set_cursor x y

-- The ASSERT on the number only prints; the arrays have three entries.
unfoldable pub io_set_window : ℤ → Bool → M ℕ
io_set_window (negsuc n) reset = stop undefined
io_set_window (pos window) reset = do
  old ← get (λ s. s.cur_window)
  save_cursor
  (if ltb window 3 then modify (λ s. record s { cur_window = window }) else stop undefined)
  when reset (
      modify (λ s. record s {
        cursor_x = set s.cursor_x window (pos 0);
        cursor_y = set s.cursor_y window (pos 0);
      }))
  restore_cursor
  pure old

unfoldable pub print_blanks : ℕ → Done
print_blanks n = for_range n 0 (λ _. io_print_char b' ')

-- Rows `from` to `to` - 1 of the screen.
unfoldable pub erase_rows : ℤ → ℤ → Done
erase_rows from to = elim (to -ℤ from) [
  | pos rows ↦
      for_range rows 0 (λ i. io_set_cursor (pos 0) (from +ℤ pos i) >> print_blanks num_cols)
  | negsuc _ ↦ skip
]

unfoldable pub io_erase_window : ℤ → Done
io_erase_window window = do
  save_cursor
  starts ← get (λ s. s.window_start)
  (elim window [
    | negsuc _ ↦ skip
    | pos n ↦
        if n == 0
        then (do from ← valid (get_elem? starts 0); erase_rows from (pos num_rows))
        else if ltb n 3
        then (do
          from ← valid (get_elem? starts n)
          to ← valid (get_elem? starts (n - 1))
          erase_rows from to)
        else skip
  ])
  restore_cursor

unfoldable pub io_erase_to_end_of_line : Done
io_erase_to_end_of_line = do
  save_cursor
  xs ← get (λ s. s.cursor_x)
  window ← get (λ s. s.cur_window)
  x ← valid (get_elem? xs window)
  (elim (pos num_cols -ℤ x) [ pos n ↦ print_blanks n | negsuc _ ↦ skip ])
  restore_cursor

unfoldable pub io_reset : Bool → Done
io_reset has_status = do
  let start : ℤ = if has_status then pos 1 else pos 0
  modify (λ s. record s {
    cur_window = 0;
    window_start = start ∷ start ∷ pos 0 ∷ [];
    cursor_x = pos 0 ∷ pos 0 ∷ pos 0 ∷ [];
    cursor_y = pos (num_rows - 1) ∷ pos 0 ∷ pos 0 ∷ [];
  })
  io_erase_window (pos 2)
  io_erase_window (pos 0)
