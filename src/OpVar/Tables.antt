-- ===== src/OpVar/Tables.antt =====
-- `scan_table`, `copy_table` and `print_table`.
use zmachine.Base.{ℕ, zero, suc, ◌+◌, ◌%◌, not, ◌||◌, ltb, ◌==◌, if◌then◌else◌}
use zmachine.Base.Int.{ℤ, pos, negsuc, abs, ltb_ℤ, ◌+ℤ◌}
use zmachine.Base.Bits.{test_bit}
use zmachine.Effects.{M, Done, undefined, pure, stop, skip, get, ◌>>=◌, ◌>>◌}
use zmachine.Memory.{read_byte, read_memory, read_u16, set_memory}
use zmachine.Routine.{operand}
use zmachine.Text.{print_to_stream}
use zmachine.Windows.{io_get_cursor, io_set_cursor}
use zmachine.Operands.{operand_u16, store_result, branch_on}

-- The address of the first entry that is `x`, or 0. Bit 7 of the form selects words, the others
-- are the distance of the entries.
unfoldable pub scan_loop : ℕ → ℕ → ℕ → ℕ → M ℕ
scan_loop zero x table form = pure 0
scan_loop (suc n) x table form = do
  entry ← if test_bit form 7 then read_u16 table else read_byte table
  if x == entry then pure table else scan_loop n x (table + form % 128) form

unfoldable pub scan_table : Done
scan_table = do
  x ← operand_u16 0
  table ← operand_u16 1
  len ← operand_u16 2
  num_ops ← get (λ s. s.ins.num_ops)
  form ← if ltb 3 num_ops then operand_u16 3 else pure 0x82
  found ← scan_loop len x table form
  store_result (pos found)
  branch_on (not (found == 0))

unfoldable pub clear_table : ℕ → ℕ → Done
clear_table zero first = skip
clear_table (suc n) first = do set_memory first 0; clear_table n (first + 1)

unfoldable pub copy_forward : ℕ → ℕ → ℕ → Done
copy_forward zero first second = skip
copy_forward (suc n) first second = do
  b ← read_memory first
  set_memory second b
  copy_forward n (first + 1) (second + 1)

-- From the last byte of the `n` to the first.
unfoldable pub copy_backward : ℕ → ℕ → ℕ → Done
copy_backward zero first second = skip
copy_backward (suc n) first second = do
  b ← read_memory (first + n)
  set_memory (second + n) b
  copy_backward n first second

-- A negative size with no target counts down from it and leaves the memory: undefined.
unfoldable pub copy_table : Done
copy_table = do
  first ← operand_u16 0
  second ← operand_u16 1
  size ← operand 2
  if second == 0
      then (elim size [ pos n ↦ clear_table n first | negsuc _ ↦ stop undefined ])
      else if ltb second first || ltb_ℤ size (pos 0)
      then copy_forward (abs size) first second
      else copy_backward (abs size) first second

unfoldable pub print_row : ℕ → ℕ → Done
print_row zero text = skip
print_row (suc n) text = do b ← read_memory text; print_to_stream b; print_row n (text + 1)

unfoldable pub print_rows : ℕ → ℕ → ℕ → ℕ → ℤ → ℤ → Done
print_rows zero width skipped text x y = skip
print_rows (suc height) width skipped text x y = do
  io_set_cursor x y
  print_row width text
  print_rows height width skipped (text + width + skipped) x (y +ℤ pos 1)

unfoldable pub print_table : Done
print_table = do
  text ← operand_u16 0
  num_ops ← get (λ s. s.ins.num_ops)
  height ← if ltb 2 num_ops then operand_u16 2 else pure 1
  skipped ← if ltb 3 num_ops then operand_u16 3 else pure 0
  (x, y) ← io_get_cursor
  width ← operand_u16 1
  print_rows height width skipped text x y
