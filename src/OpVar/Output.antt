-- ===== src/OpVar/Output.antt =====
-- Printing, windows, the cursor and the output streams.
use zmachine.Base.{◌+◌, ◌&&◌, leb, ◌==◌, if◌then◌else◌}
use zmachine.Base.Int.{pos, negsuc, abs, low_bits, shr_ℤ, eq_ℤ, ltb_ℤ, ◌+ℤ◌}
use zmachine.Effects.{Done, skip, get, modify, when, for_each, ◌>>=◌, ◌>>◌}
use zmachine.Memory.{set_memory}
use zmachine.Routine.{operand}
use zmachine.Text.{print_to_stream}
use zmachine.Status.{format_int}
use zmachine.Windows.{
  io_unsplit_window, io_split_window, io_erase_window, io_set_window, io_erase_to_end_of_line,
  io_set_cursor, io_get_cursor,
}
use zmachine.Operands.{operand_u16}

unfoldable pub print_operand : Done
print_operand = do v ← operand 0; print_to_stream (low_bits v 256)

unfoldable pub print_num : Done
print_num = do v ← operand 0; for_each (format_int 0 v) print_to_stream

unfoldable pub split_window : Done
split_window = do
  lines ← operand 0
  version ← get (λ s. s.version)
  if eq_ℤ lines (pos 0)
      then io_unsplit_window
      else (do io_split_window lines; when (version == 3) (io_erase_window (pos 1)))

unfoldable pub set_window : Done
set_window = do v ← operand 0; _ ← io_set_window v (eq_ℤ v (pos 1)); skip

unfoldable pub erase_window : Done
erase_window = do
  v ← operand 0
  if eq_ℤ v (negsuc 0)
      then (do io_unsplit_window; io_erase_window (pos 0))
      else if eq_ℤ v (negsuc 1)
      then (do io_erase_window (pos 0); io_erase_window (pos 1))
      else io_erase_window v

unfoldable pub erase_line : Done
erase_line = do v ← operand 0; when (eq_ℤ v (pos 1)) io_erase_to_end_of_line

unfoldable pub set_cursor_op : Done
set_cursor_op = do
  row ← operand 0
  col ← operand 1
  io_set_cursor (col +ℤ negsuc 0) (row +ℤ negsuc 0)

unfoldable pub get_cursor : Done
get_cursor = do
  array ← operand_u16 0
  (x, y) ← io_get_cursor
  let col = x +ℤ pos 1
  let row = y +ℤ pos 1
  set_memory array (low_bits (shr_ℤ row 256) 256)
  set_memory (array + 1) (low_bits row 256)
  set_memory (array + 2) (low_bits (shr_ℤ col 256) 256)
  set_memory (array + 3) (low_bits col 256)

-- Stream 3 is a table in memory, whose length is cleared; stream 1 is the screen.
unfoldable pub output_stream : Done
output_stream = do
  v ← operand 0
  num_ops ← get (λ s. s.ins.num_ops)
  if abs v == 3
      then (if ltb_ℤ (pos 0) v && leb 2 num_ops
          then (do
            table ← operand_u16 1
            modify (λ s. record s { mem_stream_ptr = table })
            set_memory table 0
            set_memory (table + 1) 0)
          else modify (λ s. record s { mem_stream_ptr = 0 }))
      else when (abs v == 1) (modify (λ s. record s { output_stream = ltb_ℤ (pos 0) v }))
