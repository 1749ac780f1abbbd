-- ===== src/OpVar.antt =====
-- `processVARInstruction` of zops.c. The longer instructions are in the child modules.
pub mod Tables
pub mod Input
pub mod Output
use zmachine.Base.{
  ℕ, zero, suc, ◌+◌, ◌-◌, ◌*◌, ◌/◌, ◌%◌, ◌^◌, Bool, true, false, not, List, [], ◌∷◌, ltb, ◌==◌,
  if◌then◌else◌, Option,
}
use zmachine.Base.Int.{ℤ, pos, negsuc, low_bits, ltb_ℤ, eq_ℤ, not_ℤ, shr_ℤ, ◌+ℤ◌, ◌*ℤ◌}
use zmachine.Base.Bits.{test_bit}
use zmachine.Machine.{Machine}
use zmachine.Effects.{
  M, Done, undefined, illegal_instruction, halt_instruction, stop, skip, get, index, pure, ◌>>=◌,
  ◌>>◌,
}
use zmachine.Memory.{set_memory}
use zmachine.Variables.{read_variable, set_variable, set_variable_indirect, peek_call, wrap_s16}
use zmachine.Objects.{get_object, get_property}
use zmachine.Routine.{operand}
use zmachine.Windows.{io_random}
use zmachine.Operands.{switch, operand_u16, store_result, branch_on, call_packed}
use Tables.{scan_table, copy_table, print_table}
use Input.{sread, read_char, tokenise, encode_text}
use Output.{
  print_operand, print_num, split_window, set_window, erase_window, erase_line, set_cursor_op,
  get_cursor, output_stream,
}

unfoldable pub storew : Done
storew = do
  base ← operand_u16 0
  i ← operand 1
  v ← operand 2
  a ← index (pos base +ℤ pos 2 *ℤ i)
  set_memory a (low_bits (shr_ℤ v 256) 256)
  set_memory (a + 1) (low_bits v 256)

unfoldable pub storeb : Done
storeb = do
  base ← operand_u16 0
  i ← operand 1
  v ← operand 2
  a ← index (pos base +ℤ i)
  set_memory a (low_bits v 256)

-- A property of another size than 1 or 2 is left alone.
unfoldable pub put_prop : Done
put_prop = do
  id ← operand 0
  if eq_ℤ id (pos 0) then skip else (do
    obj ← get_object id
    number ← operand 1
    prop ← get_property obj number
    v ← operand 2
    if prop.is_default
        then stop illegal_instruction
        else if prop.size == 1
        then set_memory prop.addr (low_bits v 256)
        else if prop.size == 2
        then (do
          set_memory prop.addr (low_bits (shr_ℤ v 256) 256)
          set_memory (prop.addr + 1) (low_bits v 256))
        else skip)

-- 1 to the operand, or 0 if that is not positive
unfoldable pub random : Done
random = do
  v ← operand 0
  elim v [
    | pos (suc n) ↦ do r ← io_random; store_result (pos (r % suc n + 1))
    | _ ↦ store_result (pos 0)
  ]

unfoldable pub push : Done
push = do v ← operand 0; set_variable (pos 0) v

unfoldable pub pull : Done
pull = do var ← operand 0; v ← read_variable (pos 0); set_variable_indirect var v

unfoldable pub input_stream : Done
input_stream = do v ← operand 0; if eq_ℤ v (pos 0) then skip else stop halt_instruction

unfoldable pub not_op : Done
not_op = do v ← operand 0; store_result (not_ℤ v)

-- The argument `n` was given if bit n - 1 of the frame's mask is set; a shift by 32 or more is
-- undefined.
unfoldable pub check_arg_count : Done
check_arg_count = do
  frame ← peek_call
  v ← operand 0
  elim (v +ℤ negsuc 0) [
    | negsuc _ ↦ branch_on true
    | pos n ↦ if ltb n 32 then branch_on (test_bit frame.set_arguments n) else stop undefined
  ]

unfoldable pub process_var_instruction : Done
process_var_instruction = do
  op ← get (λ s. s.ins.op)
  switch op
      (call_packed ∷ storew ∷ storeb ∷ put_prop ∷ sread ∷ print_operand ∷ print_num ∷ random ∷ push
        ∷ pull ∷ split_window ∷ set_window ∷ call_packed ∷ erase_window ∷ erase_line ∷ set_cursor_op
        ∷ get_cursor ∷ skip ∷ skip ∷ output_stream ∷ input_stream ∷ skip ∷ read_char ∷ scan_table
        ∷ not_op ∷ call_packed ∷ call_packed ∷ tokenise ∷ encode_text ∷ copy_table ∷ print_table
        ∷ check_arg_count ∷ [])
      skip
