-- ===== src/Execute.antt =====
-- `executeInstruction` and the main loop of zops.c.
use zmachine.Base.{ℕ, zero, suc, ◌/◌, ◌&&◌, List, ltb, leb, ◌==◌, if◌then◌else◌}
use zmachine.Machine.{Form, form_0op, form_1op, form_2op, form_var, form_ext}
use zmachine.Effects.{Done, skip, get, modify, ◌>>=◌, ◌>>◌}
use zmachine.Memory.{read_byte_pc}
use zmachine.Decode.{
  read_short_form, read_long_form, read_variable_form, read_extended_form, read_store_instruction,
  read_branch_instruction, zero_op_store_instructions, zero_op_store_instructions_v4,
  one_op_store_instructions, one_op_store_instructions_v5, two_op_store_instructions,
  var_op_store_instructions, var_op_store_instructions_v5, ext_op_store_instructions,
  zero_op_branch_instructions, zero_op_branch_instructions_v4, one_op_branch_instructions,
  two_op_branch_instructions, var_op_branch_instructions, ext_op_branch_instructions,
}
use zmachine.Op0.{process_0op_instruction}
use zmachine.Op1.{process_1op_instruction}
use zmachine.Op2.{process_2op_instruction}
use zmachine.OpVar.{process_var_instruction}
use zmachine.OpExt.{process_ext_instruction}

-- The opcode byte and the operands.
unfoldable pub decode_instruction : Done
decode_instruction = do
  modify (λ s. record s { ins = record s.ins { num_ops = 0 } })
  opcode ← read_byte_pc
  version ← get (λ s. s.version)
  if leb 5 version && (opcode == 0xBE)
      then read_extended_form
      else if opcode / 64 == 3
      then read_variable_form opcode
      else if opcode / 64 == 2
      then read_short_form opcode
      else read_long_form opcode

-- The result variable and the branch that an opcode in these tables has.
unfoldable pub decode_result : List ℕ → List ℕ → Done
decode_result stores branches = do
  op ← get (λ s. s.ins.op)
  store ← read_store_instruction stores op
  modify (λ s. record s { ins = record s.ins { store = store } })
  branch ← read_branch_instruction branches op
  modify (λ s. record s { ins = record s.ins { branch = branch } })

-- The tables of a form, by the version.
abbrev pub store_table : ℕ → Form → List ℕ
store_table version form_0op =
    if ltb version 4 then zero_op_store_instructions else zero_op_store_instructions_v4
store_table version form_1op =
    if ltb version 5 then one_op_store_instructions else one_op_store_instructions_v5
store_table version form_2op = two_op_store_instructions
store_table version form_var =
    if leb version 4 then var_op_store_instructions else var_op_store_instructions_v5
store_table version form_ext = ext_op_store_instructions

abbrev pub branch_table : ℕ → Form → List ℕ
branch_table version form_0op =
    if ltb version 4 then zero_op_branch_instructions else zero_op_branch_instructions_v4
branch_table version form_1op = one_op_branch_instructions
branch_table version form_2op = two_op_branch_instructions
branch_table version form_var = var_op_branch_instructions
branch_table version form_ext = ext_op_branch_instructions

unfoldable pub process : Form → Done
process form_0op = process_0op_instruction
process form_1op = process_1op_instruction
process form_2op = process_2op_instruction
process form_var = process_var_instruction
process form_ext = process_ext_instruction

unfoldable pub execute_instruction : Done
execute_instruction = do
  decode_instruction
  version ← get (λ s. s.version)
  form ← get (λ s. s.ins.form)
  decode_result (store_table version form) (branch_table version form)
  process form

-- `while (1)`, for a number of rounds.
unfoldable pub run : ℕ → Done
run zero = skip
run (suc rounds) = do execute_instruction; run rounds
