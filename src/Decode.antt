-- ===== src/Decode.antt =====
-- Instruction decoding of zops.c: the four forms, their operands, the result variable, the branch.
pub mod BranchBytes
use zmachine.Base.{
  ℕ, ◌+◌, ◌*◌, ◌/◌, ◌%◌, ◌^◌, Bool, false, not, ◌&&◌, ◌||◌, List, [], ◌∷◌, ltb, leb, ◌==◌,
  if◌then◌else◌, set, length,
}
use zmachine.Base.Int.{ℤ, pos, negsuc, sub_ℕ}
use zmachine.Base.Bits.{test_bit}
use zmachine.Machine.{
  Branch, Form, form_0op, form_1op, form_2op, form_var, form_ext, Src, src_immediate, src_variable,
}
use zmachine.Effects.{M, Done, undefined, pure, stop, skip, get, modify, ◌>>=◌, ◌>>◌}
use zmachine.Memory.{read_byte_pc, read_s16_pc}
use zmachine.Variables.{read_variable}

abbrev pub zero_op_store_instructions : List ℕ
zero_op_store_instructions = []

abbrev pub zero_op_store_instructions_v4 : List ℕ
zero_op_store_instructions_v4 = 0x05 ∷ 0x06 ∷ 0x09 ∷ []

abbrev pub one_op_store_instructions : List ℕ
one_op_store_instructions = 0x01 ∷ 0x02 ∷ 0x03 ∷ 0x04 ∷ 0x08 ∷ 0x0E ∷ 0x0F ∷ []

abbrev pub one_op_store_instructions_v5 : List ℕ
one_op_store_instructions_v5 = 0x01 ∷ 0x02 ∷ 0x03 ∷ 0x04 ∷ 0x08 ∷ 0x0E ∷ []

abbrev pub two_op_store_instructions : List ℕ
two_op_store_instructions =
    0x08 ∷ 0x09 ∷ 0x0F ∷ 0x10 ∷ 0x11 ∷ 0x12 ∷ 0x13 ∷ 0x14 ∷ 0x15 ∷ 0x16 ∷ 0x17 ∷ 0x18 ∷ 0x19 ∷ []

abbrev pub var_op_store_instructions : List ℕ
var_op_store_instructions = 0x00 ∷ 0x07 ∷ 0x0C ∷ 0x16 ∷ 0x17 ∷ 0x18 ∷ []

abbrev pub var_op_store_instructions_v5 : List ℕ
var_op_store_instructions_v5 = 0x00 ∷ 0x04 ∷ 0x07 ∷ 0x0C ∷ 0x16 ∷ 0x17 ∷ 0x18 ∷ []

abbrev pub ext_op_store_instructions : List ℕ
ext_op_store_instructions = 0x00 ∷ 0x01 ∷ 0x02 ∷ 0x03 ∷ 0x04 ∷ 0x09 ∷ 0x0A ∷ []

abbrev pub zero_op_branch_instructions : List ℕ
zero_op_branch_instructions = 0x05 ∷ 0x06 ∷ 0x0D ∷ 0x0F ∷ []

abbrev pub zero_op_branch_instructions_v4 : List ℕ
zero_op_branch_instructions_v4 = 0x0D ∷ 0x0F ∷ []

abbrev pub one_op_branch_instructions : List ℕ
one_op_branch_instructions = 0x00 ∷ 0x01 ∷ 0x02 ∷ []

abbrev pub two_op_branch_instructions : List ℕ
two_op_branch_instructions = 0x01 ∷ 0x02 ∷ 0x03 ∷ 0x04 ∷ 0x05 ∷ 0x06 ∷ 0x07 ∷ 0x0A ∷ []

abbrev pub var_op_branch_instructions : List ℕ
var_op_branch_instructions = 0x17 ∷ 0x1F ∷ []

abbrev pub ext_op_branch_instructions : List ℕ
ext_op_branch_instructions = []

-- The loops over a table of opcodes.
unfoldable pub contains : List ℕ → ℕ → Bool
contains [] op = false
contains (x ∷ xs) op = op == x || contains xs op

-- `ZOperand *operand = &m_ins.operands[m_ins.numOps++]`, filled in. The array has eight entries.
unfoldable pub add_operand : ℤ → Src → Done
add_operand value src = do
  ins ← get (λ s. s.ins)
  if ltb ins.num_ops (length ins.operands)
      then modify (λ s. record s {
        ins = record s.ins {
          operands = set s.ins.operands s.ins.num_ops (record { value = value; src = src });
          num_ops = s.ins.num_ops + 1;
        };
      })
      else stop undefined

-- The operand types: 0 a long constant, 1 a small one, 2 a variable, 3 none. `numOps++` comes
-- first in the source; the reads do not look at it.
unfoldable pub read_operand : ℕ → Done
read_operand operand_type =
    if operand_type == 3
    then skip
    else if operand_type == 0
    then (do v ← read_s16_pc; add_operand v src_immediate)
    else if operand_type == 1
    then (do v ← read_byte_pc; add_operand (pos v) src_immediate)
    else do var ← read_byte_pc; v ← read_variable (pos var); add_operand v src_variable

abbrev pub set_op : ℕ → Form → Done
set_op op form = modify (λ s. record s { ins = record s.ins { op = op; form = form } })

unfoldable pub read_short_form : ℕ → Done
read_short_form opcode = do
  let operand = opcode / 16 % 4
  set_op (opcode % 16) (if operand == 3 then form_0op else form_1op)
  read_operand operand

unfoldable pub read_long_form : ℕ → Done
read_long_form opcode = do
  set_op (opcode % 32) form_2op
  read_operand (if test_bit opcode 6 then 2 else 1)
  read_operand (if test_bit opcode 5 then 2 else 1)

-- The four operand types of a byte, the highest bits first.
unfoldable pub read_operand_types : ℕ → Done
read_operand_types types = do
  read_operand (types / 64 % 4)
  read_operand (types / 16 % 4)
  read_operand (types / 4 % 4)
  read_operand (types % 4)

-- Two opcodes take a second byte of types.
unfoldable pub read_variable_form : ℕ → Done
read_variable_form opcode = do
  let op = opcode % 32
  let var = leb 0xE0 (opcode / 16 * 16)
  types ← read_byte_pc
  set_op op (if var then form_var else form_2op)
  types2 ← if var && (op == 0x0C || op == 0x1A) then read_byte_pc else pure 0xFF
  read_operand_types types
  read_operand_types types2

unfoldable pub read_extended_form : Done
read_extended_form = do
  op ← read_byte_pc
  types ← read_byte_pc
  set_op op form_ext
  read_operand_types types

-- The result variable's number, or -1.
unfoldable pub read_store_instruction : List ℕ → ℕ → M ℤ
read_store_instruction table op =
    if contains table op then (do b ← read_byte_pc; pure (pos b)) else pure (negsuc 0)

-- The offset has 6 bits in one byte, or 14 with a sign in two.
unfoldable pub read_branch_instruction : List ℕ → ℕ → M Branch
read_branch_instruction table op =
    if contains table op
    then (do
      branch1 ← read_byte_pc
      if not (test_bit branch1 6)
          then (do
            branch2 ← read_byte_pc
            let offset = branch1 % 64 * 256 + branch2
            pure (record {
              offset = if test_bit offset 13 then sub_ℕ offset (2 ^ 14) else pos offset;
              negate = not (test_bit branch1 7);
            }))
          else pure (record { offset = pos (branch1 % 64); negate = not (test_bit branch1 7) }))
    else pure (record { offset = pos 0; negate = false })
