-- ===== src/Op1.antt =====
-- `process1OPInstruction` of zops.c.
use zmachine.Base.{ℕ, ◌+◌, ◌-◌, ◌*◌, ◌/◌, ◌%◌, false, not, [], ◌∷◌, leb, ◌==◌, if◌then◌else◌}
use zmachine.Base.Int.{ℤ, pos, negsuc, eq_ℤ, not_ℤ, ◌+ℤ◌}
use zmachine.Base.Bits.{test_bit}
use zmachine.Machine.{ZObject}
use zmachine.Effects.{M, Done, skip, get, modify, ◌>>=◌, ◌>>◌}
use zmachine.Memory.{read_byte}
use zmachine.Variables.{read_variable, set_variable, read_variable_indirect}
use zmachine.Objects.{get_object, zobject_get_parent, zobject_get_sibling, zobject_get_child}
use zmachine.Tree.{remove_object}
use zmachine.Routine.{return_routine, operand}
use zmachine.Text.{print_text}
use zmachine.Operands.{switch, operand_u16, store_result, branch_on, call_packed}

unfoldable pub jz : Done
jz = do v ← operand 0; branch_on (eq_ℤ v (pos 0))

-- `get_sibling` and `get_child`: the link is stored, and the branch is on an object.
unfoldable pub get_link_branch : (ZObject → M ℕ) → Done
get_link_branch link = do
  id ← operand 0
  if eq_ℤ id (pos 0) then (do store_result (pos 0); branch_on false) else (do
    child ← get_object id
    linked ← link child
    store_result (pos linked)
    branch_on (not (linked == 0)))

unfoldable pub get_parent_object : Done
get_parent_object = do
  id ← operand 0
  if eq_ℤ id (pos 0)
      then store_result (pos 0)
      else (do child ← get_object id; parent ← zobject_get_parent child; store_result (pos parent))

-- The size in the byte in front of a property's data.
abbrev pub prop_len : ℕ → ℕ → ℕ
prop_len version size_id =
    if leb version 3
    then size_id / 32 + 1
    else if test_bit size_id 7
    then (if size_id % 64 == 0 then 64 else size_id % 64)
    else if test_bit size_id 6
    then 2
    else 1

unfoldable pub get_prop_len : Done
get_prop_len = do
  address ← operand_u16 0
  version ← get (λ s. s.version)
  if address == 0
      then store_result (pos 0)
      else (do size_id ← read_byte (address - 1); store_result (pos (prop_len version size_id)))

-- `inc` and `dec`
unfoldable pub add_to_variable : ℤ → Done
add_to_variable d = do var ← operand 0; v ← read_variable var; set_variable var (v +ℤ d)

unfoldable pub print_at : ℕ → Done
print_at a = do _ ← print_text a; skip

unfoldable pub remove_obj : Done
remove_obj = do id ← operand 0; if eq_ℤ id (pos 0) then skip else remove_object id

unfoldable pub print_obj : Done
print_obj = do
  id ← operand 0
  if eq_ℤ id (pos 0) then skip else (do obj ← get_object id; print_at (obj.prop_table + 1))

unfoldable pub jump : Done
jump = do v ← operand 0; modify (λ s. record s { pc = s.pc +ℤ (v +ℤ negsuc 1) })

unfoldable pub print_paddr : Done
print_paddr = do
  packed ← operand_u16 0
  multiplier ← get (λ s. s.packed_multiplier)
  print_at (multiplier * packed)

unfoldable pub load : Done
load = do var ← operand 0; v ← read_variable_indirect var; store_result v

-- `not` up to version 4, `call_1n` from 5 on
unfoldable pub not_or_call : Done
not_or_call = do
  version ← get (λ s. s.version)
  v ← operand 0
  if leb version 4 then store_result (not_ℤ v) else call_packed

unfoldable pub process_1op_instruction : Done
process_1op_instruction = do
  op ← get (λ s. s.ins.op)
  switch op
      (jz
        ∷ get_link_branch zobject_get_sibling
        ∷ get_link_branch zobject_get_child
        ∷ get_parent_object
        ∷ get_prop_len
        ∷ add_to_variable (pos 1)
        ∷ add_to_variable (negsuc 0)
        ∷ (do a ← operand_u16 0; print_at a)
        ∷ call_packed
        ∷ remove_obj
        ∷ print_obj
        ∷ (do v ← operand 0; return_routine v)
        ∷ jump
        ∷ print_paddr
        ∷ load
        ∷ not_or_call
        ∷ [])
      skip
