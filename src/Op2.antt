-- ===== src/Op2.antt =====
-- `process2OPInstruction` of zops.c. Branches, stores and attributes are here, the instructions on
-- properties in Properties.
mod Properties
use Properties.{get_prop, get_prop_addr, get_next_prop}
use zmachine.Base.{
  ℕ, zero, suc, ◌+◌, ◌-◌, ◌*◌, ◌/◌, ◌%◌, ◌^◌, Bool, true, false, not, ◌&&◌, ◌||◌, List, [], ◌∷◌,
  ltb, leb, ◌==◌, if◌then◌else◌, bit_and, bit_or,
}
use zmachine.Base.Int.{
  ℤ, pos, negsuc, eq_ℤ, ltb_ℤ, quot, rem, low_bits, neg, offset, and_ℤ, or_ℤ, ◌+ℤ◌, ◌-ℤ◌, ◌*ℤ◌,
}
use zmachine.Stack.{stack_depth}
use zmachine.Machine.{Machine, ZObject}
use zmachine.Effects.{
  M, Done, undefined, illegal_instruction, pure, stop, skip, get, index, ◌>>=◌, ◌>>◌,
}
use zmachine.Memory.{read_byte, read_memory, read_s16, set_memory}
use zmachine.Variables.{read_variable, set_variable, set_variable_indirect, wrap_s16}
use zmachine.Objects.{get_object, zobject_get_parent}
use zmachine.Tree.{remove_object, add_child}
use zmachine.Routine.{return_routine, operand, pop_call}
use zmachine.Operands.{switch, operand_u16, store_result, branch_on, call_packed}

-- Whether one of the operands `i` to `i + n - 1` is `test`; the first that is ends the loop.
unfoldable pub any_operand : ℕ → ℕ → ℤ → M Bool
any_operand zero i test = pure false
any_operand (suc n) i test = do
  v ← operand i
  if eq_ℤ test v then pure true else any_operand n (i + 1) test

unfoldable pub je : Done
je = do
  test ← operand 0
  num_ops ← get (λ s. s.ins.num_ops)
  found ← any_operand (num_ops - 1) 1 test
  branch_on found

-- `jl` and `jg`
unfoldable pub branch_compare : (ℤ → ℤ → Bool) → Done
branch_compare test = do a ← operand 0; b ← operand 1; branch_on (test a b)

abbrev pub greater : ℤ → ℤ → Bool
greater a b = ltb_ℤ b a

-- `dec_chk` and `inc_chk`: a `short` is stepped, stored and compared.
unfoldable pub step_and_check : ℤ → (ℤ → ℤ → Bool) → Done
step_and_check d test = do
  var ← operand 0
  old ← read_variable var
  limit ← operand 1
  let value = wrap_s16 (old +ℤ d)
  set_variable var value
  branch_on (test value limit)

unfoldable pub jin : Done
jin = do
  a ← operand 0
  b ← operand 1
  if eq_ℤ a (pos 0) || eq_ℤ b (pos 0) then branch_on (eq_ℤ a b) else (do
    child ← get_object a
    parent ← zobject_get_parent child
    branch_on (eq_ℤ (pos parent) b))

unfoldable pub test_flags : Done
test_flags = do a ← operand 0; flags ← operand 1; branch_on (eq_ℤ (and_ℤ a flags) flags)

-- setVariable(m_ins.store, a op b)
unfoldable pub store_binary : (ℤ → ℤ → ℤ) → Done
store_binary f = do a ← operand 0; b ← operand 1; store_result (f a b)

-- `/` and `%` by zero are undefined.
unfoldable pub store_division : (ℤ → ℤ → ℤ) → Done
store_division f = do
  a ← operand 0
  b ← operand 1
  if eq_ℤ b (pos 0) then stop undefined else store_result (f a b)

-- `attr/8` and `0x80>>(attr%8)`; a shift by a negative number is undefined.
unfoldable pub attr_slot : ℤ → M (ℤ × ℕ)
attr_slot (pos n) = pure (pos (n / 8), 0x80 / 2 ^ (n % 8))
attr_slot (negsuc n) = if (n + 1) % 8 == 0 then pure (neg ((n + 1) / 8), 0x80) else stop undefined

-- attr<32 || (m_version>3 && attr<48)
abbrev pub attr_in_range : ℕ → ℤ → Bool
attr_in_range version attr = ltb_ℤ attr (pos 32) || (ltb 3 version && ltb_ℤ attr (pos 48))

unfoldable pub test_attr : Done
test_attr = do
  id ← operand 0
  if eq_ℤ id (pos 0) then branch_on false else (do
    obj ← get_object id
    attr ← operand 1
    (byte, bit) ← attr_slot attr
    version ← get (λ s. s.version)
    if attr_in_range version attr
        then (do a ← index (obj.addr +ℤ byte); b ← read_memory a; branch_on (bit_and b bit == bit))
        else branch_on false)

-- `set_attr` and `clear_attr`: the byte is changed by `change byte bit`.
unfoldable pub change_attr : (ℕ → ℕ → ℕ) → Done
change_attr change = do
  id ← operand 0
  if eq_ℤ id (pos 0) then skip else (do
    obj ← get_object id
    attr ← operand 1
    (byte, bit) ← attr_slot attr
    version ← get (λ s. s.version)
    if attr_in_range version attr
        then (do a ← index (obj.addr +ℤ byte); b ← read_memory a; set_memory a (change b bit))
        else skip)

-- b & ~bit, for bytes
abbrev pub clear_bit : ℕ → ℕ → ℕ
clear_bit b bit = bit_and b (255 - bit)

unfoldable pub store_indirect : Done
store_indirect = do var ← operand 0; v ← operand 1; set_variable_indirect var v

unfoldable pub insert_obj : Done
insert_obj = do
  child ← operand 0
  parent ← operand 1
  if eq_ℤ child (pos 0) || eq_ℤ parent (pos 0)
      then skip
      else (do remove_object child; add_child parent child)

unfoldable pub loadw : Done
loadw = do
  base ← operand_u16 0
  i ← operand 1
  a ← index (pos base +ℤ pos 2 *ℤ i)
  v ← read_s16 a
  store_result v

unfoldable pub loadb : Done
loadb = do
  base ← operand_u16 0
  i ← operand 1
  a ← index (pos base +ℤ i)
  v ← read_byte a
  store_result (pos v)

-- while (depth < stackDepth(&m_callStack)) stackPop(&m_callStack)
unfoldable pub drop_calls : ℕ → ℕ → Done
drop_calls zero depth = skip
drop_calls (suc fuel) depth = do
  size ← get (λ s. stack_depth s.call_stack)
  if ltb depth size then (do _ ← pop_call; drop_calls fuel depth) else skip

-- A negative depth pops past the bottom of the stack.
unfoldable pub throw : Done
throw = do
  to ← operand 1
  depth ← index to
  size ← get (λ s. stack_depth s.call_stack)
  drop_calls size depth
  v ← operand 0
  return_routine v

unfoldable pub process_2op_instruction : Done
process_2op_instruction = do
  op ← get (λ s. s.ins.op)
  switch op
      (stop illegal_instruction
        ∷ je
        ∷ branch_compare ltb_ℤ
        ∷ branch_compare greater
        ∷ step_and_check (negsuc 0) ltb_ℤ
        ∷ step_and_check (pos 1) greater
        ∷ jin
        ∷ test_flags
        ∷ store_binary or_ℤ
        ∷ store_binary and_ℤ
        ∷ test_attr
        ∷ change_attr bit_or
        ∷ change_attr clear_bit
        ∷ store_indirect
        ∷ insert_obj
        ∷ loadw
        ∷ loadb
        ∷ get_prop
        ∷ get_prop_addr
        ∷ get_next_prop
        ∷ store_binary ◌+ℤ◌
        ∷ store_binary ◌-ℤ◌
        ∷ store_binary ◌*ℤ◌
        ∷ store_division quot
        ∷ store_division rem
        ∷ call_packed
        ∷ call_packed
        ∷ stop illegal_instruction
        ∷ throw
        ∷ stop illegal_instruction
        ∷ stop illegal_instruction
        ∷ stop illegal_instruction
        ∷ [])
      skip
