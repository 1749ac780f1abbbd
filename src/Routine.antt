-- ===== src/Routine.antt =====
-- Calls, returns and branches of zops.c.
pub mod Return
pub mod Filling
pub mod Locals
pub mod CallReturn
use zmachine.Base.{
  ℕ, zero, suc, ◌+◌, ◌-◌, ◌%◌, ◌^◌, Bool, not, Option, none, some, List, ltb, leb, if◌then◌else◌,
  length, get_elem?, set, replicate,
}
use zmachine.Base.Int.{ℤ, pos, negsuc, eq_ℤ, ltb_ℤ, ◌+ℤ◌}
use zmachine.Stack.{push_value, pop_value, stack_depth}
use zmachine.Machine.{CallStack, Branch}
use zmachine.Effects.{
  M, Done, undefined, stopped, ok, pure, valid, stop, skip, get, modify, when, ◌>>=◌, ◌>>◌,
}
use zmachine.Memory.{read_memory, read_s16}
use zmachine.Variables.{pop_number, set_variable}

unfoldable pub pop_call : M CallStack
pop_call s = elim (pop_value s.call_stack) [
  | none ↦ stopped undefined s
  | some (frame, t) ↦ ok frame (record s { call_stack = t })
]

unfoldable pub push_call : CallStack → Done
push_call frame s = elim (push_value s.call_stack frame) [
  | none ↦ stopped undefined s
  | some t ↦ ok tt (record s { call_stack = t })
]

-- while (depth < stackDepth(&m_stack)) readVariable(0), for as many rounds as there are values
unfoldable pub drop_numbers : ℕ → ℕ → Done
drop_numbers zero depth = skip
drop_numbers (suc fuel) depth = do
  size ← get (λ s. stack_depth s.number_stack)
  if ltb depth size then (do _ ← pop_number; drop_numbers fuel depth) else skip

unfoldable pub return_routine : ℤ → Done
return_routine value = do
  frame ← pop_call
  size ← get (λ s. stack_depth s.number_stack)
  drop_numbers size frame.depth
  when (not (eq_ℤ frame.return_store (negsuc 0))) (set_variable frame.return_store value)
  modify (λ s. record s { pc = frame.return_addr })

unfoldable pub do_branch : Bool → Branch → Done
do_branch cond branch =
    let taken = if branch.negate then not cond else cond in
    if taken
    then if eq_ℤ branch.offset (pos 0)
      then return_routine (pos 0)
      else if eq_ℤ branch.offset (pos 1)
      then return_routine (pos 1)
      else modify (λ s. record s { pc = s.pc +ℤ (branch.offset +ℤ negsuc 1) })
    else skip

-- m_ins.operands[i].value
unfoldable pub operand : ℕ → M ℤ
operand i = do operands ← get (λ s. s.ins.operands); o ← valid (get_elem? operands i); pure o.value

-- cs.locals[i] = v; an index past the array is undefined.
abbrev pub write_local : List (Option ℤ) → ℕ → ℤ → M (List (Option ℤ))
write_local locals i v =
    if ltb i (length locals) then pure (set locals i (some v)) else stop undefined

-- memset(cs.locals, 0, ...)
unfoldable pub clear_locals : ℕ → ℕ → List (Option ℤ) → M (List (Option ℤ))
clear_locals zero i locals = pure locals
clear_locals (suc n) i locals = do
  locals' ← write_local locals i (pos 0)
  clear_locals n (i + 1) locals'

-- The initial values before version 5, and the address behind them.
unfoldable pub load_locals : ℕ → ℕ → ℕ → List (Option ℤ) → M (ℕ × List (Option ℤ))
load_locals zero i addr locals = pure (addr, locals)
load_locals (suc n) i addr locals = do
  v ← read_s16 addr
  locals' ← write_local locals i v
  load_locals n (i + 1) (addr + 2) locals'

unfoldable pub set_operands : ℕ → ℕ → List (Option ℤ) → M (List (Option ℤ))
set_operands zero i locals = pure locals
set_operands (suc n) i locals = do
  v ← operand (i + 1)
  locals' ← write_local locals i v
  set_operands n (i + 1) locals'

-- The mask of the arguments given; a shift by -1 is undefined.
abbrev pub argument_mask : ℕ → M ℕ
argument_mask zero = stop undefined
argument_mask (suc n) = pure (2 ^ n - 1)

-- The source calls it with `setOperands` true always.
unfoldable pub call_routine : ℕ → ℤ → Bool → Done
call_routine zero return_store set_ops =
    when (not (ltb_ℤ return_store (pos 0))) (set_variable return_store (pos 0))
call_routine (suc before) return_store set_ops = do
  first ← read_memory (suc before)
  num_ops ← get (λ s. s.ins.num_ops)
  return_addr ← get (λ s. s.pc)
  version ← get (λ s. s.version)
  let num_locals = first % 0xFF
  mask ← if set_ops then argument_mask num_ops else pure 0
  (addr, locals) ←
      if leb 5 version
      then (do
        cleared ← clear_locals num_locals 0 (replicate 15 none)
        pure (suc before + 1, cleared))
      else load_locals num_locals 0 (suc before + 1) (replicate 15 none)
  locals' ← if set_ops then set_operands (num_ops - 1) 0 locals else pure locals
  depth ← get (λ s. stack_depth s.number_stack)
  modify (λ s. record s { pc = pos addr })
  push_call (record {
    return_addr = return_addr;
    return_store = return_store;
    set_arguments = mask;
    num_locals = num_locals;
    locals = locals';
    depth = depth;
  })
