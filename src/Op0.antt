-- ===== src/Op0.antt =====
-- `process0OPInstruction` of zops.c.
use zmachine.Base.{true, [], ◌∷◌, ltb, if◌then◌else◌}
use zmachine.Base.Int.{pos}
use zmachine.Stack.{stack_depth}
use zmachine.Effects.{
  Done, illegal_instruction, halt_instruction, quit, stop, skip, get, modify, index, ◌>>=◌, ◌>>◌,
}
use zmachine.Variables.{pop_number}
use zmachine.Routine.{return_routine}
use zmachine.Text.{print_text, print_to_stream}
use zmachine.Status.{update_status}
use zmachine.SaveGame.{save_instruction, restore_instruction}
use zmachine.Operands.{switch, store_result, branch_on}

-- m_pc=printText(m_pc)
unfoldable pub print_inline : Done
print_inline = do
  pc ← get (λ s. s.pc)
  a ← index pc
  next ← print_text a
  modify (λ s. record s { pc = pos next })

unfoldable pub print_ret : Done
print_ret = do print_inline; print_to_stream 10; return_routine (pos 1)

unfoldable pub ret_popped : Done
ret_popped = do v ← pop_number; return_routine v

-- `pop` before version 5, `catch` from 5 on
unfoldable pub pop_or_catch : Done
pop_or_catch = do
  version ← get (λ s. s.version)
  depth ← get (λ s. stack_depth s.call_stack)
  if ltb version 5 then (do _ ← pop_number; skip) else store_result (pos depth)

unfoldable pub process_0op_instruction : Done
process_0op_instruction = do
  op ← get (λ s. s.ins.op)
  switch op
      (return_routine (pos 1)
        ∷ return_routine (pos 0)
        ∷ print_inline
        ∷ print_ret
        ∷ skip
        ∷ save_instruction
        ∷ restore_instruction
        ∷ stop halt_instruction
        ∷ ret_popped
        ∷ pop_or_catch
        ∷ stop quit
        ∷ print_to_stream 10
        ∷ update_status
        ∷ branch_on true
        ∷ stop illegal_instruction
        ∷ branch_on true
        ∷ [])
      skip
