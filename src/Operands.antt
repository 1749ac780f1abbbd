-- ===== src/Operands.antt =====
-- What the instructions of zops.c share: their operands, result and branch, and `switch`.
use zmachine.Base.{ℕ, zero, suc, ◌*◌, Bool, true, List, [], ◌∷◌}
use zmachine.Base.Int.{ℤ, low_bits}
use zmachine.Effects.{M, Done, get, ◌>>=◌, pure}
use zmachine.Variables.{set_variable}
use zmachine.Routine.{operand, do_branch, call_routine}

-- switch (op) { case 0: … } over cases numbered from 0
unfoldable pub switch : ℕ → List Done → Done → Done
switch op [] otherwise = otherwise
switch zero (c ∷ cases) otherwise = c
switch (suc op) (c ∷ cases) otherwise = switch op cases otherwise

-- `m_ins.operands[i].value&0xFFFF`
unfoldable pub operand_u16 : ℕ → M ℕ
operand_u16 i = do v ← operand i; pure (low_bits v 0x10000)

-- setVariable(m_ins.store, v)
unfoldable pub store_result : ℤ → Done
store_result v = do store ← get (λ s. s.ins.store); set_variable store v

-- doBranch(cond, m_ins.branch)
unfoldable pub branch_on : Bool → Done
branch_on cond = do branch ← get (λ s. s.ins.branch); do_branch cond branch

-- callRoutine(m_packedMultiplier*(m_ins.operands[0].value&0xFFFF), m_ins.store, TRUE)
unfoldable pub call_packed : Done
call_packed = do
  packed ← operand_u16 0
  multiplier ← get (λ s. s.packed_multiplier)
  store ← get (λ s. s.ins.store)
  call_routine (multiplier * packed) store true
