-- ===== src/OpExt.antt =====
-- `processEXTInstruction` of zops.c.
use zmachine.Base.{◌^◌, [], ◌∷◌, ltb, if◌then◌else◌}
use zmachine.Base.Int.{ℤ, pos, negsuc, ltb_ℤ, abs, low_bits, shr_ℤ, ◌*ℤ◌}
use zmachine.Effects.{
  Done, undefined, illegal_instruction, halt_instruction, stop, skip, get, ◌>>=◌,
}
use zmachine.Routine.{operand}
use zmachine.SaveGame.{save_instruction, restore_instruction}
use zmachine.Operands.{switch, store_result}

-- With operands, `save` and `restore` are for a table and are not supported: they answer 0.
unfoldable pub save_or_fail : Done → Done
save_or_fail m = do
  num_ops ← get (λ s. s.ins.num_ops)
  if ltb 0 num_ops then store_result (pos 0) else m

-- `v<<n` or `v>>-n` of an `int`; by 32 or more it is undefined.
unfoldable pub shift : (ℤ → ℤ) → Done
shift start = do
  a ← operand 0
  places ← operand 1
  if ltb (abs places) 32
      then store_result (
          if ltb_ℤ places (pos 0)
          then shr_ℤ (start a) (2 ^ abs places)
          else start a *ℤ pos (2 ^ abs places))
      else stop undefined

-- `log_shift` takes the sign bit for a digit, `art_shift` keeps the sign.
abbrev pub unsigned_word : ℤ → ℤ
unsigned_word a = pos (low_bits a 0x10000)

abbrev pub signed_word : ℤ → ℤ
signed_word a = a

unfoldable pub process_ext_instruction : Done
process_ext_instruction = do
  op ← get (λ s. s.ins.op)
  switch op
      (save_or_fail save_instruction
        ∷ save_or_fail restore_instruction
        ∷ shift unsigned_word
        ∷ shift signed_word
        ∷ skip
        ∷ stop illegal_instruction
        ∷ stop illegal_instruction
        ∷ stop illegal_instruction
        ∷ stop illegal_instruction
        ∷ store_result (negsuc 0)
        ∷ store_result (pos 0)
        ∷ stop halt_instruction
        ∷ stop halt_instruction
        ∷ stop halt_instruction
        ∷ [])
      (stop illegal_instruction)
