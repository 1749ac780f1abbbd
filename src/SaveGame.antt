-- ===== src/SaveGame.antt =====
-- `saveInstruction` and `restoreInstruction` of zops.c.
use zmachine.Base.{
  ℕ, Bool, true, false, Option, none, some, List, [], ◌∷◌, ◌++◌, leb, ◌==◌, if◌then◌else◌,
}
use zmachine.Base.Int.{ℤ, pos}
use zmachine.Machine.{print_string, close_file}
use zmachine.Effects.{M, Done, waiting, stopped, ok, pure, skip, get, modify, ◌>>=◌, ◌>>◌}
use zmachine.Variables.{set_variable}
use zmachine.Routine.{do_branch}
use zmachine.Decode.{
  read_store_instruction, read_branch_instruction, zero_op_store_instructions_v4,
  ext_op_store_instructions, zero_op_branch_instructions,
}
use zmachine.Windows.{call, io_read_input}
use zmachine.SaveStream.{save_reset_stream}
use zmachine.Save.{save_state}
use zmachine.Restore.{restore_state}
use zmachine.Status.{codes}

abbrev pub spiflash : List ℕ
spiflash = codes "/spiflash/"

-- The 128 bytes of `m_input` less the prefix.
abbrev pub name_size : ℕ
name_size = 117

-- The player's file name, in `m_input`.
unfoldable pub ask_file_name : M (List ℕ)
ask_file_name = do
  call (print_string (codes "Select a file name (filename.qzl):"))
  line ← io_read_input name_size false
  let name = spiflash ++ line
  modify (λ s. record s { input = name })
  pure name

-- The answer of `fopen`: the contents of the file, or a null pointer.
unfoldable pub open_file : M (Option (List ℕ))
open_file s = elim s.console.opened [
  | [] ↦ stopped waiting s
  | f ∷ fs ↦ ok f (record s { console = record s.console { opened = fs } })
]

unfoldable pub reset_stream : Done
reset_stream = modify (λ s. record s { save_stream = save_reset_stream s.save_stream })

abbrev pub set_file : Option (List ℕ) → Done
set_file f = modify (λ s. record s { save_stream = record s.save_stream { file = f } })

-- `fclose` on a file that was written.
unfoldable pub close_written : List ℕ → Done
close_written name = do
  f ← get (λ s. s.save_stream.file)
  elim f [ none ↦ skip | some bytes ↦ call (close_file name bytes) ]

unfoldable pub report_success : Bool → Done
report_success done = do
  version ← get (λ s. s.version)
  ins ← get (λ s. s.ins)
  if leb 4 version
      then set_variable ins.store (if done then pos 1 else pos 0)
      else do_branch done ins.branch

-- The state is written twice: the first pass measures the chunks.
unfoldable pub save_instruction : Done
save_instruction = do
  name ← ask_file_name
  reset_stream
  save_state
  reset_stream
  f ← open_file
  elim f [
    | none ↦ report_success false
    | some _ ↦ do set_file (some []); save_state; close_written name; report_success true
  ]

abbrev pub set_store : ℤ → Done
set_store v = modify (λ s. record s { ins = record s.ins { store = v } })

-- After a restore the result byte or the branch is read again, at the new PC.
unfoldable pub finish_restore : Done
finish_restore = do
  version ← get (λ s. s.version)
  ins ← get (λ s. s.ins)
  if version == 4
      then (do
        store ← read_store_instruction zero_op_store_instructions_v4 ins.op
        set_store store
        set_variable store (pos 2))
      else if leb 5 version
      then (do
        store ← read_store_instruction ext_op_store_instructions ins.op
        set_store store
        set_variable store (pos 2))
      else (do
        branch ← read_branch_instruction zero_op_branch_instructions 5
        modify (λ s. record s { ins = record s.ins { branch = branch } })
        do_branch true branch)

unfoldable pub restore_instruction : Done
restore_instruction = do
  _ ← ask_file_name
  reset_stream
  f ← open_file
  set_file f
  elim f [
    | none ↦ report_success false
    | some _ ↦ do
      restored ← restore_state
      if restored then finish_restore else report_success false
  ]
