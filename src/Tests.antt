-- ===== src/Tests.antt =====
-- Runs of the code of zops.c on a small story, and its theorems at concrete inputs.
mod Sample
mod Saves
mod Link
mod Network
mod Screen
mod Tn3270
use zmachine.Base.{
  ℕ, zero, suc, ◌+◌, ◌-◌, ◌%◌, ◌/◌, ◌<◌, ◌≤◌, ◌≡◌, refl, ap, arith, Bool, not, true, false, Option,
  none, some, List, [], ◌∷◌, ◌++◌, ◌==◌, leb, le→ltb, if◌then◌else◌, length, replicate,
  get_elem?-some, set, inl, inr,
}
use zmachine.Base.Int.{ℤ, pos, negsuc, signed}
use zmachine.Stack.{Stack, push_value, pop_value}
use zmachine.Stack.Refine.{
  IsValid, values, values_after, value_and_rest, push_list, pop_list, push_value_refines,
  pop_value_refines, pop_value-push_value,
}
use zmachine.Machine.{Machine, CallStack, SaveStream, ZObject}
use zmachine.Effects.{ok, ◌>>◌, for_each}
use zmachine.Memory.{make_s16, set_memory, get_dynamic}
use zmachine.Memory.Flat.{byte_at, with_chunks, IsMapped, set_memory_lem, with_pc}
use zmachine.Variables.Laws.{on_stack, local, global, ReadsBack, read_variable-set_variable}
use zmachine.Variables.{set_variable, push_number, wrap_s16}
use zmachine.Routine.{call_routine, return_routine}
use zmachine.Routine.Return.{return_routine_lem, with_numbers, with_calls}
use zmachine.Routine.Locals.{CanCall}
use zmachine.Routine.CallReturn.{called, frame_of, call_routine_lem, return_routine-call_routine}
use zmachine.Decode.{contains, read_branch_instruction, one_op_branch_instructions}
use zmachine.Decode.BranchBytes.{branch_of, read_branch-long}
use zmachine.Dictionary.Packing.{packed, unpack, is_end, unpack-packed}
use zmachine.SaveStream.{emit, read_byte, read_from_disk}
use zmachine.SaveStream.Write.{IsWriter, written, bytes, for_each-emit}
use zmachine.SaveStream.Read.{IsReader, left_of, read_byte_lem, read_from_disk_lem}
use zmachine.SaveStream.{fwrite}
use zmachine.SaveStream.Emits.{Emits}
use zmachine.Save.{save_dynamic_memory}
use zmachine.Restore.Expand.{Expands, read_diffs_lem}
use zmachine.Save.Compress.{decode, Holds, save_dynamic_memory_lem}
use zmachine.Objects.{get_property}
use zmachine.Objects.Search.{Ends, get_property-Ends}
use zmachine.Objects.Links.{
  small_of, parent, child, zobject_get, zobject_set, with_link, result, zobject_get-zobject_set,
}
use zmachine.Tests.Sample.{
  machine, story, numbers, frames, main_frame, stream, numbers-IsValid, frames-IsValid,
  machine-IsMapped,
}

machine-CanCall : CanCall machine 63
machine-CanCall = record {
  header = (2, refl, omega arith);
  initial = λ _ a p q.
      let (b, e) = get_elem?-some story a (omega arith) in (b, rw (le→ltb a 64 (omega arith)) e);
  given = omega arith;
  held = omega arith;
  eight = omega arith;
  calls = frames-IsValid;
  room = omega arith;
}

return_routine-call_routine_example :
    (calls : Stack CallStack) × ((call_routine 64 (negsuc 0) true >> return_routine (pos 7)) machine
      ≡ ok tt (record machine { call_stack = calls }))
    × (values calls ≡ main_frame ∷ [])
return_routine-call_routine_example =
    return_routine-call_routine machine 63 (pos 7) machine-CanCall numbers-IsValid

-- The argument, the word of the second local, and locals that are not written
abbrev called_locals : List (Option ℤ)
called_locals = some (pos 9) ∷ some (pos 6) ∷ replicate 13 none

call_routine_lem_example :
    call_routine 64 (pos 16) true machine
    ≡ ok tt (called machine 69 (frame_of machine (pos 16) 1 2 called_locals))
unfolding make_s16
call_routine_lem_example = call_routine_lem machine 63 2 (pos 16) machine-CanCall refl

-- Variable 17, the second global, takes -2 as it is and 70000 cut to 4464.
read_variable-set_variable_example : ReadsBack machine (pos 17) (pos 70000)
read_variable-set_variable_example =
    read_variable-set_variable (pos 70000) (global 16 (omega arith) machine-IsMapped (omega arith))

-- "go  north"
abbrev typed : List ℕ
typed = b'g' ∷ b'o' ∷ b' ' ∷ b' ' ∷ b'n' ∷ b'o' ∷ b'r' ∷ b't' ∷ b'h' ∷ []

unpack-packed_example :
    (unpack 0 (packed 3 6 7 8 9 10 11 5 5 5) ≡ 6 ∷ 7 ∷ 8 ∷ [])
    × (unpack 2 (packed 3 6 7 8 9 10 11 5 5 5) ≡ 9 ∷ 10 ∷ 11 ∷ [])
    × (unpack 4 (packed 3 6 7 8 9 10 11 5 5 5) ≡ 5 ∷ 5 ∷ 5 ∷ [])
    × (is_end 0 (packed 3 6 7 8 9 10 11 5 5 5) ≡ false)
    × (is_end 2 (packed 3 6 7 8 9 10 11 5 5 5) ≡ true)
    × (is_end 4 (packed 3 6 7 8 9 10 11 5 5 5) ≡ false)
unpack-packed_example = unpack-packed 3 6 7 8 9 10 11 5 5 5

set_memory_lem_example :
    (chunks : List (List ℕ)) × (set_memory 5 300 machine ≡ ok tt (with_chunks machine chunks))
    × ((j : ℕ)
        → byte_at (with_chunks machine chunks) j ≡ (if 5 == j then some 44 else byte_at machine j))
    × IsMapped (with_chunks machine chunks)
set_memory_lem_example = set_memory_lem machine machine-IsMapped 5 300 (omega arith)

read_branch-long_example :
    read_branch_instruction one_op_branch_instructions 0 machine
    ≡ ok (branch_of (negsuc 1) false) (with_pc machine (pos 82))
unfolding contains
read_branch-long_example =
    read_branch-long machine 80 one_op_branch_instructions 0 false 0x3FFE (omega arith) refl refl
      refl refl

push_value_refines_example :
    values_after (push_value numbers (pos 5)) ≡ push_list 4 (pos 0 ∷ []) (pos 5)
push_value_refines_example = push_value_refines numbers (pos 5) numbers-IsValid

pop_value_refines_example : value_and_rest (pop_value numbers) ≡ pop_list (pos 0 ∷ [])
pop_value_refines_example = pop_value_refines numbers numbers-IsValid

pop_value-push_value_example :
    (u : Stack ℤ) × (pop_value
        (record numbers { base = pos 0 ∷ pos 5 ∷ replicate 2 (pos 0); current = 2 })
      ≡ some (pos 5, u))
    × (values u ≡ pos 0 ∷ [])
unfolding push_value
pop_value-push_value_example = pop_value-push_value numbers (pos 5) numbers-IsValid refl

-- The frame drops the one number on the stack, and the result is pushed there.
abbrev returned : Machine
returned = record machine {
  number_stack = record numbers { base = pos 7 ∷ replicate 3 (pos 0) };
  call_stack = record frames { current = 0 };
}

stored_result :
    set_variable (pos 0) (pos 7) (with_numbers (with_calls machine 0) 0) ≡ ok tt returned
unfolding set_variable push_number push_value wrap_s16
stored_result = refl

return_routine_lem_example : return_routine (pos 7) machine ≡ ok tt (record returned { pc = pos 0 })
return_routine_lem_example =
    return_routine_lem machine (pos 7) 0 main_frame {t = returned} numbers-IsValid refl refl
      (omega arith) stored_result

abbrev lamp : ZObject
lamp = record { addr = pos 20; prop_table = 0 }

zobject_get-zobject_set_example :
    (chunks : List (List ℕ)) × (zobject_set parent lamp (pos 200) machine
      ≡ ok tt (with_chunks machine chunks))
    × (zobject_get parent lamp (with_chunks machine chunks) ≡ ok 200 (with_chunks machine chunks))
    × (result (zobject_get child lamp (with_chunks machine chunks))
        ≡ result (zobject_get child lamp machine))
    × ((j : ℕ) → byte_at (with_chunks machine chunks) j ≡ with_link machine 20 parent 200 j)
    × IsMapped (with_chunks machine chunks)
zobject_get-zobject_set_example =
    zobject_get-zobject_set machine lamp 20 200 parent child machine-IsMapped refl
      ((λ _. (omega arith, omega arith)), (λ _. (omega arith, omega arith)))
      (λ e. absurd (omega (arith, ap small_of e)))

get_property-Ends_example : Ends (get_property lamp (pos 5) machine) machine
get_property-Ends_example = get_property-Ends lamp (pos 5) machine
