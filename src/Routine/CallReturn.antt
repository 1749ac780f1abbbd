-- ===== src/Routine/CallReturn.antt =====
-- About `callRoutine` and `returnRoutine` of Firmware/main/zops.c together.
use zmachine.Base.{
  subst, List, ℕ, suc, ◌+◌, ◌-◌, ◌%◌, ◌^◌, ◌≡◌, refl, ap, ◌∙◌, true, Option, some, arith, set, inl,
  inr, get_elem?-set_self, take-set_above, ℕ-cases,
}
use zmachine.Base.Int.{ℤ, pos, negsuc}
use zmachine.Stack.{Stack, stack_depth}
use zmachine.Stack.Refine.{IsValid, values, push_value-at}
use zmachine.Machine.{Machine, CallStack}
use zmachine.Effects.{ok, ◌>>◌, and_then}
use zmachine.Memory.Flat.{byte_at, read_memory_lem}
use zmachine.Routine.{call_routine, return_routine, push_call}
use zmachine.Routine.Return.{return_routine_lem}
use zmachine.Routine.Filling.{set_operands_lem}
use zmachine.Routine.Locals.{CanCall, header_end, locals_of, initial_locals, locals_lem}

-- The machine behind a call: `frame` pushed, and the PC in the routine.
abbrev pub called : Machine → ℕ → CallStack → Machine
called s addr frame = record s {
  pc = pos addr;
  call_stack = record s.call_stack {
    base = set s.call_stack.base s.call_stack.current frame;
    current = s.call_stack.current + 1;
  };
}

abbrev pub frame_of : Machine → ℤ → ℕ → ℕ → List (Option ℤ) → CallStack
frame_of s store mask num_locals locals = record {
  return_addr = s.pc;
  return_store = store;
  set_arguments = mask;
  num_locals = num_locals;
  locals = locals;
  depth = s.number_stack.current;
}

-- The call, by the header that `CanCall` gives
call_routine-header :
    (s : Machine) (before : ℕ) (store : ℤ) (c : CanCall s before)
    → let n = c.header.0 % 0xFF in
      call_routine (suc before) store true s
      ≡ ok tt (
          called s
            (header_end s before n)
            (frame_of s store (2 ^ (s.ins.num_ops - 1) - 1) n (locals_of s before n)))
unfolding call_routine push_call stack_depth
call_routine-header s before store c =
    let (first, read, few) = c.header in
    let n = first % 0xFF in
    let (ls, loaded, filled) = initial_locals s before c in
    elim (ℕ-cases s.ins.num_ops) [
      | inl e ↦ absurd (omega (arith, c.given))
      | inr (m, e) ↦
          let (locals, stored, given) =
            set_operands_lem m 0 ls s (omega (arith, filled.0, c.held, c.eight))
              (omega (arith, c.held)) in
          let same = locals_lem s before n m ls locals e filled given in
          let mask : m ≡ s.ins.num_ops - 1 = omega arith in
          let done : call_routine (suc before) store true s
              ≡ ok tt (called s (header_end s before n) (frame_of s store (2 ^ m - 1) n locals)) =
            ground (
              arith,
              read_memory_lem s (suc before) read,
              loaded,
              stored,
              push_value-at s.call_stack (frame_of s store (2 ^ m - 1) n locals) c.room,
            ) in
          done
          ∙ ap
              (λ k.
                ok tt (called s (header_end s before n) (frame_of s store (2 ^ k - 1) n locals)))
              mask
          ∙ ap
              (λ xs. ok tt (
                called s (header_end s before n)
                  (frame_of s store (2 ^ (s.ins.num_ops - 1) - 1) n xs)))
              same
    ]

-- For a routine that can be called (`CanCall`) and whose header starts with the byte `first`:
-- `callRoutine` succeeds, the PC is behind the header (its first byte, and before version 5 a word
-- for each local), and one frame is pushed. It holds the PC of before, the variable for the
-- result, a bit for each argument, `first % 255` as the number of locals, the depth of the number
-- stack, and the locals: the argument where one is given, else zero from version 5 on and the word
-- of the header before it, and behind the last local nothing that was written. All else is as
-- before.
pub call_routine_lem :
    (s : Machine) (before first : ℕ) (store : ℤ)
    → CanCall s before
    → byte_at s (suc before) ≡ some first
    → call_routine (suc before) store true s
      ≡ ok tt (
          called s (header_end s before (first % 0xFF)) (
            frame_of s store
              (2 ^ (s.ins.num_ops - 1) - 1)
              (first % 0xFF)
              (locals_of s before (first % 0xFF))))
call_routine_lem s before first store c e =
    let same : c.header.0 ≡ first = ground (arith, c.header.1, e) in
    subst
      (λ b.
        call_routine (suc before) store true s
        ≡ ok tt (
            called s (header_end s before (b % 0xFF)) (
              frame_of s store (2 ^ (s.ins.num_ops - 1) - 1) (b % 0xFF)
                (locals_of s before (b % 0xFF)))))
      same (call_routine-header s before store c)

-- For a routine that can be called (`CanCall`: a header in memory with 15 locals at most, one
-- operand at least and eight at most, room on a valid call stack) and a valid number stack:
-- `callRoutine` for effect, followed at once by `returnRoutine` with any value, succeeds and gives
-- the machine of before, the PC and the number stack included; only the call stack's array may
-- differ, and the frames in use are the same.
pub return_routine-call_routine :
    (s : Machine) (before : ℕ) (value : ℤ)
    → CanCall s before
    → IsValid s.number_stack
    → (calls : Stack CallStack) × ((call_routine (suc before) (negsuc 0) true
            >> return_routine value)
          s
        ≡ ok tt (record s { call_stack = calls }))
      × (values calls ≡ values s.call_stack)
return_routine-call_routine s before value c valid =
    let n = c.header.0 % 0xFF in
    let addr = header_end s before n in
    let frame = frame_of s (negsuc 0) (2 ^ (s.ins.num_ops - 1) - 1) n (locals_of s before n) in
    let call = call_routine-header s before (negsuc 0) c in
    let k = s.call_stack.current in
    let back =
      return_routine_lem (called s addr frame) value k frame valid (omega arith)
        (get_elem?-set_self s.call_stack.base k frame (omega (arith, c.room, c.calls.room)))
        (omega arith) refl in
    (
      record s.call_stack { base = set s.call_stack.base k frame },
      ap (λ r. and_then r (λ _. return_routine value)) call ∙ back,
      take-set_above s.call_stack.base k k frame (omega arith),
    )
