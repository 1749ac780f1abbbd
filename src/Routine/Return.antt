-- ===== src/Routine/Return.antt =====
-- About `returnRoutine` of Firmware/main/zops.c and its loop over the number stack.
use zmachine.Base.{
  ℕ, zero, suc, ◌+◌, ◌≤◌, ◌≡◌, ap, some, arith, ltb, if◌then◌else◌, get_elem?, inl, inr, ℕ-cases,
  get_elem?-some, Bool-cases,
}
use zmachine.Base.Int.{ℤ, negsuc, eq_ℤ}
use zmachine.Stack.{stack_depth}
use zmachine.Stack.Refine.{IsValid, pop_value-at}
use zmachine.Machine.{Machine, CallStack}
use zmachine.Effects.{ok}
use zmachine.Variables.{pop_number, set_variable}
use zmachine.Routine.{pop_call, drop_numbers, return_routine}

-- The machine with `n` values on the number stack, or `n` frames on the call stack.
abbrev pub with_numbers : Machine → ℕ → Machine
with_numbers s n = record s { number_stack = record s.number_stack { current = n } }

abbrev pub with_calls : Machine → ℕ → Machine
with_calls s n = record s { call_stack = record s.call_stack { current = n } }

pop_number-at :
    (s : Machine) (n : ℕ)
    → IsValid s.number_stack
    → s.number_stack.current ≡ suc n
    → (v : ℤ) × (pop_number s ≡ ok v (with_numbers s n))
unfolding pop_number
pop_number-at s n valid e =
    let (v, here) = get_elem?-some s.number_stack.base n (omega (arith, valid.room, valid.used)) in
    (v, rw (pop_value-at s.number_stack n v e here, pop_number))

-- The loop that drops numbers stops at the depth asked for.
pub drop_numbers_lem :
    (fuel depth : ℕ) (s : Machine)
    → IsValid s.number_stack
    → depth ≤ s.number_stack.current
    → s.number_stack.current ≤ depth + fuel
    → drop_numbers fuel depth s ≡ ok tt (with_numbers s depth)
unfolding drop_numbers stack_depth
drop_numbers_lem zero depth s valid h k =
    let e : s.number_stack.current ≡ depth = omega arith in ap (λ n. ok tt (with_numbers s n)) e
drop_numbers_lem (suc fuel) depth s valid h k =
    elim (Bool-cases (ltb depth s.number_stack.current)) [
      | inr done ↦
          let e : s.number_stack.current ≡ depth = ground arith in
          rw (done, drop_numbers) (ap (λ n. ok tt (with_numbers s n)) e)
      | inl more ↦ elim (ℕ-cases s.number_stack.current) [
        | inl e ↦ absurd (ground arith)
        | inr (n, e) ↦
            let (v, popped) = pop_number-at s n valid e in
            let valid' : IsValid (with_numbers s n).number_stack = record {
              room = valid.room;
              used = omega (arith, valid.used);
            } in
            rw (more, drop_numbers, popped)
              (drop_numbers_lem fuel depth (with_numbers s n) valid' (ground arith) (omega arith))
      ]
    ]

-- With a valid number stack and a frame on top of the call stack whose depth is not above the
-- number stack's: `returnRoutine` takes the frame off, drops the numbers above its depth, stores
-- the value by `setVariable` unless the frame wants none (-1), and sets the PC to the frame's
-- return address. The hypothesis `stored` says that this store succeeds.
pub return_routine_lem :
    (s : Machine) (value : ℤ) (n : ℕ) (frame : CallStack) {t : Machine}
    → IsValid s.number_stack
    → s.call_stack.current ≡ suc n
    → get_elem? s.call_stack.base n ≡ some frame
    → frame.depth ≤ s.number_stack.current
    → (if eq_ℤ frame.return_store (negsuc 0)
        then ok tt (with_numbers (with_calls s n) frame.depth)
        else set_variable frame.return_store value (with_numbers (with_calls s n) frame.depth))
      ≡ ok tt t
    → return_routine value s ≡ ok tt (record t { pc = frame.return_addr })
unfolding return_routine pop_call stack_depth
return_routine_lem s value n frame {t} valid top here deep stored =
    let popped = pop_value-at s.call_stack n frame top here in
    let dropped =
      drop_numbers_lem s.number_stack.current frame.depth (with_calls s n) valid deep
        (omega arith) in
    ground (arith, popped, dropped, stored)
