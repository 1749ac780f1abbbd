-- ===== src/Variables.antt =====
-- Variables of zops.c: the stack, the routine's locals and the globals.
pub mod Laws
use zmachine.Base.{ℕ, zero, suc, ◌+◌, ◌-◌, ◌*◌, ◌/◌, none, some, ltb, if◌then◌else◌, get_elem?, set}
use zmachine.Base.Int.{ℤ, pos, negsuc, low_bits, signed, eq_ℤ}
use zmachine.Stack.{push_value, pop_value, peek_value, set_top}
use zmachine.Machine.{CallStack}
use zmachine.Effects.{M, Done, undefined, stopped, ok, pure, valid, stop, get, when, ◌>>=◌, ◌>>◌}
use zmachine.Memory.{read_s16, set_memory}

-- `*(s16*)stackPop(&m_stack)` and `*(s16*)stackPush(&m_stack)=v`
unfoldable pub pop_number : M ℤ
pop_number s = elim (pop_value s.number_stack) [
  | none ↦ stopped undefined s
  | some (v, t) ↦ ok v (record s { number_stack = t })
]

unfoldable pub push_number : ℤ → Done
push_number v s = elim (push_value s.number_stack v) [
  | none ↦ stopped undefined s
  | some t ↦ ok tt (record s { number_stack = t })
]

unfoldable pub peek_call : M CallStack
peek_call s = valid (peek_value s.call_stack) s

unfoldable pub read_local : ℕ → M ℤ
read_local i = do frame ← peek_call; slot ← valid (get_elem? frame.locals i); valid slot

unfoldable pub set_local : ℕ → ℤ → Done
set_local i v = do
  frame ← peek_call
  _ ← valid (get_elem? frame.locals i)
  λ s. elim (set_top s.call_stack (record frame { locals = set frame.locals i (some v) })) [
    | none ↦ stopped undefined s
    | some t ↦ ok tt (record s { call_stack = t })
  ]

-- Variable 0 is the stack, 1 to 15 are locals, the others globals. A negative number is below 16,
-- and so is taken for a local before the array.
unfoldable pub read_variable : ℤ → M ℤ
read_variable (negsuc n) = stop undefined
read_variable (pos zero) = pop_number
read_variable (pos (suc k)) =
    if ltb (suc k) 16
    then read_local k
    else do off ← get (λ s. 2 * (suc k - 16) + s.global_variables); read_s16 off

-- `value&=0xFFFF` with its sign restored
unfoldable pub wrap_s16 : ℤ → ℤ
wrap_s16 v = signed 0x8000 0x10000 (low_bits v 0x10000)

unfoldable pub set_variable : ℤ → ℤ → Done
set_variable (negsuc n) v = stop undefined
set_variable (pos zero) v = push_number (wrap_s16 v)
set_variable (pos (suc k)) v = if ltb (suc k) 16 then set_local k (wrap_s16 v) else do
  off ← get (λ s. 2 * (suc k - 16) + s.global_variables)
  set_memory off (low_bits (wrap_s16 v) 0x10000 / 256)
  set_memory (off + 1) (low_bits (wrap_s16 v) 256)

unfoldable pub set_variable_indirect : ℤ → ℤ → Done
set_variable_indirect var v =
    when (eq_ℤ var (pos 0)) (do _ ← pop_number; λ s. ok tt s) >> set_variable var v

unfoldable pub read_variable_indirect : ℤ → M ℤ
read_variable_indirect var = do
  ret ← read_variable var
  when (eq_ℤ var (pos 0)) (set_variable var ret)
  pure ret
