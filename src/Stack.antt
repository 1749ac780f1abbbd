-- ===== src/Stack.antt =====
-- The `stack` of Firmware/main/zops.c: `stackInit` to `stackPeek` over an array `base` of `depth`
-- slots, `current` of them in use. The element size is the type `A`. `stackPush`, `stackPop` and
-- `stackPeek` return the address of a slot, here its index. The ASSERTs only print; a push on a
-- full stack or a pop of an empty one computes an address outside the array, which is undefined
-- behaviour in C and `none` here.
pub mod Refine
use zmachine.Base.{
  ℕ, ◌+◌, ◌-◌, Bool, Option, List, none, some, leb, ◌==◌, if◌then◌else◌, get_elem?, set,
}

module _ (A : Type 0) where
  pub record Stack : Type 0 where
    pub base : List A
    pub depth : ℕ
    pub current : ℕ

module _ {A : Type 0} where
  unfoldable pub stack_init : List A → ℕ → Stack A
  stack_init base depth = record { base = base; depth = depth; current = 0 }

  unfoldable pub stack_full : Stack A → Bool
  stack_full s = leb s.depth s.current

  unfoldable pub stack_empty : Stack A → Bool
  stack_empty s = s.current == 0

  unfoldable pub stack_depth : Stack A → ℕ
  stack_depth s = s.current

  -- The slot that the caller fills, and the stack with one slot more in use.
  unfoldable pub stack_push : Stack A → Option (ℕ × Stack A)
  unfolding stack_full
  stack_push s =
      if stack_full s then none else some (s.current, record s { current = s.current + 1 })

  -- The slot that was on top; what it holds stays in the array.
  unfoldable pub stack_pop : Stack A → Option (ℕ × Stack A)
  unfolding stack_empty
  stack_pop s =
      if stack_empty s then none else some (s.current - 1, record s { current = s.current - 1 })

  unfoldable pub stack_peek : Stack A → Option ℕ
  unfolding stack_empty
  stack_peek s = if stack_empty s then none else some (s.current - 1)

  -- `*stackPush(s) = v`
  unfoldable pub push_value : Stack A → A → Option (Stack A)
  unfolding stack_push
  push_value s v = elim (stack_push s) [
    | none ↦ none
    | some (slot, s') ↦ some (record s' { base = set s'.base slot v })
  ]

  -- `*stackPop(s)`
  unfoldable pub pop_value : Stack A → Option (A × Stack A)
  unfolding stack_pop
  pop_value s = elim (stack_pop s) [
    | none ↦ none
    | some (slot, s') ↦ elim (get_elem? s'.base slot) [ none ↦ none | some v ↦ some (v, s') ]
  ]

  -- `*stackPeek(s)`
  unfoldable pub peek_value : Stack A → Option A
  unfolding stack_peek
  peek_value s = elim (stack_peek s) [ none ↦ none | some slot ↦ get_elem? s.base slot ]

  -- A write through `stackPeek(s)`.
  unfoldable pub set_top : Stack A → A → Option (Stack A)
  unfolding stack_peek
  set_top s v = elim (stack_peek s) [
    | none ↦ none
    | some slot ↦ some (record s { base = set s.base slot v })
  ]
