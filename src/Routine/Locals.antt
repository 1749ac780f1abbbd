-- ===== src/Routine/Locals.antt =====
-- About the locals that `callRoutine` of Firmware/main/zops.c gives a routine.
use zmachine.Base.{
  Bool, sym, ltb, ◌&&◌, get_elem?, List, [], ◌∷◌, ℕ, zero, suc, ◌+◌, ◌*◌, ◌%◌, ◌<◌, ◌≤◌, ◌≡◌, refl,
  ap, ◌∙◌, false, Option, none, some, arith, leb, if◌then◌else◌, length, replicate, inl, inr,
  Bool-cases,
}
use zmachine.Base.Int.{ℤ, pos}
use zmachine.Stack.Refine.{IsValid}
use zmachine.Machine.{Machine}
use zmachine.Effects.{ok, ◌>>=◌}
use zmachine.Memory.Flat.{byte_at}
use zmachine.Routine.{clear_locals, load_locals}
use zmachine.Routine.Filling.{Filled, clear_locals_lem, load_locals_lem, operand_value, word_at}

-- What a call needs: a routine header with 15 locals at most, whose initial values lie in memory
-- before version 5; the operands that the instruction has; room on the call stack.
pub record CanCall (s : Machine) (before : ℕ) : Type 0 where
  pub header : (first : ℕ) × (byte_at s (suc before) ≡ some first) × (first % 0xFF ≤ 15)
  pub initial :
      leb 5 s.version ≡ false
      → (a : ℕ) → suc before < a
      → a ≤ suc before + 30
      → (b : ℕ) × (byte_at s a ≡ some b)
  pub given : 0 < s.ins.num_ops
  pub held : s.ins.num_ops ≤ length s.ins.operands
  pub eight : length s.ins.operands ≤ 8
  pub calls : IsValid s.call_stack
  pub room : s.call_stack.current < s.call_stack.depth

-- The address behind the header of a routine with `n` locals
abbrev pub header_end : Machine → ℕ → ℕ → ℕ
header_end s before n = if leb 5 s.version then suc before + 1 else suc before + 1 + 2 * n

-- What a local starts with: the argument that is given for it, or zero, or its word in the header
-- before version 5. The others of the fifteen are not written.
abbrev pub default_of : Machine → ℕ → ℕ → Option ℤ
default_of s before i = if leb 5 s.version then some (pos 0) else word_at s (suc before + 1 + 2 * i)

abbrev pub local_of : Machine → ℕ → ℕ → ℕ → Option ℤ
local_of s before n i =
    if ltb (i + 1) s.ins.num_ops
    then operand_value s (i + 1)
    else if ltb i n
    then default_of s before i
    else none

abbrev pub tabulate : (ℕ → Option ℤ) → ℕ → ℕ → List (Option ℤ)
tabulate value zero i = []
tabulate value (suc n) i = value i ∷ tabulate value n (i + 1)

abbrev pub locals_of : Machine → ℕ → ℕ → List (Option ℤ)
locals_of s before n = tabulate (local_of s before n) 15 0

tabulate_lem :
    (value : ℕ → Option ℤ) (n i : ℕ) (xs : List (Option ℤ))
    → length xs ≡ n
    → ((j : ℕ) → j < n → get_elem? xs j ≡ some (value (i + j)))
    → xs ≡ tabulate value n i
tabulate_lem value zero i [] size at = refl
tabulate_lem value zero i (x ∷ xs) size at = absurd (omega arith)
tabulate_lem value (suc n) i [] size at = absurd (omega arith)
tabulate_lem value (suc n) i (x ∷ xs) size at =
    let e : i + 0 ≡ i = omega arith in
    let first : x ≡ value i = ground (arith, at 0 (omega arith) ∙ ap (λ k. some (value k)) e) in
    let rest = tabulate_lem value n (i + 1) xs (omega arith) (λ j h.
      let e : i + suc j ≡ i + 1 + j = omega arith in
      at (suc j) (omega arith) ∙ ap (λ k. some (value k)) e) in
    ap (λ y. y ∷ xs) first ∙ ap (λ ys. value i ∷ ys) rest

replicate_at : (n j : ℕ) → j < n → get_elem? (replicate {A = Option ℤ} n none) j ≡ some none
replicate_at zero j h = absurd (omega arith)
replicate_at (suc n) zero h = refl
replicate_at (suc n) (suc j) h = replicate_at n j (omega arith)

-- The locals before the arguments are stored, and the address behind the header.
pub initial_locals :
    (s : Machine) (before : ℕ) (c : CanCall s before)
    → let n = c.header.0 % 0xFF in
      (ls : List (Option ℤ)) × ((if leb 5 s.version
            then (clear_locals n 0 (replicate 15 none) >>= λ cleared. ok (suc before + 1, cleared))
            else load_locals n 0 (suc before + 1) (replicate 15 none))
          s
        ≡ ok (header_end s before n, ls) s)
      × Filled (default_of s before) 0 n (replicate 15 none) ls
initial_locals s before c =
    let n = c.header.0 % 0xFF in
    let few = c.header.2 in
    elim (Bool-cases (leb 5 s.version)) [
      | inl v5 ↦
          let (ls, done, filled) =
            clear_locals_lem n 0 (replicate 15 none) s (omega (arith, few)) in
          (
            ls,
            rw (v5, done) refl,
            (
              filled.0,
              λ j.
                  filled.1 j
                  ∙ ap
                      (λ (b : Bool).
                        if leb 0 j && ltb j (0 + n)
                        then some (if b then some (pos 0) else word_at s (suc before + 1 + 2 * j))
                        else get_elem? (replicate {A = Option ℤ} 15 none) j)
                      (sym v5),
            ),
          )
      | inr old ↦
          let start = suc before + 1 in
          let at_start : start + 2 * 0 ≡ start = omega arith in
          let at_end : start + 2 * (0 + n) ≡ start + 2 * n = omega arith in
          let (ls, done, filled) =
            load_locals_lem n 0 (suc before + 1) (replicate 15 none) s (omega (arith, few))
              (λ a p q. c.initial old a (omega arith) (omega (arith, few))) in
          (
            ls,
            rw old (
                ap (λ a. load_locals n 0 a (replicate 15 none) s) (sym at_start)
                ∙ done
                ∙ ap (λ a. ok (a, ls) s) at_end),
            (
              filled.0,
              λ j.
                  filled.1 j
                  ∙ ap
                      (λ (b : Bool).
                        if leb 0 j && ltb j (0 + n)
                        then some (if b then some (pos 0) else word_at s (suc before + 1 + 2 * j))
                        else get_elem? (replicate {A = Option ℤ} 15 none) j)
                      (sym old),
            ),
          )
    ]

-- The arguments over the locals of the header
pub locals_lem :
    (s : Machine) (before n m : ℕ) (ls locals : List (Option ℤ))
    → s.ins.num_ops ≡ suc m
    → Filled (default_of s before) 0 n (replicate 15 none) ls
    → Filled (λ j. operand_value s (j + 1)) 0 m ls locals
    → locals ≡ locals_of s before n
locals_lem s before n m ls locals e filled given =
    tabulate_lem (local_of s before n) 15 0 locals (given.0 ∙ filled.0) (λ j h.
      let same : j ≡ 0 + j = omega arith in
      let at : get_elem? locals j ≡ some (local_of s before n j) =
        ground (arith, e, given.1 j, filled.1 j, replicate_at 15 j h) in
      at ∙ ap (λ k. some (local_of s before n k)) same)
