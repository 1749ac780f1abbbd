-- ===== src/Routine/Filling.antt =====
-- About the loops of `callRoutine` in Firmware/main/zops.c that fill a routine's locals.
use zmachine.Base.{
  subst, sym, ltb, ◌&&◌, ◌==◌, ==_iff, get_elem?, get_elem?-set, List, ℕ, zero, suc, ◌+◌, ◌*◌, ◌%◌,
  ◌<◌, ◌≤◌, ◌≡◌, refl, ap, ◌∙◌, Option, none, some, arith, leb, if◌then◌else◌, set, length,
  length-set, inl, inr, Bool-cases, get_elem?-some, lt→ltb,
}
use zmachine.Base.Int.{ℤ, pos}
use zmachine.Machine.{Machine, Operand}
use zmachine.Effects.{ok}
use zmachine.Memory.{make_s16}
use zmachine.Memory.Flat.{byte_at}
use zmachine.Memory.Words.{read_s16_lem}
use zmachine.Routine.{clear_locals, load_locals, set_operands, operand}

-- Writing the locals from `i` on changes those alone: `value j` is what the local `j` gets.
abbrev pub Filled : (ℕ → Option ℤ) → ℕ → ℕ → List (Option ℤ) → List (Option ℤ) → Type 0
Filled value i n old new =
    (length new ≡ length old)
    × ((j : ℕ)
        → get_elem? new j ≡ (if leb i j && ltb j (i + n) then some (value j) else get_elem? old j))

pub nothing-Filled :
    (value : ℕ → Option ℤ) (i : ℕ) (old : List (Option ℤ)) → Filled value i 0 old old
nothing-Filled value i old = (refl, λ j. ground arith)

pub one-Filled :
    (value : ℕ → Option ℤ) (i n : ℕ) (old new : List (Option ℤ))
    → i < length old
    → Filled value (i + 1) n (set old i (value i)) new
    → Filled value i (suc n) old new
one-Filled value i n old new inside (size, at) = (
  size ∙ length-set old i (value i),
  λ j. elim (Bool-cases (i == j)) [
    | inl here ↦
        subst
          (λ k.
            get_elem? new k
            ≡ (if leb i k && ltb k (i + suc n) then some (value k) else get_elem? old k))
          ((==_iff i j).0 here) (ground (arith, at i, get_elem?-set old i i (value i) inside))
    | inr there ↦ ground (arith, at j, get_elem?-set old i j (value i) inside)
  ],
)

pub clear_locals_lem :
    (n i : ℕ) (locals : List (Option ℤ)) (s : Machine)
    → i + n ≤ length locals
    → (ls : List (Option ℤ)) × (clear_locals n i locals s ≡ ok ls s)
      × Filled (λ _. some (pos 0)) i n locals ls
unfolding clear_locals
clear_locals_lem zero i locals s h = (locals, refl, nothing-Filled (λ _. some (pos 0)) i locals)
clear_locals_lem (suc n) i locals s h =
    let next = set locals i (some (pos 0)) in
    let same = length-set locals i (some (pos 0)) in
    let (ls, done, filled) = clear_locals_lem n (i + 1) next s (omega (arith, same)) in
    (
      ls,
      rw (lt→ltb i (length locals) (omega arith)) done,
      one-Filled (λ _. some (pos 0)) i n locals ls (omega arith) filled,
    )

-- The value of an operand, and the signed word at an address
abbrev pub operand_value : Machine → ℕ → Option ℤ
operand_value s i = elim (get_elem? s.ins.operands i) [ none ↦ none | some o ↦ some o.value ]

abbrev pub word_at : Machine → ℕ → Option ℤ
word_at s a = elim (byte_at s a) [
  | none ↦ none
  | some b ↦ elim (byte_at s (a + 1)) [ none ↦ none | some c ↦ some (make_s16 (b % 256) (c % 256)) ]
]

operand_value_lem :
    (s : Machine) (i : ℕ) (o : Operand)
    → get_elem? s.ins.operands i ≡ some o
    → some o.value ≡ operand_value s i
operand_value_lem s i o e =
    sym (ap (λ (found : Option Operand). elim found [ none ↦ none | some o ↦ some o.value ]) e)

word_at_lem :
    (s : Machine) (a b c : ℕ)
    → byte_at s a ≡ some b
    → byte_at s (a + 1) ≡ some c
    → some (make_s16 (b % 256) (c % 256)) ≡ word_at s a
word_at_lem s a b c e e' = rw (word_at, e, e') refl

pub set_operands_lem :
    (n i : ℕ) (locals : List (Option ℤ)) (s : Machine)
    → i + n ≤ length locals
    → i + n < length s.ins.operands
    → (ls : List (Option ℤ)) × (set_operands n i locals s ≡ ok ls s)
      × Filled (λ j. operand_value s (j + 1)) i n locals ls
unfolding set_operands operand
set_operands_lem zero i locals s h k =
    (locals, refl, nothing-Filled (λ j. operand_value s (j + 1)) i locals)
set_operands_lem (suc n) i locals s h k =
    let (o, here) = get_elem?-some s.ins.operands (i + 1) (omega arith) in
    let next = set locals i (some o.value) in
    let same = length-set locals i (some o.value) in
    let (ls, done, filled) =
      set_operands_lem n (i + 1) next s (omega (arith, same)) (omega arith) in
    let value : some o.value ≡ operand_value s (i + 1) = operand_value_lem s (i + 1) o here in
    (
      ls,
      rw (here, lt→ltb i (length locals) (omega arith)) done,
      one-Filled (λ j. operand_value s (j + 1)) i n locals ls (omega arith)
          (subst (λ v. Filled (λ j. operand_value s (j + 1)) (i + 1) n (set locals i v) ls) value
            filled),
    )

pub load_locals_lem :
    (n i start : ℕ) (locals : List (Option ℤ)) (s : Machine)
    → i + n ≤ length locals
    → ((a : ℕ) → start + 2 * i ≤ a → a < start + 2 * (i + n) → (b : ℕ) × (byte_at s a ≡ some b))
    → (ls : List (Option ℤ)) × (load_locals n i (start + 2 * i) locals s
        ≡ ok (start + 2 * (i + n), ls) s)
      × Filled (λ j. word_at s (start + 2 * j)) i n locals ls
unfolding load_locals
load_locals_lem zero i start locals s h bytes =
    let e : start + 2 * i ≡ start + 2 * (i + 0) = omega arith in
    (locals, ap (λ a. ok (a, locals) s) e, nothing-Filled (λ j. word_at s (start + 2 * j)) i locals)
load_locals_lem (suc n) i start locals s h bytes =
    let addr = start + 2 * i in
    let (b, first) = bytes addr (omega arith) (omega arith) in
    let (c, second) = bytes (addr + 1) (omega arith) (omega arith) in
    let v = make_s16 (b % 256) (c % 256) in
    let next = set locals i (some v) in
    let same = length-set locals i (some v) in
    let step : addr + 2 ≡ start + 2 * (i + 1) = omega arith in
    let end : i + 1 + n ≡ i + suc n = omega arith in
    let (ls, done, filled) =
      load_locals_lem n (i + 1) start next s (omega (arith, same))
        (λ a p q. bytes a (omega arith) (omega arith)) in
    let value : some v ≡ word_at s addr = word_at_lem s addr b c first second in
    (
      ls,
      rw (read_s16_lem s addr first second, lt→ltb i (length locals) (omega arith), step)
          (done ∙ ap (λ k. ok (start + 2 * k, ls) s) end),
      one-Filled (λ j. word_at s (start + 2 * j)) i n locals ls (omega arith)
          (subst (λ v. Filled (λ j. word_at s (start + 2 * j)) (i + 1) n (set locals i v) ls) value
            filled),
    )
