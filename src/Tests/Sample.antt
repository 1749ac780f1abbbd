-- ===== src/Tests/Sample.antt =====
-- A small story of version 3 in which `zmachine.Tests` runs the interpreter: 64 bytes of dynamic
-- memory, a routine with two locals at 64, a branch at 80, and one frame on the call stack.
use zmachine.Base.{
  ℕ, zero, suc, ◌/◌, ◌%◌, ◌≤◌, ◌≡◌, refl, ap, ◌∙◌, ◌⊎◌, arith, false, none, some, List, [], ◌∷◌,
  ◌++◌, length, replicate, get_elem?, get_elem?-some, ℕ-cases, inl, inr,
}
use zmachine.Base.Int.{ℤ, pos}
use zmachine.Stack.{Stack}
use zmachine.Stack.Refine.{IsValid}
use zmachine.Machine.{Machine, CallStack, Instruction, Operand, SaveStream, src_immediate, form_var}
use zmachine.Memory.{get_dynamic}
use zmachine.Memory.Flat.{IsMapped}

abbrev pub numbers : Stack ℤ
numbers = record { base = replicate 4 (pos 0); depth = 4; current = 1 }

pub numbers-IsValid : IsValid numbers
numbers-IsValid = omega arith

abbrev pub main_frame : CallStack
main_frame = record {
  return_addr = pos 0;
  return_store = pos 0;
  set_arguments = 0;
  num_locals = 2;
  locals = replicate 15 (some (pos 0));
  depth = 0;
}

abbrev pub frames : Stack CallStack
frames = record { base = replicate 3 main_frame; depth = 3; current = 1 }

pub frames-IsValid : IsValid frames
frames-IsValid = omega arith

abbrev pub stream : SaveStream
stream = record {
  buffer = replicate 1024 0;
  ptr = 0;
  limit = 1024;
  position = 0;
  file = some [];
  chunk_size_idx = 0;
  chunk_size = replicate 16 0;
  chunk_stack_idx = 0;
  chunk_stack = replicate 8 0;
}

abbrev immediate : ℕ → Operand
immediate n = record { value = pos n; src = src_immediate }

-- `call 32 9 -> 16`
abbrev call_instruction : Instruction
call_instruction = record {
  op = 0;
  form = form_var;
  store = pos 16;
  num_ops = 2;
  branch = record { offset = pos 0; negate = false };
  operands = immediate 32 ∷ immediate 9 ∷ replicate 6 (immediate 0);
}

-- The routine's header at 64: two locals, 5 and 6. At 80 a branch on true by -2, at 82 one by 7.
abbrev pub story : List ℕ
story =
    replicate 64 0 ++ (2 ∷ 0 ∷ 5 ∷ 0 ∷ 6 ∷ replicate 11 0) ++ (0xBF ∷ 0xFE ∷ 0xC7 ∷ replicate 45 0)

abbrev pub machine : Machine
machine = record {
  ins = call_instruction;
  pc = pos 80;
  global_variables = 16;
  abbrev_table = 0;
  object_table = 0;
  dictionary_table = 0;
  end_of_dynamic = 64;
  version = 3;
  packed_multiplier = 2;
  memory = story;
  number_stack = numbers;
  call_stack = frames;
  save_stream = stream;
  mem_stream_ptr = 0;
  output_stream = false;
  input = [];
  dynamic_chunks = replicate 64 0 ∷ replicate 63 [];
  alphabet_lookup = [];
  cur_window = 0;
  cursor_x = pos 0 ∷ pos 0 ∷ pos 0 ∷ [];
  cursor_y = pos 0 ∷ pos 0 ∷ pos 0 ∷ [];
  window_start = pos 0 ∷ pos 0 ∷ pos 0 ∷ [];
  console = record { calls = []; cursors = []; lines = []; randoms = []; opened = [] };
}

get_elem?-none {ℓ} : {A : Type ℓ} (xs : List A) (i : ℕ) → length xs ≤ i → get_elem? xs i ≡ none
get_elem?-none [] i h = refl
get_elem?-none (x ∷ xs) zero h = absurd (omega arith)
get_elem?-none (x ∷ xs) (suc i) h = get_elem?-none xs i (omega arith)

get_elem?-nils :
    (n i : ℕ)
    → (get_elem? (replicate {A = List ℕ} n []) i ≡ none)
      ⊎ (get_elem? (replicate {A = List ℕ} n []) i ≡ some [])
get_elem?-nils zero i = inl refl
get_elem?-nils (suc n) zero = inr refl
get_elem?-nils (suc n) (suc i) = get_elem?-nils n i

-- With one chunk in use, the others are empty.
get_dynamic-first :
    (chunk : List ℕ) (n a : ℕ)
    → length chunk ≤ 1024
    → get_dynamic (chunk ∷ replicate n []) a ≡ get_elem? chunk a
unfolding get_dynamic
get_dynamic-first chunk n a size = elim (ℕ-cases (a / 1024)) [
  | inl q ↦ let r : a % 1024 ≡ a = omega arith in rw (q, r, get_dynamic)
  | inr (k, q) ↦
      let past = get_elem?-none chunk a (omega arith) in
      elim (get_elem?-nils n k) [
        | inl e ↦ rw (q, e, past, get_dynamic)
        | inr e ↦ rw (q, e, past, get_dynamic)
      ]
]

-- A machine whose dynamic memory is one chunk.
pub one_chunk-IsMapped :
    (s : Machine) (chunk : List ℕ) (n : ℕ)
    → s.dynamic_chunks ≡ chunk ∷ replicate n []
    → length chunk ≡ s.end_of_dynamic
    → length chunk ≤ 1024
    → IsMapped s
one_chunk-IsMapped s chunk n e size small =
    let flat = λ (a : ℕ). ap (λ c. get_dynamic c a) e ∙ get_dynamic-first chunk n a small in
    record {
      mapped =
          λ a h. let (b, here) = get_elem?-some chunk a (omega (arith, size)) in (b, flat a ∙ here);
      tight = λ a h. flat a ∙ get_elem?-none chunk a (omega (arith, size));
    }

pub machine-IsMapped : IsMapped machine
machine-IsMapped = one_chunk-IsMapped machine (replicate 64 0) 63 refl refl (omega arith)
