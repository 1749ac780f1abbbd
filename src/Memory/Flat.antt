-- ===== src/Memory/Flat.antt =====
-- Game memory as one array: `byte_at s a` is the byte at `a`, whether it lies in the dynamic part or
-- in the story file.
use zmachine.Base.{
  ℕ, ◌+◌, ◌%◌, ◌<◌, ◌≤◌, ◌≡◌, Option, none, some, List, arith, ltb, ◌==◌, if◌then◌else◌, get_elem?,
}
use zmachine.Machine.{Machine}
use zmachine.Effects.{ok, stopped, undefined, valid}
use zmachine.Memory.{get_dynamic, read_memory, set_memory, read_byte, read_u16}
use zmachine.Memory.{make_u16, read_byte_pc}
use zmachine.Base.Int.{ℤ, pos}
use zmachine.Memory.Chunks.{
  put_dynamic-some, put_dynamic-none, put_dynamic-keeps, get_dynamic-put_dynamic,
}

abbrev pub byte_at : Machine → ℕ → Option ℕ
byte_at s a =
    if ltb a s.end_of_dynamic then get_dynamic s.dynamic_chunks a else get_elem? s.memory a

abbrev pub with_chunks : Machine → List (List ℕ) → Machine
with_chunks s chunks = record s { dynamic_chunks = chunks }

-- The chunks hold the dynamic part and nothing else.
pub record IsMapped (s : Machine) : Type 0 where
  pub mapped : (a : ℕ) → a < s.end_of_dynamic → (b : ℕ) × (get_dynamic s.dynamic_chunks a ≡ some b)
  pub tight : (a : ℕ) → s.end_of_dynamic ≤ a → get_dynamic s.dynamic_chunks a ≡ none

pub read_memory_lem :
    (s : Machine) (a : ℕ) {b : ℕ} → byte_at s a ≡ some b → read_memory a s ≡ ok b s
unfolding read_memory
read_memory_lem s a h = ground arith

-- Reading never changes the state: it gives the byte, or stops where there is none.
pub read_memory-byte_at : (s : Machine) (a : ℕ) → read_memory a s ≡ valid (byte_at s a) s
unfolding read_memory
read_memory-byte_at s a = ground arith

pub read_byte_lem :
    (s : Machine) (a : ℕ) {b : ℕ} → byte_at s a ≡ some b → read_byte a s ≡ ok (b % 256) s
unfolding read_byte
read_byte_lem s a h = rw (read_memory_lem s a h)

pub read_u16_lem :
    (s : Machine) (a : ℕ) {b c : ℕ}
    → byte_at s a ≡ some b
    → byte_at s (a + 1) ≡ some c
    → read_u16 a s ≡ ok (make_u16 (b % 256) (c % 256)) s
unfolding read_u16
read_u16_lem s a h k = rw (read_byte_lem s a h, read_byte_lem s (a + 1) k)

module _ (s : Machine) (m : IsMapped s) (a v : ℕ) where
  -- With the dynamic memory mapped to its chunks and an address below its end: `SetMemory`
  -- succeeds, that byte is the value cut to eight bits, every other byte of the game's memory is
  -- as before, and the memory stays mapped.
  pub set_memory_lem :
      a < s.end_of_dynamic
      → (chunks : List (List ℕ)) × (set_memory a v s ≡ ok tt (with_chunks s chunks))
        × ((j : ℕ)
            → byte_at (with_chunks s chunks) j ≡ (if a == j then some (v % 256) else byte_at s j))
        × IsMapped (with_chunks s chunks)
  unfolding set_memory
  set_memory_lem h =
      let (b, here) = m.mapped a h in
      let (chunks, put) = put_dynamic-some s.dynamic_chunks a (v % 256) here in
      (
        chunks,
        rw (put, set_memory),
        (λ j. ground (arith, get_dynamic-put_dynamic s.dynamic_chunks chunks a (v % 256) j put)),
        record {
          mapped = λ j k.
              let (_, there) = m.mapped j k in
              put_dynamic-keeps s.dynamic_chunks chunks a (v % 256) j put there;
          tight = λ j k. ground (
            arith,
            m.tight j k,
            get_dynamic-put_dynamic s.dynamic_chunks chunks a (v % 256) j put,
          );
        },
      )

  -- Above it `SetMemory` runs outside the chunks.
  pub set_memory_outside : s.end_of_dynamic ≤ a → set_memory a v s ≡ stopped undefined s
  unfolding set_memory
  set_memory_outside h =
      rw (put_dynamic-none s.dynamic_chunks a (v % 256) (m.tight a h), set_memory)

abbrev pub with_pc : Machine → ℤ → Machine
with_pc s pc = record s { pc = pc }

-- The byte at the PC, which moves on.
pub read_byte_pc_lem :
    (s : Machine) (a : ℕ) {b : ℕ}
    → s.pc ≡ pos a
    → byte_at s a ≡ some b
    → read_byte_pc s ≡ ok (b % 256) (with_pc s (pos (a + 1)))
unfolding read_byte_pc
read_byte_pc_lem s a e h = ground (arith, read_byte_lem s a h)
