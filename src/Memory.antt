-- ===== src/Memory.antt =====
-- Game memory of zops.c: the story file `memory`, the copy of its dynamic part in chunks of
-- DYNAMIC_CHUNK bytes, and words of two bytes. A null chunk is an empty list.
pub mod Chunks
pub mod Flat
pub mod Words
use zmachine.Base.{
  ℕ, zero, suc, ◌+◌, ◌-◌, ◌*◌, ◌/◌, ◌%◌, Bool, Option, none, some, List, [], ltb, if◌then◌else◌,
  get_elem?, set, replicate,
}
use zmachine.Base.Int.{ℤ, pos, sub_ℕ}
use zmachine.Base.Bits.{test_bit}
use zmachine.Machine.{Machine}
use zmachine.Effects.{
  M, Done, Stop, undefined, stopped, ok, pure, valid, index, get, modify, ◌>>=◌, ◌>>◌, for_range,
}

abbrev pub dynamic_chunk : ℕ
dynamic_chunk = 1024

-- `DYNAMIC(x)` as a value, and as the target of an assignment
unfoldable pub get_dynamic : List (List ℕ) → ℕ → Option ℕ
get_dynamic chunks a = elim (get_elem? chunks (a / dynamic_chunk)) [
  | none ↦ none
  | some chunk ↦ get_elem? chunk (a % dynamic_chunk)
]

unfoldable pub put_dynamic : List (List ℕ) → ℕ → ℕ → Option (List (List ℕ))
put_dynamic chunks a v = elim (get_elem? chunks (a / dynamic_chunk)) [
  | none ↦ none
  | some chunk ↦ elim (get_elem? chunk (a % dynamic_chunk)) [
    | none ↦ none
    | some _ ↦ some (set chunks (a / dynamic_chunk) (set chunk (a % dynamic_chunk) v))
  ]
]

unfoldable pub read_memory : ℕ → M ℕ
read_memory a s =
    if ltb a s.end_of_dynamic
    then valid (get_dynamic s.dynamic_chunks a) s
    else valid (get_elem? s.memory a) s

-- The ASSERT only prints. An address above the dynamic part lies in no chunk.
unfoldable pub set_memory : ℕ → ℕ → Done
set_memory a v s = elim (put_dynamic s.dynamic_chunks a (v % 256)) [
  | none ↦ stopped undefined s
  | some chunks ↦ ok tt (record s { dynamic_chunks = chunks })
]

-- `ReadMemory(a)&0xFF`
unfoldable pub read_byte : ℕ → M ℕ
read_byte a = do b ← read_memory a; pure (b % 256)

unfoldable pub make_s16 : ℕ → ℕ → ℤ
make_s16 msb lsb =
    let ret = msb * 256 + lsb in if test_bit ret 15 then sub_ℕ ret 0x10000 else pos ret

unfoldable pub make_u16 : ℕ → ℕ → ℕ
make_u16 msb lsb = msb * 256 + lsb

-- `makeU16(ReadMemory(a)&0xFF, ReadMemory(a+1)&0xFF)`, and the same with `makeS16`
unfoldable pub read_u16 : ℕ → M ℕ
read_u16 a = do msb ← read_byte a; lsb ← read_byte (a + 1); pure (make_u16 msb lsb)

unfoldable pub read_s16 : ℕ → M ℤ
read_s16 a = do msb ← read_byte a; lsb ← read_byte (a + 1); pure (make_s16 msb lsb)

unfoldable pub read_byte_pc : M ℕ
read_byte_pc = do
  pc ← get (λ s. s.pc)
  a ← index pc
  b ← read_byte a
  modify (λ s. record s { pc = pos (a + 1) })
  pure b

unfoldable pub read_s16_pc : M ℤ
read_s16_pc = do msb ← read_byte_pc; lsb ← read_byte_pc; pure (make_s16 msb lsb)

-- `allocateDynamic`; `malloc n` is the new block's contents, empty when there is no memory.
-- Every round of the first loop takes at least one byte off `dynamicLeft`, its fuel.
module _ (malloc : ℕ → List ℕ) where
  unfoldable pub allocate_chunks : ℕ → ℕ → ℕ → List (List ℕ) → Option (List (List ℕ))
  allocate_chunks zero left num_chunks chunks = some chunks
  allocate_chunks (suc fuel) zero num_chunks chunks = some chunks
  allocate_chunks (suc fuel) (suc left) num_chunks chunks =
      let chunk_size = if ltb dynamic_chunk (suc left) then dynamic_chunk else suc left in
      let rest =
        allocate_chunks fuel (suc left - chunk_size) (num_chunks + 1)
          (set chunks num_chunks (malloc chunk_size)) in
      elim (get_elem? chunks num_chunks) [ none ↦ none | some _ ↦ rest ]

  unfoldable pub allocate_dynamic : Done
  allocate_dynamic = do
    left ← get (λ s. s.end_of_dynamic)
    chunks ← valid (allocate_chunks left left 0 (replicate 64 []))
    modify (λ s. record s { dynamic_chunks = chunks })
    for_range left 0
        (λ i. do story ← get (λ s. s.memory); b ← valid (get_elem? story i); set_memory i b)
