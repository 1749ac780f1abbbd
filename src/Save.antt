-- ===== src/Save.antt =====
-- `saveState` of zops.c: the Quetzal chunks of a saved game.
pub mod Compress
use zmachine.Base.{
  ℕ, zero, suc, ◌+◌, ◌-◌, ◌/◌, ◌%◌, ◌^◌, ◌||◌, List, [], ◌∷◌, ltb, ◌==◌, if◌then◌else◌, bit_xor,
  get_elem?, set, min,
}
use zmachine.Base.Int.{ℤ, pos, negsuc, low_bits, shr_ℤ, ltb_ℤ, ◌+ℤ◌, sub_ℕ}
use zmachine.Stack.{stack_depth}
use zmachine.Machine.{CallStack}
use zmachine.Effects.{
  Done, undefined, pure, valid, stop, skip, get, modify, when, for_each, ◌>>=◌, ◌>>◌,
}
use zmachine.Memory.{read_memory, get_dynamic}
use zmachine.SaveStream.{emit, save_flush}

-- saveByte(stream, v >> shift), a conversion to uint8_t, for m = 2 ^ shift
abbrev pub emit_int : ℤ → ℕ → Done
emit_int v m = emit (low_bits (shr_ℤ v m) 256)

-- while (ZeroRun > 0); every round takes 1 at least
unfoldable pub save_zero_run : ℕ → ℕ → Done
save_zero_run zero run = skip
save_zero_run (suc fuel) run =
    if ltb 0 run
    then (do let step = min run 256; emit 0; emit (step - 1); save_zero_run fuel (run - step))
    else skip

-- The bytes from `i` on, `n` of them, after a run of `zero_run` equal ones. The run is not written
-- when the memory ends in it.
unfoldable pub save_diffs : ℕ → ℕ → ℕ → Done
save_diffs zero i zero_run = skip
save_diffs (suc n) i zero_run = do
  story ← get (λ s. s.memory)
  chunks ← get (λ s. s.dynamic_chunks)
  old ← valid (get_elem? story i)
  new ← valid (get_dynamic chunks i)
  let diff = bit_xor old new
  if diff == 0
      then save_diffs n (i + 1) (zero_run + 1)
      else (do save_zero_run zero_run zero_run; emit diff; save_diffs n (i + 1) 0)

unfoldable pub save_dynamic_memory : Done
save_dynamic_memory = do n ← get (λ s. s.end_of_dynamic); save_diffs n 0 0

-- Two bytes of each of the first `n` locals.
unfoldable pub save_locals : ℕ → ℕ → CallStack → Done
save_locals zero i frame = skip
save_locals (suc n) i frame = do
  slot ← valid (get_elem? frame.locals i)
  v ← valid slot
  emit_int v 256
  emit_int v 1
  save_locals n (i + 1) frame

unfoldable pub save_numbers : ℕ → ℕ → Done
save_numbers zero i = skip
save_numbers (suc n) i = do
  stack ← get (λ s. s.number_stack)
  v ← valid (get_elem? stack.base i)
  emit_int v 256
  emit_int v 1
  save_numbers n (i + 1)

-- One frame, whose part of the number stack ends at `next_depth`.
unfoldable pub save_frame : CallStack → ℕ → Done
save_frame frame next_depth = do
  emit_int frame.return_addr (2 ^ 16)
  emit_int frame.return_addr (2 ^ 8)
  emit_int frame.return_addr 1
  emit (frame.num_locals % 16)
  emit_int frame.return_store 1
  emit frame.set_arguments
  emit_int (sub_ℕ next_depth frame.depth) (2 ^ 8)
  emit_int (sub_ℕ next_depth frame.depth) 1
  save_locals frame.num_locals 0 frame
  save_numbers (next_depth - frame.depth) frame.depth

unfoldable pub save_frames : ℕ → ℕ → Done
save_frames zero i = skip
save_frames (suc n) i = do
  calls ← get (λ s. s.call_stack)
  size ← get (λ s. stack_depth s.number_stack)
  frame ← valid (get_elem? calls.base i)
  next_depth ←
      if ltb (i + 1) calls.current
      then (do next ← valid (get_elem? calls.base (i + 1)); pure next.depth)
      else pure size
  save_frame frame next_depth
  save_frames n (i + 1)

unfoldable pub save_stacks : Done
save_stacks = do n ← get (λ s. stack_depth s.call_stack); save_frames n 0

-- The stored PC points at the branch or store byte of the instruction.
unfoldable pub save_header : Done
save_header = do
  pc ← get (λ s. s.pc)
  branch ← get (λ s. s.ins.branch)
  let long = ltb_ℤ branch.offset (pos 0) || ltb_ℤ (pos 63) branch.offset
  let store_pc = pc +ℤ (if long then negsuc 1 else negsuc 0)
  for_each (0x02 ∷ 0x03 ∷ 0x12 ∷ 0x13 ∷ 0x14 ∷ 0x15 ∷ 0x16 ∷ 0x17 ∷ 0x1C ∷ 0x1D ∷ [])
      (λ a. do b ← read_memory a; emit b)
  emit_int store_pc (2 ^ 16)
  emit_int store_pc (2 ^ 8)
  emit_int store_pc 1

-- A chunk starts with its name and the size that an earlier pass has measured.
unfoldable pub save_chunk_push : List ℕ → Done
save_chunk_push name = do
  stream ← get (λ s. s.save_stream)
  chunk_size ← valid (get_elem? stream.chunk_size stream.chunk_size_idx)
  for_each name emit
  emit (chunk_size / 2 ^ 24)
  emit (chunk_size / 2 ^ 16)
  emit (chunk_size / 2 ^ 8)
  emit chunk_size
  stream' ← get (λ s. s.save_stream)
  _ ← valid (get_elem? stream'.chunk_stack stream'.chunk_stack_idx)
  modify (λ s. record s {
    save_stream = record stream' {
      chunk_stack = set stream'.chunk_stack stream'.chunk_stack_idx stream'.chunk_size_idx;
      chunk_stack_idx = stream'.chunk_stack_idx + 1;
      chunk_size = set stream'.chunk_size stream'.chunk_size_idx stream'.position;
      chunk_size_idx = stream'.chunk_size_idx + 1;
    };
  })

-- Its size is measured, and an odd one is followed by a zero.
unfoldable pub save_chunk_pop : Done
save_chunk_pop = do
  stream ← get (λ s. s.save_stream)
  (if stream.chunk_stack_idx == 0 then stop undefined else skip)
  size_index ← valid (get_elem? stream.chunk_stack (stream.chunk_stack_idx - 1))
  start ← valid (get_elem? stream.chunk_size size_index)
  let chunk_size = stream.position - start
  modify (λ s. record s {
    save_stream = record s.save_stream {
      chunk_stack_idx = stream.chunk_stack_idx - 1;
      chunk_size = set stream.chunk_size size_index chunk_size;
    };
  })
  when (chunk_size % 2 == 1) (emit 0)

abbrev pub form_name : List ℕ
form_name = b'F' ∷ b'O' ∷ b'R' ∷ b'M' ∷ []

abbrev pub ifzs_name : List ℕ
ifzs_name = b'I' ∷ b'F' ∷ b'Z' ∷ b'S' ∷ []

abbrev pub ifhd_name : List ℕ
ifhd_name = b'I' ∷ b'F' ∷ b'h' ∷ b'd' ∷ []

abbrev pub cmem_name : List ℕ
cmem_name = b'C' ∷ b'M' ∷ b'e' ∷ b'm' ∷ []

abbrev pub umem_name : List ℕ
umem_name = b'U' ∷ b'M' ∷ b'e' ∷ b'm' ∷ []

abbrev pub stks_name : List ℕ
stks_name = b'S' ∷ b't' ∷ b'k' ∷ b's' ∷ []

unfoldable pub save_state : Done
save_state = do
  save_chunk_push form_name
  for_each ifzs_name emit
  save_chunk_push ifhd_name
  save_header
  save_chunk_pop
  save_chunk_push cmem_name
  save_dynamic_memory
  save_chunk_pop
  save_chunk_push stks_name
  save_stacks
  save_chunk_pop
  save_chunk_pop
  modify (λ s. record s { save_stream = save_flush s.save_stream })
