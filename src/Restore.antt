-- ===== src/Restore.antt =====
-- `restoreState` of zops.c: reading the chunks of a saved game back.
pub mod Expand
pub mod RoundTrip
use zmachine.Base.{
  ℕ, zero, suc, ◌+◌, ◌-◌, ◌*◌, ◌/◌, ◌%◌, ◌^◌, Bool, true, false, ◌&&◌, Option, none, some, List, [],
  ◌∷◌, ltb, ◌==◌, if◌then◌else◌, bit_xor, get_elem?, set, length,
}
use zmachine.Base.Int.{ℤ, pos, negsuc, neg, signed, ◌+ℤ◌}
use zmachine.Stack.{stack_depth, stack_push}
use zmachine.Effects.{
  M, Done, undefined, out_of_fuel, stopped, ok, pure, valid, stop, skip, get, modify, for_range,
  ◌>>=◌, ◌>>◌,
}
use zmachine.Memory.{get_dynamic, put_dynamic, make_s16}
use zmachine.Variables.{push_number}
use zmachine.SaveStream.{take_byte, read_from_disk, read_has_data}
use zmachine.Save.{form_name, ifzs_name, ifhd_name, cmem_name, umem_name, stks_name}

abbrev pub same_bytes : List ℕ → List ℕ → Bool
same_bytes [] [] = true
same_bytes [] (y ∷ ys) = false
same_bytes (x ∷ xs) [] = false
same_bytes (x ∷ xs) (y ∷ ys) = (x == y) && same_bytes xs ys

-- Whether `stream->pos` is below a limit, which may be negative in a damaged file.
unfoldable pub before : ℤ → M Bool
before (pos end) = get (λ s. ltb s.save_stream.position end)
before (negsuc n) = pure false

-- How many bytes lie before the limit: fuel for a loop that reads one at least in each round.
unfoldable pub bytes_before : ℤ → M ℕ
bytes_before (pos end) = get (λ s. end - s.save_stream.position)
bytes_before (negsuc n) = pure 0

-- `DYNAMIC(i) = v` with no check
unfoldable pub write_dynamic : ℕ → ℕ → Done
write_dynamic i v s = elim (put_dynamic s.dynamic_chunks i v) [
  | none ↦ stopped undefined s
  | some chunks ↦ ok tt (record s { dynamic_chunks = chunks })
]

unfoldable pub copy_story : Done
copy_story = do
  n ← get (λ s. s.end_of_dynamic)
  for_range n 0
      (λ i. do story ← get (λ s. s.memory); b ← valid (get_elem? story i); write_dynamic i b)

unfoldable pub read_diffs : ℕ → ℤ → ℕ → Done
read_diffs zero end i = do more ← before end; if more then stop out_of_fuel else skip
read_diffs (suc fuel) end i = do
  more ← before end
  if more
      then (do
        value ← take_byte
        if value == 0 then (do len ← take_byte; read_diffs fuel end (i + (len + 1))) else (do
          chunks ← get (λ s. s.dynamic_chunks)
          old ← valid (get_dynamic chunks i)
          write_dynamic i (bit_xor old value)
          read_diffs fuel end (i + 1)))
      else skip

unfoldable pub read_plain : ℕ → ℤ → ℕ → Done
read_plain zero end i = do more ← before end; if more then stop out_of_fuel else skip
read_plain (suc fuel) end i = do
  more ← before end
  if more then (do v ← take_byte; write_dynamic i v; read_plain fuel end (i + 1)) else skip

unfoldable pub read_compressed_memory : ℤ → Done
read_compressed_memory end = do copy_story; fuel ← bytes_before end; read_diffs fuel end 0

unfoldable pub read_plain_memory : ℤ → Done
read_plain_memory end = do copy_story; fuel ← bytes_before end; read_plain fuel end 0

unfoldable pub read_word : M ℕ
read_word = do msb ← take_byte; lsb ← take_byte; pure (msb * 256 + lsb)

unfoldable pub read_three : M ℕ
read_three = do a ← take_byte; b ← take_byte; c ← take_byte; pure (a * 2 ^ 16 + b * 2 ^ 8 + c)

unfoldable pub read_signed : M ℤ
read_signed = do msb ← take_byte; lsb ← take_byte; pure (make_s16 msb lsb)

unfoldable pub read_locals : ℕ → ℕ → List (Option ℤ) → M (List (Option ℤ))
read_locals zero i locals = pure locals
read_locals (suc n) i locals = do
  v ← read_signed
  _ ← valid (get_elem? locals i)
  read_locals n (i + 1) (set locals i (some v))

unfoldable pub read_numbers : ℕ → Done
read_numbers zero = skip
read_numbers (suc n) = do v ← read_signed; push_number v; read_numbers n

-- The frame is filled in its slot of the array, whose other locals stay as they were.
unfoldable pub read_frame : Done
read_frame = do
  calls ← get (λ s. s.call_stack)
  (slot, calls') ← valid (stack_push calls)
  old ← valid (get_elem? calls.base slot)
  return_addr ← read_three
  locals_byte ← take_byte
  return_store ← take_byte
  set_arguments ← take_byte
  depth ← get (λ s. stack_depth s.number_stack)
  count ← read_word
  locals ← read_locals (locals_byte % 16) 0 old.locals
  modify (λ s. record s {
    call_stack = record calls' {
      base = set calls'.base slot (record {
        return_addr = pos return_addr;
        return_store = pos return_store;
        set_arguments = set_arguments;
        num_locals = locals_byte % 16;
        locals = locals;
        depth = depth;
      });
    };
  })
  read_numbers count

unfoldable pub read_frames : ℕ → ℤ → Done
read_frames zero end = do more ← before end; if more then stop out_of_fuel else skip
read_frames (suc fuel) end = do
  more ← before end
  if more then (do read_frame; read_frames fuel end) else skip

-- Popping until both stacks are empty.
unfoldable pub read_stacks : ℤ → Done
read_stacks end = do
  modify (λ s. record s {
    number_stack = record s.number_stack { current = 0 };
    call_stack = record s.call_stack { current = 0 };
  })
  fuel ← bytes_before end
  read_frames fuel end

-- The release, serial number and checksum of the story are compared byte by byte; the answer is
-- whether all agreed.
unfoldable pub check_story : List ℕ → M Bool
check_story [] = pure true
check_story (a ∷ rest) = do
  story ← get (λ s. s.memory)
  expected ← valid (get_elem? story a)
  b ← take_byte
  if expected == b then check_story rest else pure false

abbrev pub story_locations : List ℕ
story_locations = 0x02 ∷ 0x03 ∷ 0x12 ∷ 0x13 ∷ 0x14 ∷ 0x15 ∷ 0x16 ∷ 0x17 ∷ 0x1C ∷ 0x1D ∷ []

unfoldable pub read_header : M Bool
read_header = do
  same ← check_story story_locations
  if same
      then (do pc ← read_three; modify (λ s. record s { pc = pos pc }); pure true)
      else pure false

unfoldable pub read_name : M (List ℕ)
read_name = do a ← take_byte; b ← take_byte; c ← take_byte; d ← take_byte; pure (a ∷ b ∷ c ∷ d ∷ [])

-- `(ChunkSize+1)&~1`
abbrev pub round_up : ℤ → ℤ
round_up (pos n) = pos ((n + 1) / 2 * 2)
round_up (negsuc n) = neg ((n + 1) / 2 * 2)

-- What the file has shown so far.
pub record Found : Type 0 where
  pub header : Bool
  pub mem : Bool
  pub stacks : Bool

pub data Chunk : Type 0 where
  -- go on behind the chunk, go on inside it, give up
  skip_rest : Found → Chunk
  enter : Chunk
  reject : Chunk

unfoldable pub read_chunk : List ℕ → ℤ → Found → M Chunk
read_chunk name end found =
    if same_bytes name form_name
    then (do kind ← read_name; pure (if same_bytes kind ifzs_name then enter else skip_rest found))
    else if same_bytes name ifhd_name
    then (do
      same ← read_header
      pure (if same then skip_rest (record found { header = true }) else reject))
    else if same_bytes name cmem_name
    then (do read_compressed_memory end; pure (skip_rest (record found { mem = true })))
    else if same_bytes name umem_name
    then (do read_plain_memory end; pure (skip_rest (record found { mem = true })))
    else if same_bytes name stks_name
    then (do read_stacks end; pure (skip_rest (record found { stacks = true })))
    else pure (skip_rest found)

unfoldable pub skip_to : ℕ → ℤ → Done
skip_to zero end = do more ← before end; if more then stop out_of_fuel else skip
skip_to (suc fuel) end = do
  more ← before end
  if more then (do _ ← take_byte; skip_to fuel end) else skip

-- The name and the size; where the chunk ends, and where the next one starts.
unfoldable pub read_chunk_head : M (List ℕ × ℤ × ℤ)
read_chunk_head = do
  name ← read_name
  high ← read_word
  low ← read_word
  let size = signed (2 ^ 31) (2 ^ 32) (high * 2 ^ 16 + low)
  position ← get (λ s. s.save_stream.position)
  pure (name, pos position +ℤ size, pos position +ℤ round_up size)

unfoldable pub read_chunks : ℕ → Found → M Bool
read_chunks zero found = stop out_of_fuel
read_chunks (suc fuel) found = do
  more ← get (λ s. read_has_data s.save_stream)
  if more
      then (do
        (name, end, next) ← read_chunk_head
        chunk ← read_chunk name end found
        elim chunk [
          | enter ↦ read_chunks fuel found
          | reject ↦ pure false
          | skip_rest found' ↦ do
            rest ← bytes_before next
            skip_to rest next
            read_chunks fuel found'
        ])
      else pure (found.header && (found.mem && found.stacks))

-- Every chunk takes a byte of the file at least.
unfoldable pub restore_state : M Bool
restore_state = do
  modify (λ s. record s { save_stream = read_from_disk s.save_stream })
  fuel ← get (λ s. elim s.save_stream.file [ none ↦ 0 | some rest ↦ length rest ])
  got ← get (λ s. s.save_stream.limit)
  read_chunks (fuel + got + 1) (record { header = false; mem = false; stacks = false })
