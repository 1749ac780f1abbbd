-- ===== src/Boot.antt =====
-- `zopsMain` of zops.c up to its loop: the header of the story file is read and edited, and the
-- stacks and windows are set up.
use zmachine.Base.{
  ℕ, ◌+◌, ◌%◌, true, some, List, [], leb, ◌==◌, if◌then◌else◌, bit_and, bit_or, get_elem?, get_or,
  set, replicate,
}
use zmachine.Base.Int.{pos}
use zmachine.Stack.{stack_init}
use zmachine.Machine.{CallStack}
use zmachine.Effects.{Done, valid, skip, get, modify, when, for_range, ◌>>=◌, ◌>>◌}
use zmachine.Memory.{read_memory, read_u16, set_memory, make_u16, allocate_dynamic}
use zmachine.Routine.{push_call}
use zmachine.Windows.{io_reset}

abbrev pub zero_frame : CallStack
zero_frame = record {
  return_addr = pos 0;
  return_store = pos 0;
  set_arguments = 0;
  num_locals = 0;
  locals = replicate 15 (some (pos 0));
  depth = 0;
}

abbrev pub packed_multiplier_of : ℕ → ℕ
packed_multiplier_of version = if version == 8 then 8 else if leb 4 version then 4 else 2

-- The flags of bytes 1 and 0x11; `Flags` is a `byte`, so of the word at 0x10 the low byte stays.
abbrev pub flags1 : ℕ → ℕ → ℕ
flags1 version flags = if version == 3 then bit_and (bit_or flags 32) 0xBF else 12

abbrev pub flags2 : ℕ → ℕ → ℕ
flags2 version word =
    let fixed = bit_or (bit_and (word % 256) 0xFE) 2 in
    if leb 5 version then bit_and fixed 3 else fixed

unfoldable pub read_tables : Done
read_tables = do
  version ← read_memory 0
  globals ← read_u16 0x0C
  abbrevs ← read_u16 0x18
  objects ← read_u16 0x0A
  dictionary ← read_u16 0x08
  pc ← read_u16 0x06
  modify (λ s. record s {
    version = version;
    mem_stream_ptr = 0;
    output_stream = true;
    packed_multiplier = packed_multiplier_of version;
    global_variables = globals;
    abbrev_table = abbrevs;
    object_table = objects;
    dictionary_table = dictionary;
    pc = pos pc;
  })

unfoldable pub write_flags : Done
write_flags = do
  version ← get (λ s. s.version)
  old1 ← read_memory 1
  set_memory 1 (flags1 version old1)
  old2 ← read_u16 0x10
  set_memory 0x10 0
  set_memory 0x11 (flags2 version old2)

-- The third row of the alphabet is replaced if the story has its own.
unfoldable pub custom_alphabet : Done
custom_alphabet = do
  table ← read_u16 0x34
  if table == 0
      then skip
      else for_range 27 0 (λ i. do
        b ← read_memory (table + i)
        modify (λ s. record s {
          alphabet_lookup = set s.alphabet_lookup 2 (set (get_or s.alphabet_lookup 2 []) i b);
        }))

unfoldable pub write_screen_size : Done
write_screen_size = do
  version ← get (λ s. s.version)
  when (leb 4 version) (do set_memory 0x20 23; set_memory 0x21 80)
  when (leb 5 version) (do
    custom_alphabet
    set_memory 0x22 0
    set_memory 0x23 80
    set_memory 0x24 0
    set_memory 0x25 23
    set_memory 0x26 1
    set_memory 0x27 1
    set_memory 0x2C 2
    set_memory 0x2D 4)

unfoldable pub init_stacks : Done
init_stacks = do
  modify (λ s. record s {
    number_stack = stack_init s.number_stack.base 256;
    call_stack = stack_init s.call_stack.base 96;
  })
  push_call zero_frame

module _ (malloc : ℕ → List ℕ) where
  unfoldable pub boot : Done
  boot = do
    story ← get (λ s. s.memory)
    msb ← valid (get_elem? story 0x0E)
    lsb ← valid (get_elem? story 0x0F)
    modify (λ s. record s { end_of_dynamic = make_u16 msb lsb })
    allocate_dynamic malloc
    read_tables
    write_flags
    write_screen_size
    init_stacks
    version ← get (λ s. s.version)
    io_reset (version == 3)
