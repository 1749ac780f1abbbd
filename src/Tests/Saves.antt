-- ===== src/Tests/Saves.antt =====
-- Runs of the saving and restoring of zops.c, and its theorems at concrete inputs.
use zmachine.Base.{ℕ, ◌≡◌, refl, arith, some, List, [], ◌∷◌, replicate, inl}
use zmachine.Base.Int.{pos}
use zmachine.Machine.{Machine, SaveStream}
use zmachine.Effects.{ok, for_each}
use zmachine.Memory.{get_dynamic}
use zmachine.SaveStream.{emit, read_byte, read_from_disk}
use zmachine.SaveStream.Write.{IsWriter, written, for_each-emit}
use zmachine.SaveStream.Read.{IsReader, left_of, read_byte_lem, read_from_disk_lem}
use zmachine.SaveStream.Emits.{Emits}
use zmachine.Save.{save_dynamic_memory}
use zmachine.Restore.Expand.{Expands, read_diffs_lem}
use zmachine.Save.Compress.{decode, Holds, save_dynamic_memory_lem}
use zmachine.Restore.{read_compressed_memory}
use zmachine.Restore.Expand.{Chunk, with_memory}
use zmachine.Restore.RoundTrip.{read_compressed_memory-save_dynamic_memory}
use zmachine.Tests.Sample.{one_chunk-IsMapped, machine, stream}

for_each-emit_example :
    (t : SaveStream) × (for_each (70 ∷ 300 ∷ []) emit machine
      ≡ ok tt (record machine { save_stream = t }))
    × IsWriter t
    × (written t ≡ some (70 ∷ 44 ∷ []))
    × (t.position ≡ 2)
for_each-emit_example =
    for_each-emit (70 ∷ 300 ∷ []) machine (record { size = refl; limit = refl; room = omega arith })

abbrev reader : SaveStream
reader = record stream { limit = 2; file = some (9 ∷ []); buffer = 7 ∷ 8 ∷ replicate 1022 0 }

read_byte_lem_example :
    (t : SaveStream) × (rest : List ℕ) × (read_byte reader ≡ some (7, t))
    × IsReader t rest
    × (left_of t rest ≡ 8 ∷ 9 ∷ [])
    × (t.position ≡ 1)
read_byte_lem_example =
    read_byte_lem reader {rest = 9 ∷ []} {x = 7} {xs = 8 ∷ 9 ∷ []}
      (record { size = refl; limit = omega arith; file = refl; ready = inl (omega arith) }) refl

read_from_disk_lem_example :
    IsReader (read_from_disk reader) [] × (left_of (read_from_disk reader) [] ≡ 9 ∷ [])
read_from_disk_lem_example = read_from_disk_lem reader (9 ∷ []) refl refl

-- The second and the fourth byte differ from the story's.
abbrev small : Machine
small = record machine {
  end_of_dynamic = 4;
  memory = 9 ∷ 5 ∷ 0 ∷ 1 ∷ 64 ∷ [];
  dynamic_chunks = (9 ∷ 7 ∷ 0 ∷ 200 ∷ []) ∷ replicate 63 [];
}

small-Holds : Holds small.memory small.dynamic_chunks 0 (9 ∷ 5 ∷ 0 ∷ 1 ∷ []) (9 ∷ 7 ∷ 0 ∷ 200 ∷ [])
unfolding get_dynamic
small-Holds = (
  refl,
  refl,
  omega arith,
  omega arith,
  (
    refl,
    refl,
    omega arith,
    omega arith,
    (refl, refl, omega arith, omega arith, (refl, refl, omega arith, omega arith, tt)),
  ),
)

save_dynamic_memory_lem_example :
    (es : List ℕ) × Emits save_dynamic_memory small es
    × (decode es (9 ∷ 5 ∷ 0 ∷ 1 ∷ []) ≡ 9 ∷ 7 ∷ 0 ∷ 200 ∷ [])
save_dynamic_memory_lem_example =
    save_dynamic_memory_lem small (9 ∷ 5 ∷ 0 ∷ 1 ∷ []) (9 ∷ 7 ∷ 0 ∷ 200 ∷ [])
      (record { size = refl; limit = refl; room = omega arith }) refl small-Holds

-- A run of one byte and a difference of 9, with a byte of the next chunk behind them.
abbrev saved : Machine
saved = record small {
  save_stream = record stream {
    buffer = 0 ∷ 0 ∷ replicate 1022 0;
    limit = 2;
    file = some (9 ∷ 5 ∷ []);
  };
  dynamic_chunks = (1 ∷ 2 ∷ []) ∷ [];
}

read_diffs_lem_example : Expands 3 3 0 saved (0 ∷ 0 ∷ 9 ∷ []) (1 ∷ 2 ∷ []) (5 ∷ [])
unfolding get_dynamic
read_diffs_lem_example =
    read_diffs_lem 3 3 0 saved (0 ∷ 0 ∷ 9 ∷ []) (1 ∷ 2 ∷ []) (5 ∷ []) {rest = 9 ∷ 5 ∷ []}
      (record { size = refl; limit = omega arith; file = refl; ready = inl (omega arith) }) refl
      refl (omega arith) (omega arith, tt) (refl, (refl, tt))

small-IsWriter : IsWriter stream
small-IsWriter = record { size = refl; limit = refl; room = omega arith }

-- A machine with the same story and clear memory, which reads what `small` has written and a byte of
-- the next chunk.
abbrev other : Machine
other = record small {
  save_stream = record stream {
    buffer = 0 ∷ 0 ∷ 2 ∷ 0 ∷ 0 ∷ 201 ∷ 5 ∷ replicate 1017 0;
    limit = 7;
  };
  dynamic_chunks = replicate 4 0 ∷ replicate 63 [];
}

read_compressed_memory-save_dynamic_memory_example :
    Emits save_dynamic_memory small (0 ∷ 0 ∷ 2 ∷ 0 ∷ 0 ∷ 201 ∷ [])
    × (t : SaveStream) × (chunks : List (List ℕ)) × (rest : List ℕ) × (read_compressed_memory
          (pos 6)
          other
        ≡ ok tt (with_memory other t chunks))
    × IsReader t rest
    × (left_of t rest ≡ 5 ∷ [])
    × Chunk chunks 0 (9 ∷ 7 ∷ 0 ∷ 200 ∷ [])
read_compressed_memory-save_dynamic_memory_example =
    read_compressed_memory-save_dynamic_memory small other (9 ∷ 5 ∷ 0 ∷ 1 ∷ [])
      (9 ∷ 7 ∷ 0 ∷ 200 ∷ []) (5 ∷ []) {rest = []} small-IsWriter refl small-Holds refl refl
      (one_chunk-IsMapped other (replicate 4 0) 63 refl refl (omega arith))
      (record { size = refl; limit = omega arith; file = refl; ready = inl (omega arith) }) refl
