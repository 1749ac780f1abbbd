-- ===== src/SaveStream.antt =====
-- The buffered stream of zops.c under `saveByte` and `readByte`.
pub mod Write
pub mod Emits
pub mod Read
use zmachine.Base.{
  ℕ, ◌+◌, ◌%◌, Bool, Option, none, some, List, ◌++◌, ltb, leb, if◌then◌else◌, length, get_elem?,
  set, take, drop,
}
use zmachine.Machine.{SaveStream}
use zmachine.Effects.{M, Done, undefined, stopped, ok}

abbrev pub buffer_size : ℕ
buffer_size = 1024

-- `chunk_size` is kept: the second pass of a save writes what the first one measured.
unfoldable pub save_reset_stream : SaveStream → SaveStream
save_reset_stream stream = record stream {
  ptr = 0;
  limit = buffer_size;
  position = 0;
  file = none;
  chunk_size_idx = 0;
  chunk_stack_idx = 0;
}

-- `fwrite` adds to the file.
abbrev pub fwrite : Option (List ℕ) → List ℕ → Option (List ℕ)
fwrite none bytes = none
fwrite (some written) bytes = some (written ++ bytes)

unfoldable pub save_flush : SaveStream → SaveStream
save_flush stream = record stream {
  file = fwrite stream.file (take stream.ptr stream.buffer);
  ptr = 0;
}

-- `*(stream->ptr++)=data; stream->pos++`
abbrev pub store_byte : ℕ → SaveStream → SaveStream
store_byte value stream = record stream {
  buffer = set stream.buffer stream.ptr (value % 256);
  ptr = stream.ptr + 1;
  position = stream.position + 1;
}

abbrev pub flush_if_full : SaveStream → SaveStream
flush_if_full stream = if leb stream.limit stream.ptr then save_flush stream else stream

-- A write outside the buffer is undefined.
unfoldable pub save_byte : ℕ → SaveStream → Option SaveStream
save_byte value stream =
    if ltb stream.ptr (length stream.buffer)
    then some (flush_if_full (store_byte value stream))
    else none

-- `fread` of a buffer full: what it delivers, over what the buffer held. It is called behind an
-- open that succeeded; without a file, where `fread` is undefined, nothing is delivered.
unfoldable pub read_from_disk : SaveStream → SaveStream
read_from_disk stream = elim stream.file [
  | none ↦ record stream { limit = 0; ptr = 0 }
  | some rest ↦
      let got = take buffer_size rest in
      record stream {
        buffer = got ++ drop (length got) stream.buffer;
        limit = length got;
        ptr = 0;
        file = some (drop buffer_size rest);
      }
]

unfoldable pub read_has_data : SaveStream → Bool
read_has_data stream = ltb stream.ptr stream.limit

unfoldable pub read_byte : SaveStream → Option (ℕ × SaveStream)
read_byte stream = elim (get_elem? stream.buffer stream.ptr) [
  | none ↦ none
  | some value ↦
      let next = record stream { ptr = stream.ptr + 1; position = stream.position + 1 } in
      some (value, if leb next.limit next.ptr then read_from_disk next else next)
]

-- Both on `m_savestream`.
unfoldable pub emit : ℕ → Done
emit value s = elim (save_byte value s.save_stream) [
  | none ↦ stopped undefined s
  | some stream ↦ ok tt (record s { save_stream = stream })
]

unfoldable pub take_byte : M ℕ
take_byte s = elim (read_byte s.save_stream) [
  | none ↦ stopped undefined s
  | some (value, stream) ↦ ok value (record s { save_stream = stream })
]
