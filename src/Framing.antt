-- ===== src/Framing.antt =====
-- The making of a frame in Firmware/main/LowLevel.cpp: the check sequence, the zero bits behind five
-- ones, and the flags. An access outside a `CBitStream` is `none`.
pub mod Sent
pub mod Stuffing
pub mod Frame
use zmachine.Base.{
  ℕ, zero, suc, ◌+◌, ◌*◌, ◌/◌, ◌%◌, Bool, not, true, false, Option, none, some, List, [], ◌∷◌, ◌==◌,
  if◌then◌else◌,
}
use zmachine.Base.Int.{pos, pos_part}
use zmachine.Base.Bits.{bit_val}
use zmachine.Base.Maybe.{◌>>=◌}
use zmachine.BitStream.{BitStream, of_bytes, reset, flush, finished, read_bit, write_bit}
use zmachine.Crc.{crc_step}

unfoldable pub write_bits : List Bool → BitStream → Option BitStream
write_bits [] dest = some dest
write_bits (b ∷ bits) dest = do dest' ← write_bit b dest; write_bits bits dest'

abbrev pub flag_bits : List Bool
flag_bits = false ∷ true ∷ true ∷ true ∷ true ∷ true ∷ true ∷ false ∷ []

unfoldable pub insert_flags : BitStream → Option BitStream
insert_flags dest = write_bits flag_bits dest

-- while (!Source.Finished()), with the source's bits as fuel
unfoldable pub crc_loop : ℕ → ℕ → BitStream → BitStream → Option (ℕ × BitStream × BitStream)
crc_loop zero crc dest source = if finished source then some (crc, dest, source) else none
crc_loop (suc fuel) crc dest source = if finished source then some (crc, dest, source) else do
  (bit, source') ← read_bit source
  dest' ← write_bit bit dest
  crc_loop fuel (crc_step crc (bit_val bit)) dest' source'

-- for (BitIndex = 0; BitIndex < n; BitIndex++)
unfoldable pub write_crc : ℕ → ℕ → BitStream → Option BitStream
write_crc zero crc dest = some dest
write_crc (suc n) crc dest = do
  dest' ← write_bit (crc / 0x8000 == 0) dest
  write_crc n (crc * 2 % 0x10000) dest'

unfoldable pub calculate_crc : BitStream → BitStream → Option (BitStream × BitStream)
calculate_crc dest source = do
  dest' ← reset dest
  (crc, written, source') ← crc_loop (pos_part source.total_bits) 0xFFFF dest' source
  done ← write_crc 16 crc written
  some (flush done, source')

-- while (!Source.Finished()), with the source's bits as fuel; `NumBits` stays below five
unfoldable pub stuff_loop : ℕ → ℕ → BitStream → BitStream → Option (BitStream × BitStream)
stuff_loop zero num_bits dest source = if finished source then some (dest, source) else none
stuff_loop (suc fuel) num_bits dest source = if finished source then some (dest, source) else do
  (bit, source') ← read_bit source
  dest' ← write_bit bit dest
  if bit
      then (if num_bits + 1 == 5
          then (do dest'' ← write_bit false dest'; stuff_loop fuel 0 dest'' source')
          else stuff_loop fuel (num_bits + 1) dest' source')
      else stuff_loop fuel 0 dest' source'

unfoldable pub zero_bit_and_flag_insertion : BitStream → BitStream → Option (BitStream × BitStream)
zero_bit_and_flag_insertion dest source = do
  dest' ← reset dest
  opened ← insert_flags dest'
  (written, source') ← stuff_loop (pos_part source.total_bits) 0 opened source
  closed ← insert_flags written
  some (flush closed, source')

-- What `MessageTask` makes of a buffer to send: the stream whose bits go to the wire. The arrays of
-- its two streams hold anything at first.
unfoldable pub make_frame : List ℕ → List ℕ → List ℕ → Option BitStream
make_frame old_a old_b buffer = do
  a ← of_bytes old_a buffer
  b ← reset (record { total_bits = pos 0; current_byte = 0; current_mask = 1; bytes = old_b })
  (b', a') ← calculate_crc b (flush a)
  (a'', b'') ← zero_bit_and_flag_insertion a' b'
  some a''
