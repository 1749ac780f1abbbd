-- ===== src/Framing/Frame.antt =====
-- About the frame that `MessageTask` of Firmware/main/LowLevel.cpp makes of a buffer.
use zmachine.Base.{
  ℕ, zero, suc, ◌+◌, ◌≤◌, ◌≡◌, refl, ap, ◌∙◌, arith, Bool, some, List, [], ◌∷◌, ◌++◌, length, take,
  length-append,
}
use mathlib.Core.List.{append_assoc}
use zmachine.Base.Int.{pos, pos_part}
use zmachine.Base.Bits.{bits_of}
use zmachine.Base.XorLaws.{two_to}
use zmachine.BitStream.{BitStream, flush}
use zmachine.BitStream.Digits.{length-bits_of}
use zmachine.BitStream.Laws.{IsBytes, Writes}
use zmachine.BitStream.Reading.{Reads, flush-Reads, of_bytes-Reads}
use zmachine.SaveStream.Read.{take-append_self}
use zmachine.Crc.Table.{crc_bits}
use zmachine.Crc.Residue.{check_bits, length-check_bits}
use zmachine.Framing.{flag_bits, insert_flags, stuff_loop, zero_bit_and_flag_insertion, make_frame}
use zmachine.Framing.Sent.{
  stuffed, checked, frame_bits, length-stuffed, reset-Writes, write_bits-Writes,
  calculate_crc-Reads,
}
use zmachine.Framing.Stuffing.{stuff_loop-Writes}

-- The bits that go to the wire: `NumBits` of `Data`.
abbrev pub sent_bits : BitStream → List Bool
sent_bits s = take (pos_part s.total_bits) (bits_of s.bytes)

start_place : (k : ℕ) → 1 ≡ two_to k → k ≡ 0
start_place zero e = refl
start_place (suc k) e = absurd (omega arith)

empty_before : (xs : List Bool) → length xs ≡ 0 → xs ≡ []
empty_before [] e = refl
empty_before (x ∷ xs) e = absurd (omega arith)

-- A flushed stream is sent whole.
flush-sent_bits : (s : BitStream) (xs : List Bool) → Writes s xs → sent_bits (flush s) ≡ xs
unfolding flush
flush-sent_bits s xs w =
    let r = flush-Reads s xs w in
    let start = start_place r.place r.mask in
    let none_before = empty_before r.before (omega (arith, r.at, start)) in
    ap (λ n. take (pos_part n) (bits_of s.bytes)) r.count
    ∙ ap (take (length xs)) (r.whole ∙ ap (λ zs. zs ++ (xs ++ r.junk)) none_before)
    ∙ take-append_self xs r.junk

zero_bit_and_flag_insertion-sent_bits :
    (dest source : BitStream) (rs : List Bool)
    → Reads source rs
    → length dest.bytes ≡ 3072
    → IsBytes dest.bytes
    → 16 + length (stuffed 0 rs) ≤ 24568
    → (dest' source' : BitStream) × (zero_bit_and_flag_insertion dest source
        ≡ some (dest', source'))
      × (sent_bits dest' ≡ flag_bits ++ stuffed 0 rs ++ flag_bits)
unfolding zero_bit_and_flag_insertion insert_flags
zero_bit_and_flag_insertion-sent_bits dest source rs r size bound room =
    let (empty, cleared, w) = reset-Writes dest size bound in
    let (opened, opens, w1) = write_bits-Writes flag_bits empty [] w (omega arith) in
    let (filled, source', fills, w2) =
      stuff_loop-Writes (length rs) 0 rs flag_bits opened source (omega arith) r w1 (omega arith) in
    let fills' = ap (λ n. stuff_loop (pos_part n) 0 opened source) r.count ∙ fills in
    let (closed, closes, w3) =
      write_bits-Writes flag_bits filled (flag_bits ++ stuffed 0 rs) w2
        (omega (arith, length-append flag_bits (stuffed 0 rs))) in
    (
      flush closed,
      source',
      rw (cleared, zero_bit_and_flag_insertion, opens, fills', closes) refl,
      flush-sent_bits closed ((flag_bits ++ stuffed 0 rs) ++ flag_bits) w3
          ∙ append_assoc flag_bits (stuffed 0 rs) flag_bits,
    )

module _ (old_a old_b buffer : List ℕ) (size_a : length old_a ≡ 3072) (size_b : length old_b ≡ 3072)
    (bytes_a : IsBytes old_a) (bytes_b : IsBytes old_b) (bytes : IsBytes buffer)
    (fits : length buffer ≤ 2555) where
  -- For a buffer of 2555 bytes at most and two arrays of 3072 bytes that hold anything:
  -- `MessageTask`'s code stays within both arrays, and the bits it sends are a flag, then the bits
  -- of the buffer and their check sequence with a zero behind every five ones, then a flag.
  pub make_frame-sent_bits :
      (s : BitStream) × (make_frame old_a old_b buffer ≡ some s)
      × (sent_bits s ≡ frame_bits (bits_of buffer))
  unfolding make_frame
  make_frame-sent_bits =
      let bits = bits_of buffer in
      let (a, filled, r) = of_bytes-Reads old_a buffer size_a (omega arith) bytes_a bytes in
      let b0 =
        let s : BitStream = record {
          total_bits = pos 0;
          current_byte = 0;
          current_mask = 1;
          bytes = old_b;
        } in
        s in
      let (b, cleared, w) = reset-Writes b0 size_b bytes_b in
      let (b1, a1, checked_out, rb, ra) =
        calculate_crc-Reads b (flush a) bits r w.size w.bound
          (omega (arith, length-bits_of buffer)) in
      let crc = crc_bits 0xFFFF bits in
      let long = length-append bits (check_bits 16 crc) in
      let (a2, b2, framed, sent) =
        zero_bit_and_flag_insertion-sent_bits a1 b1 (checked bits) rb ra.size ra.bound (
          omega (
            arith,
            long,
            length-check_bits 16 crc,
            length-bits_of buffer,
            length-stuffed 0 (checked bits) (omega arith),
          )) in
      (a2, rw (filled, make_frame, cleared, checked_out, framed) refl, sent)
