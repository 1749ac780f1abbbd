-- ===== src/Receiver/Ring.antt =====
-- About the ring of Firmware/main/LowLevel.cpp: what is written to it and taken from it.
use zmachine.Base.{
  ℕ, suc, ◌+◌, ◌-◌, ◌%◌, ◌<◌, ◌≤◌, ◌≡◌, ◌≢◌, refl, ap, ◌∙◌, arith, some, List, [], ◌∷◌, lt→ltb,
  get_elem?, length, length-set, get_elem?-set_self, get_elem?-set_ne,
}
use zmachine.Base.Bits.{digits_of, bits_of}
use zmachine.BitStream.Laws.{IsBytes}
use zmachine.Receiver.{u32, Shift, copy_packet, take_packet}
use zmachine.Receiver.Bytes.{shift_bits, shift_bits-append, shift_bits-byte, filled}

-- The ring after these bytes.
abbrev pub write_bytes : List ℕ → Shift → Shift
write_bytes [] s = s
write_bytes (v ∷ vs) s = write_bytes vs (filled v s)

-- The bits of whole bytes end in the ring as these bytes.
pub shift_bits-bits_of :
    (vs : List ℕ) (s : Shift)
    → IsBytes vs
    → s.current_byte ≡ 0x80
    → shift_bits (bits_of vs) s ≡ write_bytes vs s
shift_bits-bits_of [] s bytes e = refl
shift_bits-bits_of (v ∷ vs) s bytes e =
    shift_bits-append (digits_of 8 v) (bits_of vs) s
    ∙ ap (shift_bits (bits_of vs)) (shift_bits-byte v s (bytes 0 v refl) e)
    ∙ shift_bits-bits_of vs (filled v s) (λ i w h. bytes (suc i) w h) refl

pub write_bytes-index :
    (vs : List ℕ) (s : Shift)
    → s.ring_buf_index < u32
    → (write_bytes vs s).ring_buf_index ≡ (s.ring_buf_index + length vs) % u32
write_bytes-index [] s h = omega arith
write_bytes-index (v ∷ vs) s h = write_bytes-index vs (filled v s) (omega arith) ∙ omega arith

pub write_bytes-current :
    (vs : List ℕ) (s : Shift) → s.current_byte ≡ 0x80 → (write_bytes vs s).current_byte ≡ 0x80
write_bytes-current [] s e = e
write_bytes-current (v ∷ vs) s e = write_bytes-current vs (filled v s) refl

pub length-write_bytes : (vs : List ℕ) (s : Shift) → length (write_bytes vs s).ring ≡ length s.ring
length-write_bytes [] s = refl
length-write_bytes (v ∷ vs) s =
    length-write_bytes vs (filled v s) ∙ length-set s.ring (s.ring_buf_index % 1024) v

-- A cell `d` behind the next one is kept for as long as the bytes do not come round to it.
write_bytes-before :
    (vs : List ℕ) (s : Shift) (p d : ℕ)
    → s.ring_buf_index < u32
    → p < 1024
    → 0 < d
    → (p + d) % 1024 ≡ s.ring_buf_index % 1024
    → d + length vs ≤ 1024
    → get_elem? (write_bytes vs s).ring p ≡ get_elem? s.ring p
write_bytes-before [] s p d small hp hd e room = refl
write_bytes-before (v ∷ vs) s p d small hp hd e room =
    let other : s.ring_buf_index % 1024 ≢ p = λ same. omega arith in
    write_bytes-before vs (filled v s) p (d + 1) (omega arith) hp (omega arith) (omega arith)
      (omega arith)
    ∙ get_elem?-set_ne s.ring (s.ring_buf_index % 1024) p v other

-- What has been written is read again.
pub copy_packet-write_bytes :
    (vs : List ℕ) (s : Shift)
    → length s.ring ≡ 1024
    → s.ring_buf_index < u32
    → length vs ≤ 1024
    → copy_packet (length vs) (write_bytes vs s).ring s.ring_buf_index ≡ some vs
unfolding copy_packet
copy_packet-write_bytes [] s size small room = refl
copy_packet-write_bytes (v ∷ vs) s size small room =
    let i = s.ring_buf_index in
    let first =
      write_bytes-before vs (filled v s) (i % 1024) 1 (omega arith) (omega arith) (omega arith)
        (omega arith) (omega arith)
      ∙ get_elem?-set_self s.ring (i % 1024) v (omega (arith, size)) in
    let rest =
      copy_packet-write_bytes vs (filled v s) (length-set s.ring (i % 1024) v ∙ size) (omega arith)
        (omega arith) in
    rw (first, copy_packet, rest) refl

pub take_packet-write_bytes :
    (vs : List ℕ) (s : Shift)
    → length s.ring ≡ 1024
    → s.ring_buf_index < u32
    → length vs < 1024
    → take_packet (write_bytes vs s).ring (s.ring_buf_index, (s.ring_buf_index + length vs) % u32)
      ≡ some vs
unfolding take_packet
take_packet-write_bytes vs s size small room =
    let i = s.ring_buf_index in
    let counted : ((i + length vs) % u32 + u32 - i) % u32 ≡ length vs = omega arith in
    rw (counted, lt→ltb (length vs) 1024 room)
      (copy_packet-write_bytes vs s size small (omega arith))
