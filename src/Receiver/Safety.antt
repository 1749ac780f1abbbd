-- ===== src/Receiver/Safety.antt =====
-- About `RecvCallback` of Firmware/main/LowLevel.cpp on any bits whatever, noise included.
use zmachine.Base.{
  ℕ, zero, suc, ◌+◌, ◌-◌, ◌*◌, ◌/◌, ◌%◌, ◌<◌, ◌≡◌, ◌≢◌, refl, ap, ◌∙◌, arith, Bool, not, true,
  false, ◌&&◌, some, List, [], ◌∷◌, ◌++◌, ◌==◌, ltb, lt→ltb, leb, if◌then◌else◌, length, bit_and,
  bit_or, length-set, get_elem?, get_elem?-some, Bool-cases, inl, inr,
}
use zmachine.Base.Bits.{grid, grid-at}
use zmachine.BitStream.Laws.{IsBytes, set-IsBytes}
use zmachine.Receiver.{
  u32, invalid_packet, Shift, Receiver, shift_bit, recv_flags, recv_zero, recv_callback, recv_bits,
  copy_packet, take_packet,
}

-- A packet is not empty, and has a start.
abbrev pub IsPackets : List (ℕ × ℕ) → Type 0
IsPackets events =
    (i start end_packet : ℕ)
    → get_elem? events i ≡ some (start, end_packet)
    → (start ≢ end_packet) × (start < invalid_packet) × (end_packet < u32)

pub record IsShift (s : Shift) : Type 0 where
  pub size : length s.ring ≡ 1024
  pub bytes : IsBytes s.ring
  pub byte : s.current_byte < 256
  pub index : s.ring_buf_index < u32

pub record IsValid (r : Receiver) : Type 0 where
  pub shift : IsShift r.shift
  pub run : r.run_count < u32
  pub start : r.start_packet < u32
  pub packets : IsPackets r.events

or_small : ℕ → ℕ → Bool
or_small bit byte = ltb (bit_or byte (bit * 0x80)) 256

or_table : grid or_small 2 128 ≡ true
unfolding grid or_small
or_table = refl

next-lt : (b : Bool) (byte : ℕ) → byte < 256 → bit_or (byte / 2) (if b then 0x80 else 0) < 256
unfolding or_small
next-lt true byte h =
    ground (arith, grid-at or_small 128 1 (byte / 2) 2 or_table (omega arith) (omega arith))
next-lt false byte h =
    ground (arith, grid-at or_small 128 0 (byte / 2) 2 or_table (omega arith) (omega arith))

shift_bit-IsShift : (b : Bool) (s : Shift) → IsShift s → IsShift (shift_bit b s)
unfolding shift_bit
shift_bit-IsShift b s v =
    let byte = bit_or (s.current_byte / 2) (if b then 0x80 else 0) in
    let small = next-lt b s.current_byte v.byte in
    let i = s.ring_buf_index % 1024 in
    elim (Bool-cases (bit_and s.current_byte 1 == 0)) [
      | inl more ↦
          rw more (record { size = v.size; bytes = v.bytes; byte = small; index = v.index })
      | inr full ↦ rw full (record {
        size = length-set s.ring i (byte % 256) ∙ v.size;
        bytes = set-IsBytes s.ring i (byte % 256) (omega (arith, v.size)) (omega arith) v.bytes;
        byte = omega arith;
        index = omega arith;
      })
    ]

append-IsPackets :
    (events : List (ℕ × ℕ)) (start end_packet : ℕ)
    → start ≢ end_packet
    → start < invalid_packet
    → end_packet < u32
    → IsPackets events
    → IsPackets (events ++ (start, end_packet) ∷ [])
append-IsPackets [] start end_packet ne small below h zero a b e = ground arith
append-IsPackets [] start end_packet ne small below h (suc i) a b e = absurd (ground arith)
append-IsPackets (x ∷ events) start end_packet ne small below h zero a b e = h 0 a b e
append-IsPackets (x ∷ events) start end_packet ne small below h (suc i) a b e =
    append-IsPackets events start end_packet ne small below (λ j c d f. h (suc j) c d f) i a b e

recv_flags-IsValid : (r : Receiver) → IsValid r → IsValid (recv_flags r)
unfolding recv_flags
recv_flags-IsValid r v =
    let e = r.shift.ring_buf_index in
    record {
      shift = record {
        size = v.shift.size;
        bytes = v.shift.bytes;
        byte = omega arith;
        index = v.shift.index;
      };
      run = v.run;
      start = v.shift.index;
      packets =
          elim (Bool-cases (not (r.start_packet == invalid_packet) && not (r.start_packet == e))) [
            | inl sent ↦ rw sent (
                append-IsPackets r.events r.start_packet e (ground arith) (ground (arith, v.start))
                  v.shift.index v.packets)
            | inr kept ↦ rw kept v.packets
          ];
    }

recv_zero-IsValid : (run : ℕ) (r : Receiver) → IsValid r → IsValid (recv_zero run r)
unfolding recv_zero
recv_zero-IsValid run r v = elim (Bool-cases (leb 5 run && ltb run 0x80000000)) [
  | inl long ↦ rw long (elim (Bool-cases (ltb 6 run)) [
    | inl over ↦
        rw over (record { shift = v.shift; run = v.run; start = omega arith; packets = v.packets })
    | inr not_over ↦ rw not_over (elim (Bool-cases (run == 6)) [
      | inl flags ↦ rw flags (recv_flags-IsValid r v)
      | inr five ↦ rw five v
    ])
  ])
  | inr short ↦ rw short (record {
    shift = shift_bit-IsShift false r.shift v.shift;
    run = v.run;
    start = v.start;
    packets = v.packets;
  })
]

-- `RecvCallback` keeps a receiver well-formed for either bit: a ring of 1024 bytes, a current byte
-- below 256, counters below 2 ^ 32, and announced packets that are not empty and start at an index
-- that is not the mark of an invalid one.
pub recv_callback-IsValid : (b : Bool) (r : Receiver) → IsValid r → IsValid (recv_callback b r)
unfolding recv_callback
recv_callback-IsValid true r v = record {
  shift = shift_bit-IsShift true r.shift v.shift;
  run = omega arith;
  start = v.start;
  packets = v.packets;
}
recv_callback-IsValid false r v =
    recv_zero-IsValid r.run_count (record r { run_count = 0 })
      (record { shift = v.shift; run = omega arith; start = v.start; packets = v.packets })

recv_bits-IsValid : (bits : List Bool) (r : Receiver) → IsValid r → IsValid (recv_bits bits r)
unfolding recv_bits
recv_bits-IsValid [] r v = v
recv_bits-IsValid (b ∷ bits) r v =
    recv_bits-IsValid bits (recv_callback b r) (recv_callback-IsValid b r v)

pub cons-IsBytes : (v : ℕ) (vs : List ℕ) → v < 256 → IsBytes vs → IsBytes (v ∷ vs)
cons-IsBytes v vs small bytes zero w e = ground arith
cons-IsBytes v vs small bytes (suc i) w e = bytes i w e

copy_packet-some :
    (n : ℕ) (ring : List ℕ) (start : ℕ)
    → length ring ≡ 1024
    → IsBytes ring
    → (vs : List ℕ) × (copy_packet n ring start ≡ some vs) × (length vs ≡ n) × IsBytes vs
unfolding copy_packet
copy_packet-some zero ring start size bytes = ([], refl, refl, λ i v e. absurd (ground arith))
copy_packet-some (suc n) ring start size bytes =
    let (v, here) = get_elem?-some ring (start % 1024) (omega (arith, size)) in
    let (vs, rest, long, small) = copy_packet-some n ring ((start + 1) % u32) size bytes in
    (
      v ∷ vs,
      rw (here, copy_packet, rest) refl,
      ap suc long,
      cons-IsBytes v vs (bytes (start % 1024) v here) small,
    )

-- After any bits whatever from a well-formed receiver (`IsValid`), a packet that is announced and
-- whose length is below 1024 is taken from the ring within its bounds: as many bytes as the length
-- says, at least one, each below 256.
pub take_packet-recv_bits :
    (bits : List Bool) (r : Receiver) (i start end_packet : ℕ)
    → IsValid r
    → get_elem? (recv_bits bits r).events i ≡ some (start, end_packet)
    → (end_packet + u32 - start) % u32 < 1024
    → (vs : List ℕ) × (take_packet (recv_bits bits r).shift.ring (start, end_packet) ≡ some vs)
      × (0 < length vs)
      × (length vs ≡ (end_packet + u32 - start) % u32)
      × IsBytes vs
unfolding take_packet
take_packet-recv_bits bits r i start end_packet v e fits =
    let after = recv_bits-IsValid bits r v in
    let long = (end_packet + u32 - start) % u32 in
    let (ne, small, below) = after.packets i start end_packet e in
    let (vs, taken, counted, bytes) =
      copy_packet-some long (recv_bits bits r).shift.ring start after.shift.size
        after.shift.bytes in
    let some_bytes : 0 < long = omega arith in
    (vs, rw (lt→ltb long 1024 fits) taken, omega (arith, counted, some_bytes), counted, bytes)
