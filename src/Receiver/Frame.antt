-- ===== src/Receiver/Frame.antt =====
-- About a whole frame on the line, from its flag to its flag, in `RecvCallback` of
-- Firmware/main/LowLevel.cpp.
use zmachine.Base.{
  ℕ, ◌%◌, zero, suc, ◌+◌, ◌<◌, ◌≡◌, ◌≢◌, refl, sym, ap, ◌∙◌, arith, not, true, false, ◌&&◌, some,
  subst, List, [], ◌∷◌, ◌++◌, ◌==◌, if◌then◌else◌, length, length-append,
}
use zmachine.Base.Bits.{bits_of}
use zmachine.BitStream.Digits.{bits_of-append}
use zmachine.BitStream.Laws.{IsBytes}
use zmachine.BitStream.Reading.{append-IsBytes}
use zmachine.Crc.{validate_packet}
use zmachine.Crc.Table.{crc_bits}
use zmachine.Crc.CheckBytes.{
  check_bytes, check_bytes-lt, bits_of-check_bytes, validate_packet-check_bytes,
}
use zmachine.Crc.Residue.{shifted}
use zmachine.Framing.{flag_bits}
use zmachine.Framing.Sent.{stuffed, checked, frame_bits}
use zmachine.Receiver.{
  u32, invalid_packet, Shift, Receiver, shift_bit, recv_flags, recv_zero, recv_callback, recv_bits,
  take_packet,
}
use zmachine.Receiver.Bytes.{
  shift_bits, recv_bits-append, run_after, run_after-lt, zero_fewer, recv_bits-stuffed,
}
use zmachine.Receiver.Ring.{
  write_bytes, shift_bits-bits_of, write_bytes-index, write_bytes-current, length-write_bytes,
  take_packet-write_bytes,
}

-- A receiver that has just seen a flag.
pub record IsIdle (r : Receiver) : Type 0 where
  pub size : length r.shift.ring ≡ 1024
  pub fresh : r.shift.current_byte ≡ 0x80
  pub run : r.run_count < 5
  pub start : r.start_packet ≡ r.shift.ring_buf_index

-- A flag behind whole bytes.
pub recv_bits-flag_bits :
    (r : Receiver)
    → r.run_count < 5
    → r.shift.current_byte ≡ 0x80
    → recv_bits flag_bits r ≡ recv_flags (record r { run_count = 0 })
unfolding recv_bits recv_callback recv_zero recv_flags shift_bit
recv_bits-flag_bits r h e =
    let ones = true ∷ true ∷ true ∷ true ∷ true ∷ true ∷ false ∷ [] in
    let opened : Shift → Receiver = λ s. record r { run_count = 0; shift = s } in
    ap (recv_bits ones) (zero_fewer r h)
    ∙ ap
        (λ c.
          recv_bits ones
            (opened (shift_bit false (let s : Shift = record r.shift { current_byte = c } in s))))
        e

-- The opening flag of a frame, behind another flag, sends nothing.
pub recv_flags-IsIdle :
    (r : Receiver) → IsIdle r → recv_flags (record r { run_count = 0 }) ≡ record r { run_count = 0 }
unfolding recv_flags
recv_flags-IsIdle r idle = ground arith

packet_sent :
    (start end_packet : ℕ) (events : List (ℕ × ℕ))
    → start < invalid_packet
    → start ≢ end_packet
    → (if not (start == invalid_packet) && not (start == end_packet)
        then events ++ (start, end_packet) ∷ []
        else events)
      ≡ events ++ (start, end_packet) ∷ []
packet_sent start end_packet events small other = ground arith

-- The bytes of a packet, with its check sequence.
abbrev pub packet : List ℕ → List ℕ
packet vs = vs ++ check_bytes (crc_bits 0xFFFF (bits_of vs))

pub length-packet : (vs : List ℕ) → length (packet vs) ≡ length vs + 2
length-packet vs = length-append vs (check_bytes (crc_bits 0xFFFF (bits_of vs)))

check_bytes-IsBytes : (crc : ℕ) → IsBytes (check_bytes crc)
check_bytes-IsBytes crc zero v e = ground (arith, check_bytes-lt crc)
check_bytes-IsBytes crc (suc zero) v e = ground (arith, check_bytes-lt (shifted 8 crc))
check_bytes-IsBytes crc (suc (suc i)) v e = absurd (ground arith)

pub packet-IsBytes : (vs : List ℕ) → IsBytes vs → IsBytes (packet vs)
packet-IsBytes vs h =
    let crc = crc_bits 0xFFFF (bits_of vs) in
    append-IsBytes vs (check_bytes crc) h (check_bytes-IsBytes crc)

bits_of-packet : (vs : List ℕ) → checked (bits_of vs) ≡ bits_of (packet vs)
bits_of-packet vs =
    let crc = crc_bits 0xFFFF (bits_of vs) in
    sym
      (bits_of-append vs (check_bytes crc) ∙ ap (λ zs. bits_of vs ++ zs) (bits_of-check_bytes crc))

module _ (vs : List ℕ) (r : Receiver) (bytes : IsBytes vs) (idle : IsIdle r) where
  body_received :
      recv_bits (stuffed 0 (checked (bits_of vs))) (record r { run_count = 0 }) ≡ record r {
        run_count = run_after 0 (checked (bits_of vs));
        shift = write_bytes (packet vs) r.shift;
      }
  body_received =
      let bits = checked (bits_of vs) in
      recv_bits-stuffed 0 bits (record r { run_count = 0 }) (omega arith) refl
      ∙ ap (λ s. let t : Receiver = record r { run_count = run_after 0 bits; shift = s } in t)
          (ap (λ zs. shift_bits zs r.shift) (bits_of-packet vs)
            ∙ shift_bits-bits_of (packet vs) r.shift (packet-IsBytes vs bytes) idle.fresh)

  pub recv_bits-frame_bits_lem :
      recv_bits (frame_bits (bits_of vs)) r
      ≡ recv_flags (record r { run_count = 0; shift = write_bytes (packet vs) r.shift })
  recv_bits-frame_bits_lem =
      let bits = checked (bits_of vs) in
      let s = write_bytes (packet vs) r.shift in
      let r1 : Receiver = record r { run_count = run_after 0 bits; shift = s } in
      recv_bits-append flag_bits (stuffed 0 bits ++ flag_bits) r
      ∙ ap (recv_bits (stuffed 0 bits ++ flag_bits))
          (recv_bits-flag_bits r idle.run idle.fresh ∙ recv_flags-IsIdle r idle)
      ∙ recv_bits-append (stuffed 0 bits) flag_bits (record r { run_count = 0 })
      ∙ ap (recv_bits flag_bits) body_received
      ∙ recv_bits-flag_bits r1 (run_after-lt 0 bits (omega arith))
          (write_bytes-current (packet vs) r.shift idle.fresh)

  -- Where the index stands behind a frame.
  pub frame_bits_index :
      r.shift.ring_buf_index < u32
      → (recv_bits (frame_bits (bits_of vs)) r).shift.ring_buf_index
        ≡ (r.shift.ring_buf_index + (length vs + 2)) % u32
  unfolding recv_flags
  frame_bits_index small =
      let long = length-packet vs in
      ap (λ t. let u : Receiver = t in u.shift.ring_buf_index) recv_bits-frame_bits_lem
      ∙ write_bytes-index (packet vs) r.shift small
      ∙ ap (λ n. (r.shift.ring_buf_index + n) % u32) long

  module _ (small : r.shift.ring_buf_index < invalid_packet) (fits : length vs < 1022) where
    frame_announced :
        (recv_bits (frame_bits (bits_of vs)) r).events
        ≡ r.events
          ++ (r.shift.ring_buf_index, (write_bytes (packet vs) r.shift).ring_buf_index) ∷ []
    unfolding recv_flags
    frame_announced =
        let s = write_bytes (packet vs) r.shift in
        let index = write_bytes-index (packet vs) r.shift (omega arith) in
        let long = length-packet vs in
        ap (λ t. let u : Receiver = t in u.events) recv_bits-frame_bits_lem
        ∙ packet_sent r.start_packet s.ring_buf_index r.events (omega (arith, idle.start, small))
            (λ same. omega (arith, idle.start, small, index, long))
        ∙ ap (λ k. r.events ++ (k, s.ring_buf_index) ∷ []) idle.start

    -- The packet that a frame announces.
    pub frame_events :
        (recv_bits (frame_bits (bits_of vs)) r).events
        ≡ r.events
          ++ (r.shift.ring_buf_index, (r.shift.ring_buf_index + (length vs + 2)) % u32) ∷ []
    frame_events =
        let index = write_bytes-index (packet vs) r.shift (omega arith) in
        frame_announced
        ∙ ap (λ k. r.events ++ (r.shift.ring_buf_index, k) ∷ [])
            (index ∙ ap (λ n. (r.shift.ring_buf_index + n) % u32) (length-packet vs))

    -- For fewer than 1022 bytes `vs` and a receiver that has just seen a flag and whose index is
    -- not the mark of an invalid packet: the bits of a whole frame of `vs` (flag, stuffed bits
    -- with the check sequence, flag) make `RecvCallback` announce one packet, which starts at the
    -- old index; what is taken for it is `vs` and its check sequence, `ValidatePacket` accepts it,
    -- and the receiver has again just seen a flag.
    pub recv_bits-frame_bits :
        (end_packet : ℕ) × ((recv_bits (frame_bits (bits_of vs)) r).events
          ≡ r.events ++ (r.shift.ring_buf_index, end_packet) ∷ [])
        × (take_packet
              (recv_bits (frame_bits (bits_of vs)) r).shift.ring
              (r.shift.ring_buf_index, end_packet)
            ≡ some (packet vs))
        × (validate_packet (packet vs) ≡ true)
        × IsIdle (recv_bits (frame_bits (bits_of vs)) r)
    unfolding recv_flags
    recv_bits-frame_bits =
        let s = write_bytes (packet vs) r.shift in
        let final = recv_bits-frame_bits_lem in
        let index = write_bytes-index (packet vs) r.shift (omega arith) in
        let long = length-packet vs in
        (
          s.ring_buf_index,
          frame_announced,
          ap
                (λ t.
                  let u : Receiver = t in
                  take_packet u.shift.ring (r.shift.ring_buf_index, s.ring_buf_index))
                final
              ∙ ap (λ k. take_packet s.ring (r.shift.ring_buf_index, k)) index
              ∙ take_packet-write_bytes (packet vs) r.shift idle.size (omega arith)
                  (omega (arith, long)),
          validate_packet-check_bytes vs,
          subst IsIdle (sym final) (record {
            size = length-write_bytes (packet vs) r.shift ∙ idle.size;
            fresh = refl;
            run = omega arith;
            start = refl;
          }),
        )
