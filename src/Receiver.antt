-- ===== src/Receiver.antt =====
-- `RecvCallback` of Firmware/main/LowLevel.cpp, called for every bit on the line, and the way in which
-- `MessageTask` takes a packet from the ring. A `uint32_t` wraps at 2 ^ 32.
pub mod Bytes
pub mod Ring
pub mod Frame
pub mod Line
pub mod Stream
pub mod Safety
use zmachine.Base.{
  ℕ, zero, suc, ◌+◌, ◌-◌, ◌/◌, ◌%◌, Bool, not, true, false, ◌&&◌, Option, none, some, List, [], ◌∷◌,
  ◌++◌, ltb, leb, ◌==◌, if◌then◌else◌, bit_and, bit_or, get_elem?, set,
}

abbrev pub u32 : ℕ
u32 = 0x100000000

-- INVALID_PACKET
abbrev pub invalid_packet : ℕ
invalid_packet = 0xFFFFFFFF

-- RecvRingBuff, RecvCurrentByte and RingBufIndex
pub record Shift : Type 0 where
  pub ring : List ℕ
  pub current_byte : ℕ
  pub ring_buf_index : ℕ

-- `events` are the packets sent to RecvEventQueue, each by its start and its end, in order.
pub record Receiver : Type 0 where
  pub shift : Shift
  pub run_count : ℕ
  pub start_packet : ℕ
  pub events : List (ℕ × ℕ)

-- The end of `RecvCallback`: the bit goes into the byte, and a full byte into the ring.
unfoldable pub shift_bit : Bool → Shift → Shift
shift_bit bit s =
    let byte = bit_or (s.current_byte / 2) (if bit then 0x80 else 0) in
    if bit_and s.current_byte 1 == 0 then record s { current_byte = byte } else record {
      ring = set s.ring (s.ring_buf_index % 1024) (byte % 256);
      current_byte = 0x80;
      ring_buf_index = (s.ring_buf_index + 1) % u32;
    }

-- It's the flags!
unfoldable pub recv_flags : Receiver → Receiver
recv_flags r =
    let end_packet = r.shift.ring_buf_index in
    record r {
      shift = record r.shift { current_byte = 0x80 };
      start_packet = end_packet;
      events =
          if not (r.start_packet == invalid_packet) && not (r.start_packet == end_packet)
          then r.events ++ (r.start_packet, end_packet) ∷ []
          else r.events;
    }

-- A zero, behind a run of ones; `run` is read as an `int`.
unfoldable pub recv_zero : ℕ → Receiver → Receiver
recv_zero run r =
    if leb 5 run && ltb run 0x80000000
    then (if ltb 6 run
        then record r { start_packet = invalid_packet }
        else if run == 6
        then recv_flags r
        else r)
    else record r { shift = shift_bit false r.shift }

unfoldable pub recv_callback : Bool → Receiver → Receiver
recv_callback true r = record r {
  run_count = (r.run_count + 1) % u32;
  shift = shift_bit true r.shift;
}
recv_callback false r = recv_zero r.run_count (record r { run_count = 0 })

-- The bits of the line one after another.
unfoldable pub recv_bits : List Bool → Receiver → Receiver
recv_bits [] r = r
recv_bits (b ∷ bits) r = recv_bits bits (recv_callback b r)

-- for (PacketIndex = 0; PacketIndex < n; PacketIndex++)
unfoldable pub copy_packet : ℕ → List ℕ → ℕ → Option (List ℕ)
copy_packet zero ring start = some []
copy_packet (suc n) ring start = elim (get_elem? ring (start % 1024)) [
  | none ↦ none
  | some byte ↦ elim (copy_packet n ring ((start + 1) % u32)) [
    | none ↦ none
    | some rest ↦ some (byte ∷ rest)
  ]
]

-- PacketData, unless the packet is over the maximal length
unfoldable pub take_packet : List ℕ → ℕ × ℕ → Option (List ℕ)
take_packet ring (start, end_packet) =
    let length_of_packet = (end_packet + u32 - start) % u32 in
    if ltb length_of_packet 1024 then copy_packet length_of_packet ring start else none
