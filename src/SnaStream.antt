-- ===== src/SnaStream.antt =====
-- Firmware/main/PacketBuilder.h: the streams that keep what was sent, and the packets that are put
-- together from bytes. A `uint8_t` keeps the low eight bits of what is assigned to it.
pub mod Bytes
pub mod Requests
use zmachine.Base.{
  ℕ, ◌+◌, ◌*◌, ◌/◌, ◌%◌, Bool, true, false, Option, none, some, List, [], ◌∷◌, leb, ltb,
  if◌then◌else◌, bit_and, bit_or, set, take, not,
}
use zmachine.Base.Int.{ℤ, pos, negsuc}

-- RawStream, SDLCInfoStream and SNAStream
pub record SnaStream : Type 0 where
  pub history : List ℕ
  pub head : ℕ
  pub recieve_count : ℕ
  pub send_count : ℕ
  pub sequence : ℕ

unfoldable pub send_byte : ℕ → SnaStream → SnaStream
send_byte byte s = record s {
  history = set s.history (s.head % 4096) (byte % 256);
  head = s.head + 1;
}

-- memcpy of `Head` bytes; `none` reads behind the history
unfoldable pub get_data : SnaStream → Option (List ℕ)
get_data s = if leb s.head 4096 then some (take s.head s.history) else none

unfoldable pub reset : SnaStream → SnaStream
reset s = record s { head = 0 }

unfoldable pub increase_recieve_count : SnaStream → SnaStream
increase_recieve_count s = record s { recieve_count = (s.recieve_count + 1) % 256 }

unfoldable pub set_sequence : ℕ → SnaStream → SnaStream
set_sequence sequence s = record s { sequence = sequence % 0x10000 }

-- SDLCPacket::SendData of a list
unfoldable pub send_data : List ℕ → SnaStream → SnaStream
send_data [] s = s
send_data (byte ∷ bytes) s = send_data bytes (send_byte byte s)

-- The constructor of SDLCPacket
unfoldable pub sdlc_packet : SnaStream → SnaStream
sdlc_packet s = send_byte 0x40 s

abbrev final_flag : Bool → ℕ
final_flag is_final = if is_final then 0x10 else 0

abbrev pub recieve_bits : ℕ → ℕ
recieve_bits count = bit_and (count * 32) 0xE0

abbrev pub send_bits : ℕ → ℕ
send_bits count = bit_and (count * 2) 0x0E

unfoldable pub ready_to_recieve : Bool → SnaStream → SnaStream
ready_to_recieve is_final s =
    let s' = sdlc_packet s in
    send_byte (bit_or (0x01 + final_flag is_final) (recieve_bits s'.recieve_count)) s'

unfoldable pub set_normal_response_mode : Bool → SnaStream → SnaStream
set_normal_response_mode is_final s = send_byte (0x83 + final_flag is_final) (sdlc_packet s)

unfoldable pub request_xid : Bool → SnaStream → SnaStream
request_xid is_final s = send_byte (0xAF + final_flag is_final) (sdlc_packet s)

unfoldable pub info_packet : Bool → SnaStream → SnaStream
info_packet is_final s =
    let s' = sdlc_packet s in
    let counts =
      bit_or (bit_or (final_flag is_final) (recieve_bits s'.recieve_count))
        (send_bits s'.send_count) in
    send_byte counts (record s' { send_count = (s'.send_count + 1) % 256 })

-- The two bytes of the sequence number, from `SequenceOverride` if that is not negative
unfoldable pub send_sequence : ℤ → Bool → SnaStream → SnaStream
send_sequence (pos sequence_override) expedited s =
    send_data (sequence_override / 256 % 256 ∷ sequence_override % 256 ∷ []) s
send_sequence (negsuc _) expedited s =
    let s' = send_data (s.sequence / 256 % 256 ∷ s.sequence % 256 ∷ []) s in
    if expedited then s' else record s' { sequence = (s'.sequence + 1) % 0x10000 }

unfoldable pub transmission_packet : ℕ → ℕ → Bool → Bool → ℤ → SnaStream → SnaStream
transmission_packet destination source expedited is_final sequence_override s =
    send_sequence sequence_override expedited (
      send_data ((0x2C + (if expedited then 0x01 else 0)) ∷ 0 ∷ destination ∷ source ∷ [])
        (info_packet is_final s))

-- The optional arguments of RequestPacket
pub record RequestFlags : Type 0 where
  pub start_of_chain : Bool
  pub end_of_chain : Bool
  pub expedited : Bool
  pub is_final : Bool
  pub change_direction : Bool
  pub start_of_bracket : Bool

abbrev pub category_byte : ℕ → Bool → Bool → ℕ
category_byte category start_of_chain end_of_chain =
    bit_or (bit_or (category * 32) (if start_of_chain then 2 else 0))
      (if end_of_chain then 1 else 0)

unfoldable pub request_packet : ℕ → ℕ → ℕ → RequestFlags → SnaStream → SnaStream
request_packet category destination source f s =
    send_data
      (category_byte category f.start_of_chain f.end_of_chain
        ∷ ((if f.end_of_chain then 0x80 else 0) + (if f.change_direction then 0x20 else 0))
        ∷ (if f.start_of_bracket then 0xC0 else 0x40)
        ∷ [])
      (transmission_packet destination source f.expedited f.is_final (negsuc 0) s)

unfoldable pub positive_response_packet : ℕ → ℕ → ℕ → ℤ → Bool → Bool → SnaStream → SnaStream
positive_response_packet category destination source sequence_override expedited is_final s =
    send_data (bit_or (category * 32) 0x83 ∷ 0x80 ∷ 0x00 ∷ [])
      (transmission_packet destination source expedited is_final sequence_override s)
