-- ===== src/PacketParser.antt =====
-- `PacketParser::Parse` of Firmware/main/PacketParser.cpp. `none` is a read outside of the packet's
-- array.
pub mod Facts
pub mod Built
pub mod Request
pub mod Bounds
pub mod Control
use zmachine.Base.{
  ℕ, ◌+◌, ◌-◌, ◌*◌, ◌/◌, ◌%◌, Bool, not, true, false, Option, none, some, List, [], ◌∷◌, leb, ltb,
  ◌==◌, if◌then◌else◌, bit_and, bit_or, get_elem?, take, length, ◌||◌,
}
use zmachine.Base.Int.{ℤ, pos, negsuc, ◌+ℤ◌}
use zmachine.Base.Maybe.{◌>>=◌}
use zmachine.Crc.{validate_packet}
use zmachine.ParsedPacket.{
  SdlcPacketType, TransmissionHeaderType, ParsedSdlc, ParsedFid2, ParsedRu, ParsedRequest,
  ParsedSense, PacketParser, empty_parser, information_packet, recieve_ready, recieve_not_ready,
  reject, unnumbered_info, request_initialization_mode, disconnect_mode, request_disconnect,
  unnumbered_ack, frame_reject, xid, configure, test, beacon, unknown, fm_data, network_header,
  data_flow_control, session_control,
}

-- (byte & mask) != 0
abbrev pub has : ℕ → ℕ → Bool
has byte mask = not (bit_and byte mask == 0)

unfoldable pub header_type_of : ℕ → TransmissionHeaderType
header_type_of byte =
    let masked = bit_and byte 0x60 in
    if masked == 0x00
    then fm_data
    else if masked == 0x20
    then network_header
    else if masked == 0x40
    then data_flow_control
    else session_control

unfoldable pub parse_sense : List ℕ → PacketParser → Option PacketParser
parse_sense packet_data p = do
  reason ← get_elem? packet_data 11
  sub_reason ← get_elem? packet_data 12
  high ← get_elem? packet_data 13
  low ← get_elem? packet_data 14
  some (record p {
    sense_valid = true;
    sense = record { reason = reason; sub_reason = sub_reason; specific_info = high * 256 + low };
    start_of_data = pos 15;
  })

-- The two halves of `if (bRequestValid)`
unfoldable pub request_header : ℕ → ℕ → ℕ → PacketParser → PacketParser
request_header byte8 byte9 byte10 p = record p {
  ru = record p.ru { response_type = bit_or p.ru.response_type (bit_and byte9 0x10) };
  req = record {
    start_of_chain = has byte8 0x02;
    end_of_chain = has byte8 0x01;
    begin_bracket = has byte10 0x80;
    end_bracket = has byte10 0x40;
    change_direction = has byte10 0x20;
    code_selection = has byte10 0x08;
    enciphered = has byte10 0x04;
    padded = has byte10 0x02;
    conditional_end_bracket = has byte10 0x01;
  };
}

unfoldable pub response_header : ℕ → PacketParser → PacketParser
response_header byte9 p = record p { positive_response = bit_and byte9 0x10 == 0 }

-- if (PacketSize > 10)
unfoldable pub parse_ru : List ℕ → PacketParser → Option PacketParser
parse_ru packet_data p = do
  byte8 ← get_elem? packet_data 8
  byte9 ← get_elem? packet_data 9
  byte10 ← get_elem? packet_data 10
  let headed : PacketParser = record p {
    response_valid = has byte8 0x80;
    request_valid = not (has byte8 0x80);
    ru = record {
      header_type = header_type_of byte8;
      has_fm_header = has byte8 0x08;
      response_type = bit_and byte9 0xA0;
      bypass_queues = not (has byte9 0x02);
      pac = has byte9 0x01;
    };
    start_of_data = pos 11;
  }
  let done =
      if has byte8 0x80
      then response_header byte9 headed
      else request_header byte8 byte9 byte10 headed
  if has byte8 0x04 then parse_sense packet_data done else some done

-- if ((PacketData[2] & 0xF0) == 0x20)
unfoldable pub parse_header : List ℕ → ℕ → ℕ → PacketParser → Option PacketParser
parse_header packet_data size byte2 p = do
  byte4 ← get_elem? packet_data 4
  byte5 ← get_elem? packet_data 5
  byte6 ← get_elem? packet_data 6
  byte7 ← get_elem? packet_data 7
  let headed : PacketParser = record p {
    fid2_valid = true;
    fid2 = record {
      start_of_biu = has byte2 0x08;
      end_of_biu = has byte2 0x04;
      odai = has byte2 0x02;
      expidited = has byte2 0x01;
      destination = byte4;
      origin = byte5;
      sequence = byte6 * 256 + byte7;
    };
  }
  if ltb 10 size then parse_ru packet_data headed else some headed

-- if (PacketSize > 7)
unfoldable pub parse_fid2 : List ℕ → ℕ → PacketParser → Option PacketParser
parse_fid2 packet_data size p = do
  byte2 ← get_elem? packet_data 2
  if bit_and byte2 0xF0 == 0x20 then parse_header packet_data size byte2 p else some p

-- switch (PacketType & 0xEF)
unfoldable pub unnumbered_type : ℕ → SdlcPacketType
unnumbered_type masked =
    if masked == 0x03
    then unnumbered_info
    else if masked == 0x07
    then request_initialization_mode
    else if masked == 0x0F
    then disconnect_mode
    else if masked == 0x43
    then request_disconnect
    else if masked == 0x63
    then unnumbered_ack
    else if masked == 0x87
    then frame_reject
    else if masked == 0xAF
    then xid
    else if masked == 0xC7
    then configure
    else if masked == 0xE3
    then test
    else if masked == 0xEF
    then beacon
    else unknown

-- switch (PacketType & 0xF), with whether the receive count is valid
unfoldable pub control_type : ℕ → SdlcPacketType × Bool
control_type control =
    let masked = bit_and control 0xF in
    if masked == 0x01
    then (recieve_ready, true)
    else if masked == 0x05
    then (recieve_not_ready, true)
    else if masked == 0x09
    then (reject, true)
    else (unnumbered_type (bit_and control 0xEF), false)

-- Parse of a packet that lies in its array
unfoldable pub parse_packet : List ℕ → ℕ → Option PacketParser
parse_packet packet_data packet_size =
    let size = packet_size - 2 in
    let checked : PacketParser = record empty_parser {
      packet_good = validate_packet (take packet_size packet_data);
      end_of_data = pos packet_size +ℤ negsuc 1;
    } in
    if leb 2 size
    then (do
      address ← get_elem? packet_data 0
      control ← get_elem? packet_data 1
      let (control_kind, counted) = control_type control
      let numbered = bit_and control 1 == 0
      let p : PacketParser = record checked {
        sdlc_valid = true;
        sdlc = record {
          packet_type = if numbered then information_packet else control_kind;
          address = address;
          recieve_count = bit_and (control / 32) 7;
          send_count = bit_and (control / 2) 7;
          poll_or_final = has (control / 16) 1;
          recieve_count_valid = numbered || counted;
          send_count_valid = numbered;
        };
        start_of_data = if numbered then negsuc 0 else pos 2;
      }
      if numbered then (if ltb 7 size then parse_fid2 packet_data size p else some p) else some p)
    else some checked

-- `ValidatePacket` reads as many bytes as the size says, before anything else is read.
unfoldable pub parse : List ℕ → ℕ → Option PacketParser
parse packet_data packet_size =
    if leb packet_size (length packet_data) then parse_packet packet_data packet_size else none
