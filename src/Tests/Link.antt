-- ===== src/Tests/Link.antt =====
-- Runs of the link, the packets and the session of Firmware/main, and their theorems at concrete inputs.
use zmachine.Base.{
  ℕ, zero, suc, ◌+◌, ◌-◌, ◌%◌, ◌<◌, ◌≡◌, refl, arith, Bool, true, false, some, List, [], ◌∷◌, ◌++◌,
  length, replicate, length-replicate, get_elem?, drop,
}
use zmachine.Base.Int.{pos}
use zmachine.Base.Bits.{bits_of}
use zmachine.BitStream.{BitStream, write_bit, read_bit}
use zmachine.BitStream.Laws.{IsBytes, Writes, write_bit-Writes}
use zmachine.BitStream.Reading.{Reads, read_bit-Reads}
use zmachine.Crc.{crc_bytes, validate_packet}
use zmachine.Crc.Table.{crc_bits, crc_bytes-crc_bits}
use zmachine.Crc.CheckBytes.{check_bytes, validate_packet-check_bytes}
use zmachine.Framing.{make_frame}
use zmachine.Framing.Sent.{frame_bits}
use zmachine.Framing.Frame.{sent_bits, make_frame-sent_bits}
use zmachine.Receiver.{
  Receiver, shift_bit, recv_flags, recv_zero, recv_callback, recv_bits, take_packet, u32,
}
use zmachine.Receiver.Frame.{IsIdle, packet, recv_bits-frame_bits}
use zmachine.Receiver.Stream.{LineItem, idle_flag, frame, line_bits, announced, recv_bits-line_bits}
use zmachine.PacketParser.Control.{parsed_poll, parse-ready_to_recieve}
use zmachine.Receiver.Line.{recv_bits-make_frame}
use zmachine.Receiver.Safety.{IsValid, cons-IsBytes, recv_callback-IsValid, take_packet-recv_bits}
use zmachine.SnaStream.{
  SnaStream, RequestFlags, reset, get_data, send_data, request_packet, ready_to_recieve,
}
use zmachine.PacketParser.{parse}
use zmachine.ParsedPacket.{PacketParser}
use zmachine.PacketParser.Built.{parsed_request}
use zmachine.PacketParser.Request.{parse-request_packet}
use zmachine.PacketParser.Bounds.{parse-some}

pub length-zeros : (n : ℕ) → length (replicate {A = ℕ} n 0) ≡ n
length-zeros n = let zero_byte : ℕ = 0 in length-replicate n zero_byte

replicate-IsBytes : (n : ℕ) → IsBytes (replicate n 0)
replicate-IsBytes zero i v e = ground arith
replicate-IsBytes (suc n) zero v e = ground arith
replicate-IsBytes (suc n) (suc i) v e = replicate-IsBytes n i v e

nil-IsBytes : IsBytes []
nil-IsBytes i v e = ground arith

abbrev old_bytes : List ℕ
old_bytes = replicate 3072 0

-- Eight ones in a row, which are stuffed.
abbrev message : List ℕ
message = 0x40 ∷ 0xFF ∷ 0x7E ∷ []

message-IsBytes : IsBytes message
message-IsBytes =
    cons-IsBytes 0x40 (0xFF ∷ 0x7E ∷ []) (omega arith)
      (cons-IsBytes 0xFF (0x7E ∷ []) (omega arith) (cons-IsBytes 0x7E [] (omega arith) nil-IsBytes))

abbrev receiver : Receiver
receiver = record {
  shift = record { ring = replicate 1024 0; current_byte = 0x80; ring_buf_index = 1022 };
  run_count = 0;
  start_packet = 1022;
  events = [];
}

receiver-IsIdle : IsIdle receiver
receiver-IsIdle = record { size = length-zeros 1024; fresh = refl; run = omega arith; start = refl }

receiver-IsValid : IsValid receiver
receiver-IsValid = record {
  shift = record {
    size = length-zeros 1024;
    bytes = replicate-IsBytes 1024;
    byte = omega arith;
    index = omega arith;
  };
  run = omega arith;
  start = omega arith;
  packets = λ i start end_packet e. absurd (ground arith);
}

recv_bits-make_frame_example :
    (s : BitStream) × (end_packet : ℕ) × (make_frame old_bytes old_bytes message ≡ some s)
    × ((recv_bits (sent_bits s) receiver).events ≡ [] ++ (1022, end_packet) ∷ [])
    × (take_packet (recv_bits (sent_bits s) receiver).shift.ring (1022, end_packet)
        ≡ some (packet message))
    × (validate_packet (packet message) ≡ true)
    × IsIdle (recv_bits (sent_bits s) receiver)
recv_bits-make_frame_example =
    recv_bits-make_frame old_bytes old_bytes message receiver (length-zeros 3072)
      (length-zeros 3072) (replicate-IsBytes 3072) (replicate-IsBytes 3072) message-IsBytes
      (omega arith) receiver-IsIdle (omega arith)

recv_bits-frame_bits_example :
    (end_packet : ℕ) × ((recv_bits (frame_bits (bits_of message)) receiver).events
      ≡ [] ++ (1022, end_packet) ∷ [])
    × (take_packet (recv_bits (frame_bits (bits_of message)) receiver).shift.ring (1022, end_packet)
        ≡ some (packet message))
    × (validate_packet (packet message) ≡ true)
    × IsIdle (recv_bits (frame_bits (bits_of message)) receiver)
recv_bits-frame_bits_example =
    recv_bits-frame_bits message receiver message-IsBytes receiver-IsIdle (omega arith)
      (omega arith)

make_frame-sent_bits_example :
    (s : BitStream) × (make_frame old_bytes old_bytes message ≡ some s)
    × (sent_bits s ≡ frame_bits (bits_of message))
make_frame-sent_bits_example =
    make_frame-sent_bits old_bytes old_bytes message (length-zeros 3072) (length-zeros 3072)
      (replicate-IsBytes 3072) (replicate-IsBytes 3072) message-IsBytes (omega arith)

crc_bytes-crc_bits_example : crc_bytes 0xFFFF message ≡ crc_bits 0xFFFF (bits_of message)
crc_bytes-crc_bits_example = crc_bytes-crc_bits 0xFFFF message (omega arith)

validate_packet-check_bytes_example :
    validate_packet (message ++ check_bytes (crc_bits 0xFFFF (bits_of message))) ≡ true
validate_packet-check_bytes_example = validate_packet-check_bytes message

recv_callback-IsValid_example : IsValid (recv_callback true receiver)
recv_callback-IsValid_example = recv_callback-IsValid true receiver receiver-IsValid

-- A byte of ones after a flag, and a flag.
abbrev noise : List Bool
noise =
    true ∷ true ∷ true ∷ true ∷ true ∷ false ∷ true ∷ true ∷ true ∷ false ∷ true ∷ true ∷ true
    ∷ true ∷ true ∷ true ∷ false ∷ []

noise_event : get_elem? (recv_bits noise receiver).events 0 ≡ some (1022, 1023)
unfolding recv_bits recv_callback recv_zero recv_flags shift_bit
noise_event = refl

take_packet-recv_bits_example :
    (vs : List ℕ) × (take_packet (recv_bits noise receiver).shift.ring (1022, 1023) ≡ some vs)
    × (0 < length vs)
    × (length vs ≡ (1023 + u32 - 1022) % u32)
    × IsBytes vs
take_packet-recv_bits_example =
    take_packet-recv_bits noise receiver 0 1022 1023 receiver-IsValid noise_event (omega arith)

abbrev empty_stream : BitStream
empty_stream = record { total_bits = pos 0; current_byte = 0; current_mask = 1; bytes = old_bytes }

empty_stream-Writes : Writes empty_stream []
empty_stream-Writes = record {
  size = length-zeros 3072;
  bound = replicate-IsBytes 3072;
  count = refl;
  place = 0;
  below = omega arith;
  mask = refl;
  v = 0;
  here = refl;
  clear = omega arith;
  written = refl;
}

write_bit-Writes_example :
    (s : BitStream) × (write_bit true empty_stream ≡ some s) × Writes s (true ∷ [])
write_bit-Writes_example = write_bit-Writes empty_stream [] true empty_stream-Writes (omega arith)

abbrev one_bit : BitStream
one_bit = record {
  total_bits = pos 1;
  current_byte = 0;
  current_mask = 1;
  bytes = 1 ∷ replicate 3071 0;
}

one_bit-Reads : Reads one_bit (true ∷ [])
one_bit-Reads = record {
  size = length-zeros 3072;
  bound = cons-IsBytes 1 (replicate 3071 0) (omega arith) (replicate-IsBytes 3071);
  count = refl;
  place = 0;
  below = omega arith;
  mask = refl;
  before = [];
  junk = drop 1 (bits_of (1 ∷ replicate 3071 0));
  whole = refl;
  at = refl;
}

read_bit-Reads_example : (s : BitStream) × (read_bit one_bit ≡ some (true, s)) × Reads s []
read_bit-Reads_example = read_bit-Reads one_bit true [] one_bit-Reads

abbrev sna_stream : SnaStream
sna_stream = record {
  history = replicate 4096 0;
  head = 5;
  recieve_count = 9;
  send_count = 255;
  sequence = 0x1234;
}

abbrev request_flags : RequestFlags
request_flags = record {
  start_of_chain = true;
  end_of_chain = false;
  expedited = false;
  is_final = true;
  change_direction = true;
  start_of_bracket = true;
}

parse-request_packet_example :
    (vs : List ℕ) × (get_data
        (send_data (0xA0 ∷ 0x101 ∷ []) (request_packet 3 2 1 request_flags (reset sna_stream)))
      ≡ some vs)
    × (parse (packet vs ++ 7 ∷ []) (length vs + 2)
        ≡ some (parsed_request sna_stream 3 2 1 request_flags (length vs)))
    × (drop 11 vs ≡ 0xA0 ∷ 1 ∷ [])
parse-request_packet_example =
    parse-request_packet sna_stream 3 2 1 request_flags (0xA0 ∷ 0x101 ∷ []) (7 ∷ [])
      (length-zeros 4096) (omega arith) (omega arith) (omega arith) (omega arith)

parse-some_example : (p : PacketParser) × (parse (replicate 1024 0) 13 ≡ some p)
parse-some_example =
    parse-some (replicate 1024 0) (omega (arith, length-zeros 1024)) 13
      (omega (arith, length-zeros 1024))

-- Two frames with a flag between them.
abbrev items : List LineItem
items = frame message ∷ idle_flag ∷ frame [] ∷ []

recv_bits-line_bits_example :
    ((recv_bits (line_bits items) receiver).events ≡ [] ++ announced 1022 items)
    × IsIdle (recv_bits (line_bits items) receiver)
recv_bits-line_bits_example =
    recv_bits-line_bits items receiver receiver-IsIdle
      (message-IsBytes, omega arith, (nil-IsBytes, omega arith, tt)) (omega arith)

parse-ready_to_recieve_example :
    (vs : List ℕ) × (get_data (ready_to_recieve true (reset sna_stream)) ≡ some vs)
    × (parse (packet vs ++ 7 ∷ []) (length vs + 2) ≡ some (parsed_poll true 9))
parse-ready_to_recieve_example =
    parse-ready_to_recieve sna_stream true (7 ∷ []) (length-zeros 4096) (omega arith)
