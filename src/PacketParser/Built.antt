-- ===== src/PacketParser/Built.antt =====
-- About `PacketParser::Parse` of Firmware/main/PacketParser.cpp on the requests that PacketBuilder.h
-- builds.
use zmachine.Base.{
  ℕ, ◌+◌, ◌-◌, ◌*◌, ◌/◌, ◌%◌, ◌<◌, ◌≡◌, refl, sym, ap, ◌∙◌, arith, Bool, not, true, false, some,
  List, ◌∷◌, ◌++◌, leb, lt→ltb, ◌==◌, if◌then◌else◌, bit_and, take, length, length-append,
}
use zmachine.Base.Int.{ℤ, pos, negsuc, ◌+ℤ◌}
use zmachine.Base.Bits.{bit_val, bits_of}
use zmachine.Crc.{validate_packet}
use zmachine.Crc.Table.{crc_bits}
use zmachine.Crc.CheckBytes.{check_bytes, validate_packet-check_bytes}
use zmachine.Receiver.Frame.{packet, length-packet}
use zmachine.SaveStream.Read.{take-append_self}
use zmachine.SnaStream.{SnaStream, RequestFlags, category_byte}
use zmachine.SnaStream.Bytes.{control_byte}
use zmachine.SnaStream.Requests.{request_bytes}
use zmachine.PacketParser.{
  has, parse, parse_packet, parse_fid2, parse_header, parse_ru, request_header,
}
use zmachine.ParsedPacket.{PacketParser, TransmissionHeaderType, information_packet}
use zmachine.PacketParser.Facts.{
  category_type, header_facts, category_facts, response_bits, byte_facts, response_facts,
  bracket_facts, brackets, biu_facts, is_fid2, fid2_facts, control_facts,
}

-- The parser's result on a request, by what its bytes say.
abbrev parsed_from :
    Bool × TransmissionHeaderType × Bool × Bool × Bool × Bool
    → ℕ × Bool × Bool
    → Bool × Bool × Bool × Bool × Bool × Bool × Bool
    → Bool × Bool × Bool × Bool
    → ℕ × ℕ × Bool
    → ℕ × ℕ × ℕ
    → ℤ
    → PacketParser
parsed_from h r b u (recieve, send, final) (destination, origin, sequence) end_of_data = record {
  sdlc = record {
    packet_type = information_packet;
    address = 0x40;
    recieve_count = recieve;
    send_count = send;
    poll_or_final = final;
    recieve_count_valid = true;
    send_count_valid = true;
  };
  fid2 = record {
    start_of_biu = u.0;
    end_of_biu = u.1;
    odai = u.2;
    expidited = u.3;
    destination = destination;
    origin = origin;
    sequence = sequence;
  };
  ru = record {
    header_type = h.1;
    response_type = r.0;
    has_fm_header = h.2;
    bypass_queues = not r.1;
    pac = r.2;
  };
  req = record {
    start_of_chain = h.4;
    end_of_chain = h.5;
    begin_bracket = b.0;
    end_bracket = b.1;
    change_direction = b.2;
    code_selection = b.3;
    enciphered = b.4;
    padded = b.5;
    conditional_end_bracket = b.6;
  };
  positive_response = false;
  sense = record { reason = 0; sub_reason = 0; specific_info = 0 };
  start_of_data = pos 11;
  end_of_data = end_of_data;
  packet_good = true;
  sdlc_valid = true;
  fid2_valid = true;
  request_valid = true;
  response_valid = false;
  sense_valid = false;
}

parse_fields :
    (control th destination origin high low h8 h9 h10 size : ℕ) (more : List ℕ)
    → let packet_data =
        0x40 ∷ control ∷ th ∷ 0 ∷ destination ∷ origin ∷ high ∷ low ∷ h8 ∷ h9 ∷ h10 ∷ more in
      10 < size
      → validate_packet (take (size + 2) packet_data) ≡ true
      → (bit_and control 1 == 0) ≡ true
      → (bit_and th 0xF0 == 0x20) ≡ true
      → has h8 0x80 ≡ false
      → has h8 0x04 ≡ false
      → parse_packet packet_data (size + 2)
        ≡ some (
            parsed_from
              (header_facts h8)
              (byte_facts h9)
              (bracket_facts h10)
              (biu_facts th)
              (bit_and (control / 32) 7, bit_and (control / 2) 7, has (control / 16) 1)
              (destination, origin, high * 256 + low)
              (pos (size + 2) +ℤ negsuc 1))
unfolding parse_packet parse_fid2 parse_header parse_ru request_header
parse_fields control th destination origin high low h8 h9 h10 size more long good numbered fid2
      request plain =
    let dropped : size + 2 - 2 ≡ size = omega arith in
    let over1 : leb 2 size ≡ true = ground arith in
    let over7 = lt→ltb 7 size (omega arith) in
    let over10 = lt→ltb 10 size long in
    rw (dropped, parse_packet, over1, numbered, over7, fid2, over10, request, plain, good) refl

-- A packet and its check sequence lie in the array, whatever follows.
pub parse-packet :
    (vs stale : List ℕ)
    → parse (packet vs ++ stale) (length vs + 2) ≡ parse_packet (packet vs ++ stale) (length vs + 2)
unfolding parse
parse-packet vs stale =
    let room : leb (length vs + 2) (length (packet vs ++ stale)) ≡ true =
      ground (arith, length-packet vs, length-append (packet vs) stale) in
    rw room refl

pub taken : (vs stale : List ℕ) → validate_packet (take (length vs + 2) (packet vs ++ stale)) ≡ true
taken vs stale =
    ap (λ n. validate_packet (take n (packet vs ++ stale))) (sym (length-packet vs))
    ∙ ap validate_packet (take-append_self (packet vs) stale)
    ∙ validate_packet-check_bytes vs

-- A request as it is parsed. The flag for a change of direction is not read where it is built.
abbrev pub parsed_request : SnaStream → ℕ → ℕ → ℕ → RequestFlags → ℕ → PacketParser
parsed_request s category destination source f size = record {
  sdlc = record {
    packet_type = information_packet;
    address = 0x40;
    recieve_count = s.recieve_count % 8;
    send_count = s.send_count % 8;
    poll_or_final = f.is_final;
    recieve_count_valid = true;
    send_count_valid = true;
  };
  fid2 = record {
    start_of_biu = true;
    end_of_biu = true;
    odai = false;
    expidited = f.expedited;
    destination = destination % 256;
    origin = source % 256;
    sequence = s.sequence % 0x10000;
  };
  ru = record {
    header_type = category_type category;
    response_type = response_bits f.end_of_chain f.change_direction;
    has_fm_header = false;
    bypass_queues = true;
    pac = false;
  };
  req = record {
    start_of_chain = f.start_of_chain;
    end_of_chain = f.end_of_chain;
    begin_bracket = f.start_of_bracket;
    end_bracket = true;
    change_direction = false;
    enciphered = false;
    padded = false;
    conditional_end_bracket = false;
    code_selection = false;
  };
  positive_response = false;
  sense = record { reason = 0; sub_reason = 0; specific_info = 0 };
  start_of_data = pos 11;
  end_of_data = pos size;
  packet_good = true;
  sdlc_valid = true;
  fid2_valid = true;
  request_valid = true;
  response_valid = false;
  sense_valid = false;
}

same_parsed :
    {h h' : Bool × TransmissionHeaderType × Bool × Bool × Bool × Bool} {r r' : ℕ × Bool × Bool}
    {b b' : Bool × Bool × Bool × Bool × Bool × Bool × Bool} {u u' : Bool × Bool × Bool × Bool}
    {c c' : ℕ × ℕ × Bool} {d d' : ℕ × ℕ × ℕ} {e e' : ℤ}
    → h ≡ h'
    → r ≡ r'
    → b ≡ b'
    → u ≡ u'
    → c ≡ c'
    → d ≡ d'
    → e ≡ e'
    → some (parsed_from h r b u c d e) ≡ some (parsed_from h' r' b' u' c' d' e')
same_parsed p1 p2 p3 p4 p5 p6 p7 =
    λ i. some (parsed_from (p1 i) (p2 i) (p3 i) (p4 i) (p5 i) (p6 i) (p7 i))

dropped_check : (n : ℕ) → pos (n + 2) +ℤ negsuc 1 ≡ pos n
unfolding ◌+ℤ◌
dropped_check n = ground arith

module _ (s : SnaStream) (category destination source : ℕ) (f : RequestFlags)
    (payload stale : List ℕ) (small : category < 4) where
  pub parse-request_bytes :
      let vs = request_bytes s category destination source f ++ payload in
      parse (packet vs ++ stale) (length vs + 2)
      ≡ some (parsed_request s category destination source f (length vs))
  parse-request_bytes =
      let vs = request_bytes s category destination source f ++ payload in
      let control = control_byte f.is_final s.recieve_count s.send_count in
      let h8 = category_byte category f.start_of_chain f.end_of_chain % 256 in
      let (numbered, recieve, send, final) =
        control_facts f.is_final s.recieve_count s.send_count in
      let joined : s.sequence / 256 % 256 * 256 + s.sequence % 256 ≡ s.sequence % 0x10000 =
        omega arith in
      let header = category_facts category f.start_of_chain f.end_of_chain small in
      parse-packet vs stale
      ∙ parse_fields control (0x2C + bit_val f.expedited) (destination % 256) (source % 256)
          (s.sequence / 256 % 256) (s.sequence % 256) h8
          (response_bits f.end_of_chain f.change_direction % 256)
          ((if f.start_of_bracket then 0xC0 else 0x40) % 256) (length vs)
          ((payload ++ check_bytes (crc_bits 0xFFFF (bits_of vs))) ++ stale) (omega arith)
          (taken vs stale) numbered (is_fid2 f.expedited) (ap (λ t. t.0) header)
          (ap (λ t. t.3) header)
      ∙ same_parsed header (response_facts f.end_of_chain f.change_direction)
          (brackets f.start_of_bracket) (fid2_facts f.expedited) (ground arith)
          (ap (λ n. (destination % 256, source % 256, n)) joined) (dropped_check (length vs))
