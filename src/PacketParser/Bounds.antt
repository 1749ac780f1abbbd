-- ===== src/PacketParser/Bounds.antt =====
-- About the reads of `PacketParser::Parse` in Firmware/main/PacketParser.cpp, on any bytes.
use zmachine.Base.{
  ℕ, ◌-◌, ◌≤◌, ◌≡◌, refl, arith, true, Option, none, some, List, ◌==◌, ltb, leb, length,
  get_elem?-some, bit_and, Bool-cases, inl, inr,
}
use zmachine.PacketParser.{
  has, parse_sense, parse_ru, parse_header, parse_fid2, parse_packet, parse,
}
use zmachine.ParsedPacket.{PacketParser}

IsSome : Option PacketParser → Type 0
IsSome none = ⊥
IsSome (some p) = Unit {0}

some_of : (o : Option PacketParser) → IsSome o → (p : PacketParser) × (o ≡ some p)
unfolding IsSome
some_of (some p) h = (p, refl)
some_of none h = absurd h

module _ (packet_data : List ℕ) (long : 15 ≤ length packet_data) where
  parse_sense-IsSome : (p : PacketParser) → IsSome (parse_sense packet_data p)
  unfolding IsSome parse_sense
  parse_sense-IsSome p =
      let (b11, e11) = get_elem?-some packet_data 11 (omega arith) in
      let (b12, e12) = get_elem?-some packet_data 12 (omega arith) in
      let (b13, e13) = get_elem?-some packet_data 13 (omega arith) in
      let (b14, e14) = get_elem?-some packet_data 14 (omega arith) in
      rw (e11, parse_sense, e12, e13, e14) tt

  parse_ru-IsSome : (p : PacketParser) → IsSome (parse_ru packet_data p)
  unfolding IsSome parse_ru
  parse_ru-IsSome p =
      let (b8, e8) = get_elem?-some packet_data 8 (omega arith) in
      let (b9, e9) = get_elem?-some packet_data 9 (omega arith) in
      let (b10, e10) = get_elem?-some packet_data 10 (omega arith) in
      elim (Bool-cases (has b8 0x04)) [
        | inl sense ↦ rw (e8, parse_ru, e9, e10, sense) (parse_sense-IsSome _)
        | inr plain ↦ rw (e8, parse_ru, e9, e10, plain) tt
      ]

  parse_header-IsSome :
      (size byte2 : ℕ) (p : PacketParser) → IsSome (parse_header packet_data size byte2 p)
  unfolding IsSome parse_header
  parse_header-IsSome size byte2 p =
      let (b4, e4) = get_elem?-some packet_data 4 (omega arith) in
      let (b5, e5) = get_elem?-some packet_data 5 (omega arith) in
      let (b6, e6) = get_elem?-some packet_data 6 (omega arith) in
      let (b7, e7) = get_elem?-some packet_data 7 (omega arith) in
      elim (Bool-cases (ltb 10 size)) [
        | inl more ↦ rw (e4, parse_header, e5, e6, e7, more) (parse_ru-IsSome _)
        | inr short ↦ rw (e4, parse_header, e5, e6, e7, short) tt
      ]

  parse_fid2-IsSome : (size : ℕ) (p : PacketParser) → IsSome (parse_fid2 packet_data size p)
  unfolding IsSome parse_fid2
  parse_fid2-IsSome size p =
      let (b2, e2) = get_elem?-some packet_data 2 (omega arith) in
      elim (Bool-cases (bit_and b2 0xF0 == 0x20)) [
        | inl fid2 ↦ rw (e2, parse_fid2, fid2) (parse_header-IsSome size b2 p)
        | inr other ↦ rw (e2, parse_fid2, other) tt
      ]

  parse_packet-IsSome : (size : ℕ) → IsSome (parse_packet packet_data size)
  unfolding IsSome parse_packet
  parse_packet-IsSome size =
      let (b0, e0) = get_elem?-some packet_data 0 (omega arith) in
      let (b1, e1) = get_elem?-some packet_data 1 (omega arith) in
      elim (Bool-cases (leb 2 (size - 2))) [
        | inr short ↦ rw (short, parse_packet) tt
        | inl enough ↦ elim (Bool-cases (bit_and b1 1 == 0)) [
          | inr control ↦ rw (enough, parse_packet, e0, e1, control) tt
          | inl numbered ↦ elim (Bool-cases (ltb 7 (size - 2))) [
            | inr few ↦ rw (enough, parse_packet, e0, e1, numbered, few) tt
            | inl more ↦
                rw (enough, parse_packet, e0, e1, numbered, more) (parse_fid2-IsSome (size - 2) _)
          ]
        ]
      ]

  -- On an array of 15 bytes or more, and for any size that is not above the array's, `Parse` with
  -- its check of the check sequence reads within the array and gives a result, whatever the bytes
  -- are.
  pub parse-some :
      (size : ℕ)
      → size ≤ length packet_data
      → (p : PacketParser) × (parse packet_data size ≡ some p)
  unfolding parse
  parse-some size room =
      let (p, e) = some_of (parse_packet packet_data size) (parse_packet-IsSome size) in
      let inside : leb size (length packet_data) ≡ true = ground arith in (p, rw inside e)
