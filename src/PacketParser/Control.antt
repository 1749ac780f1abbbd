-- ===== src/PacketParser/Control.antt =====
-- About the poll that Firmware/main/PacketBuilder.h builds, `SDLCReadyToRecieve`, and PacketParser.cpp
-- parses.
use zmachine.Base.{
  ℕ, ◌+◌, ◌*◌, ◌/◌, ◌%◌, ◌<◌, ◌≡◌, refl, ap, ◌∙◌, arith, subst, Bool, not, true, false, ◌&&◌, some,
  List, [], ◌∷◌, ◌++◌, ◌==◌, if◌then◌else◌, ltb, length, bit_and, bit_or,
}
use zmachine.Base.Int.{pos, ◌+ℤ◌}
use zmachine.Base.Bits.{grid, grid-at, bit_val}
use zmachine.Receiver.Frame.{packet}
use zmachine.SnaStream.{
  SnaStream, reset, get_data, send_byte, sdlc_packet, recieve_bits, ready_to_recieve,
}
use zmachine.SnaStream.Bytes.{Sent, reset-Sent, get_data-Sent, send_byte-Sent}
use zmachine.PacketParser.{control_type, parse, parse_packet}
use zmachine.ParsedPacket.{PacketParser, recieve_ready, empty_parser}
use zmachine.PacketParser.Built.{taken, parse-packet}

abbrev poll_byte : ℕ → ℕ → ℕ
poll_byte k count = bit_or (0x01 + k * 0x10) (recieve_bits count)

poll_holds : ℕ → ℕ → Bool
poll_holds k count =
    let c = poll_byte k count in
    ltb c 256
    && ((bit_and c 0xF == 0x01)
        && (not (bit_and c 1 == 0)
            && ((bit_and (c / 32) 7 == count % 8)
                && ((bit_and (c / 16) 1 == k) && (bit_and (c / 2) 7 == 0)))))

poll_table : grid poll_holds 2 256 ≡ true
unfolding grid poll_holds
poll_table = refl

-- What the parser reads of the control byte.
poll_facts :
    (k count : ℕ)
    → k < 2
    → count < 256
    → (poll_byte k count < 256)
      × (bit_and (poll_byte k count) 0xF ≡ 0x01)
      × ((bit_and (poll_byte k count) 1 == 0) ≡ false)
      × (bit_and (poll_byte k count / 32) 7 ≡ count % 8)
      × (bit_and (poll_byte k count / 16) 1 ≡ k)
      × (bit_and (poll_byte k count / 2) 7 ≡ 0)
unfolding poll_holds
poll_facts k count hk hc = ground (arith, grid-at poll_holds 256 k count 2 poll_table hk hc)

flag_kept : (b : Bool) → not (bit_val b == 0) ≡ b
flag_kept true = refl
flag_kept false = refl

-- A poll as it is parsed.
abbrev pub parsed_poll : Bool → ℕ → PacketParser
parsed_poll is_final count = record empty_parser {
  packet_good = true;
  sdlc_valid = true;
  sdlc = record {
    packet_type = recieve_ready;
    address = 0x40;
    recieve_count = count % 8;
    send_count = 0;
    poll_or_final = is_final;
    recieve_count_valid = true;
    send_count_valid = false;
  };
  start_of_data = pos 2;
  end_of_data = pos 2;
}

parse_poll :
    (is_final : Bool) (count : ℕ) (stale : List ℕ)
    → count < 256
    → parse (packet (0x40 ∷ poll_byte (bit_val is_final) count ∷ []) ++ stale) 4
      ≡ some (parsed_poll is_final count)
unfolding parse_packet control_type ◌+ℤ◌
parse_poll is_final count stale small =
    let c = poll_byte (bit_val is_final) count in
    let good = taken (0x40 ∷ c ∷ []) stale in
    let (below, kind, odd, received, final, sent) =
      poll_facts (bit_val is_final) count (ground arith) small in
    let flag = ap (λ n. not (n == 0)) final ∙ flag_kept is_final in
    parse-packet (0x40 ∷ c ∷ []) stale
    ∙ rw (good, parse_packet, kind, odd, received, sent, flag) refl

final_value : (b : Bool) → (if b then 0x10 else 0) ≡ bit_val b * 0x10
final_value true = refl
final_value false = refl

module _ (s : SnaStream) (is_final : Bool) (stale : List ℕ) (size : length s.history ≡ 4096)
    (small : s.recieve_count < 256) where
  poll-Sent :
      Sent
        (ready_to_recieve is_final (reset s))
        (0x40 ∷ poll_byte (bit_val is_final) s.recieve_count ∷ [])
  unfolding ready_to_recieve sdlc_packet reset send_byte
  poll-Sent =
      let c = poll_byte (bit_val is_final) s.recieve_count in
      let addressed = send_byte-Sent 0x40 (reset s) [] (reset-Sent s size) (omega arith) in
      let built = bit_or (0x01 + (if is_final then 0x10 else 0)) (recieve_bits s.recieve_count) in
      let same : built % 256 ≡ c =
        ap (λ n. bit_or (0x01 + n) (recieve_bits s.recieve_count) % 256) (final_value is_final)
        ∙ (let low = (poll_facts (bit_val is_final) s.recieve_count (ground arith) small).0 in
            let e : c % 256 ≡ c = omega arith in e) in
      subst (Sent (ready_to_recieve is_final (reset s))) (ap (λ n. 0x40 ∷ n ∷ []) same)
        (send_byte-Sent built (send_byte 0x40 (reset s)) (0x40 ∷ []) addressed (omega arith))

  -- For a stream with a history of 4096 bytes and a receive count below 256: the constructor of
  -- `SDLCReadyToRecieve` after a reset leaves two bytes in the stream; when they and their check
  -- sequence are parsed, whatever follows in the array, `Parse` accepts a poll with the receive
  -- count modulo 8 and the final flag that was given.
  pub parse-ready_to_recieve :
      (vs : List ℕ) × (get_data (ready_to_recieve is_final (reset s)) ≡ some vs)
      × (parse (packet vs ++ stale) (length vs + 2) ≡ some (parsed_poll is_final s.recieve_count))
  parse-ready_to_recieve =
      let vs = 0x40 ∷ poll_byte (bit_val is_final) s.recieve_count ∷ [] in
      (
        vs,
        get_data-Sent (ready_to_recieve is_final (reset s)) vs poll-Sent (omega arith),
        parse_poll is_final s.recieve_count stale small,
      )
