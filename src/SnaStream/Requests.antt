-- ===== src/SnaStream/Requests.antt =====
-- About the bytes of a request of Firmware/main/PacketBuilder.h.
use zmachine.Base.{
  ℕ, ◌+◌, ◌/◌, ◌%◌, ◌<◌, ◌≡◌, refl, ap, ◌∙◌, arith, Bool, true, false, List, [], ◌∷◌, ◌++◌,
  if◌then◌else◌, bit_or, take, length, subst,
}
use zmachine.Base.Int.{negsuc}
use zmachine.Base.Bits.{bit_val}
use zmachine.SnaStream.{
  SnaStream, send_byte, send_data, sdlc_packet, info_packet, send_sequence, transmission_packet,
  RequestFlags, request_packet, category_byte, recieve_bits, send_bits,
}
use zmachine.SnaStream.Bytes.{
  Sent, low_bytes, send_byte-Sent, send_data-Sent, control_byte, info_control,
}

-- The first eight bytes of a packet with a sequence number, and all bytes of a request.
abbrev pub transmission_bytes : SnaStream → ℕ → ℕ → Bool → Bool → List ℕ
transmission_bytes s destination source expedited is_final =
    0x40
    ∷ control_byte is_final s.recieve_count s.send_count
    ∷ (0x2C + bit_val expedited)
    ∷ 0
    ∷ destination % 256
    ∷ source % 256
    ∷ s.sequence / 256 % 256
    ∷ s.sequence % 256
    ∷ []

abbrev pub request_bytes : SnaStream → ℕ → ℕ → ℕ → RequestFlags → List ℕ
request_bytes s category destination source f =
    transmission_bytes s destination source f.expedited f.is_final
    ++ category_byte category f.start_of_chain f.end_of_chain % 256
      ∷ ((if f.end_of_chain then 0x80 else 0) + (if f.change_direction then 0x20 else 0)) % 256
      ∷ (if f.start_of_bracket then 0xC0 else 0x40) % 256
      ∷ []

set_counts-Sent :
    (s t : SnaStream) (bytes : List ℕ)
    → t.history ≡ s.history
    → t.head ≡ s.head
    → Sent s bytes
    → Sent t bytes
set_counts-Sent s t bytes e f h = record {
  size = ap length e ∙ h.size;
  count = f ∙ h.count;
  sent = ap (take t.head) e ∙ ap (λ n. take n s.history) f ∙ h.sent;
}

low_header : (b : Bool) → (0x2C + (if b then 0x01 else 0)) % 256 ≡ 0x2C + bit_val b
low_header true = refl
low_header false = refl

keep_sequence :
    (expedited : Bool) (s : SnaStream) (bytes : List ℕ)
    → Sent s bytes
    → Sent (if expedited then s else record s { sequence = (s.sequence + 1) % 0x10000 }) bytes
keep_sequence true s bytes h = h
keep_sequence false s bytes h = set_counts-Sent s _ bytes refl refl h

module _ (s : SnaStream) (empty : Sent s []) (recieve_small : s.recieve_count < 256)
    (send_small : s.send_count < 256) where
  info_packet-Sent :
      (is_final : Bool)
      → Sent
          (info_packet is_final s)
          (0x40 ∷ control_byte is_final s.recieve_count s.send_count ∷ [])
  unfolding info_packet sdlc_packet send_byte
  info_packet-Sent is_final =
      let s1 = send_byte 0x40 s in
      let next : SnaStream = record s1 { send_count = (s1.send_count + 1) % 256 } in
      let addressed =
        set_counts-Sent s1 next (0x40 ∷ []) refl refl
          (send_byte-Sent 0x40 s [] empty (omega arith)) in
      let counts =
        bit_or (bit_or (if is_final then 0x10 else 0) (recieve_bits s.recieve_count))
          (send_bits s.send_count) in
      let control = control_byte is_final s.recieve_count s.send_count in
      let whole = info_control is_final s.recieve_count s.send_count recieve_small send_small in
      let low : control % 256 ≡ control = ground arith in
      subst (Sent (info_packet is_final s))
        (ap (λ n. 0x40 ∷ n ∷ []) (ap (λ n. n % 256) whole ∙ low))
        (send_byte-Sent counts next (0x40 ∷ []) addressed (omega arith))

  sent_bytes :
      (destination source : ℕ) (expedited is_final : Bool)
      → let header = (0x2C + (if expedited then 0x01 else 0)) ∷ 0 ∷ destination ∷ source ∷ [] in
        let t = send_data header (info_packet is_final s) in
        (0x40 ∷ control_byte is_final s.recieve_count s.send_count ∷ [] ++ low_bytes header)
          ++ low_bytes (t.sequence / 256 % 256 ∷ t.sequence % 256 ∷ [])
        ≡ transmission_bytes s destination source expedited is_final
  unfolding send_data send_byte info_packet sdlc_packet
  sent_bytes destination source expedited is_final =
      let high : s.sequence / 256 % 256 % 256 ≡ s.sequence / 256 % 256 = omega arith in
      let low : s.sequence % 256 % 256 ≡ s.sequence % 256 = omega arith in
      rw (low_header expedited, high, low) refl

  transmission_packet-Sent :
      (destination source : ℕ) (expedited is_final : Bool)
      → Sent
          (transmission_packet destination source expedited is_final (negsuc 0) s)
          (transmission_bytes s destination source expedited is_final)
  unfolding transmission_packet send_sequence
  transmission_packet-Sent destination source expedited is_final =
      let header = (0x2C + (if expedited then 0x01 else 0)) ∷ 0 ∷ destination ∷ source ∷ [] in
      let t = send_data header (info_packet is_final s) in
      let number = t.sequence / 256 % 256 ∷ t.sequence % 256 ∷ [] in
      let start = 0x40 ∷ control_byte is_final s.recieve_count s.send_count ∷ [] in
      let headed =
        send_data-Sent header (info_packet is_final s) start (info_packet-Sent is_final)
          (omega arith) in
      let numbered = send_data-Sent number t (start ++ low_bytes header) headed (omega arith) in
      keep_sequence expedited (send_data number t) _ (
        subst (Sent (send_data number t)) (sent_bytes destination source expedited is_final)
          numbered)

  pub request_packet-Sent :
      (category destination source : ℕ) (f : RequestFlags)
      → Sent
          (request_packet category destination source f s)
          (request_bytes s category destination source f)
  unfolding request_packet
  request_packet-Sent category destination source f =
      send_data-Sent
        (category_byte category f.start_of_chain f.end_of_chain
          ∷ ((if f.end_of_chain then 0x80 else 0) + (if f.change_direction then 0x20 else 0))
          ∷ (if f.start_of_bracket then 0xC0 else 0x40)
          ∷ [])
        (transmission_packet destination source f.expedited f.is_final (negsuc 0) s)
        (transmission_bytes s destination source f.expedited f.is_final)
        (transmission_packet-Sent destination source f.expedited f.is_final) (omega arith)
