-- ===== src/Network/Resend.antt =====
-- About a request of the opening in Firmware/main/Network.cpp that the terminal has not received.
use zmachine.Base.{
  ℕ, ◌+◌, ◌%◌, ◌<◌, ◌≡◌, ◌≢◌, refl, ap, ◌∙◌, arith, subst, true, false, List, ◌==◌, some,
  length-set, set, bit_or,
}
use zmachine.Base.Int.{pos, negsuc}
use zmachine.ParsedPacket.{PacketParser}
use zmachine.SnaStream.{
  SnaStream, reset, ready_to_recieve, get_data, send_byte, recieve_bits, sdlc_packet,
}
use zmachine.SnaStream.Bytes.{Sent, get_data-Sent}
use zmachine.Network.{
  NetworkStep, step_before, ScreenOps, Network, generate_step, generate_new_packets, process_packet,
  resend,
}
use zmachine.Network.Opening.{
  Opening, Numbered, act_pu, act_lu, binding, CanSend, opening_stream, opening_bytes,
  opening_stream-Sent, length-opening_bytes, counts, counts-opening_stream, opened_by,
  generate_step-Numbered,
}
use zmachine.Network.Session.{IsReady, request_and_poll, generate-IsReady, generate_poll}

module _ {S : Type 0} (screen_ops : ScreenOps S) where
  resend-Numbered :
      (st next : NetworkStep) (n : Network S)
      → Numbered st next
      → n.state ≡ next
      → n.current_line ≡ pos 0
      → resend screen_ops n ≡ record n {
        wait_for_sequence = negsuc 0;
        stream = record n.stream { send_count = (n.stream.send_count + 255) % 256 };
        state = st;
      }
  unfolding resend step_before
  resend-Numbered _ _ n act_pu e line = rw (line, e, resend) refl
  resend-Numbered _ _ n act_lu e line = rw (line, e, resend) refl
  resend-Numbered _ _ n binding e line = rw (line, e, resend) refl

  -- A packet without an error whose number says that the last request is missing.
  pub record Misses (packet : PacketParser) (n : Network S) : Type 0 where
    pub good : packet.packet_good ≡ true
    pub sdlc : packet.sdlc_valid ≡ true
    pub numbered : packet.sdlc.recieve_count_valid ≡ true
    pub other : packet.sdlc.recieve_count ≢ n.stream.send_count % 8

  process_packet-Misses :
      (packet : PacketParser) (value : List ℕ) (n : Network S)
      → Misses packet n
      → n.send_ready_to_recieve ≡ false
      → process_packet screen_ops packet value n ≡ resend screen_ops n
  unfolding process_packet
  process_packet-Misses packet value n m polled =
      let differs : (packet.sdlc.recieve_count == n.stream.send_count % 8) ≡ false =
        ground (arith, m.other) in
      rw (m.good, process_packet, m.sdlc, m.numbered, differs, polled) refl

  first_request :
      (st next : NetworkStep) (o : Opening) (n : Network S)
      → ((m : Network S) → generate_step screen_ops st m ≡ (opened_by screen_ops o next m, false))
      → IsReady n
      → n.state ≡ st
      → generate_new_packets screen_ops n
        ≡ (opened_by screen_ops o next (record n { stream = reset n.stream }), false)
  first_request st next o n step ready e =
      let fresh : Network S = record n { stream = reset n.stream } in
      generate-IsReady screen_ops n ready
      ∙ ap (λ k. generate_step screen_ops k fresh) e
      ∙ step fresh

  -- What a poll leaves of a stream.
  poll_stream :
      (s : SnaStream) (bytes : List ℕ) (recieve send : ℕ)
      → Sent s bytes
      → counts s ≡ (recieve, (send + 1) % 256)
      → recieve < 256
      → send < 256
      → let t = ready_to_recieve true (reset s) in
        let u : SnaStream = record t { send_count = (t.send_count + 255) % 256 } in
        CanSend u × (counts u ≡ (recieve, send))
  unfolding ready_to_recieve sdlc_packet send_byte reset
  poll_stream s bytes recieve send sent e small small' =
      let same = ap (λ c. let d : ℕ × ℕ = c in d.0) e in
      let next = ap (λ c. let d : ℕ × ℕ = c in d.1) e in
      let back : (s.send_count + 255) % 256 ≡ send = omega arith in
      (
        record {
          size =
              length-set (set s.history 0 0x40) 1 (bit_or 0x11 (recieve_bits s.recieve_count) % 256)
              ∙ length-set s.history 0 0x40
              ∙ sent.size;
          recieve = omega (arith, same);
          send = omega arith;
        },
        ground (arith, same, back),
      )

  module _ (st next : NetworkStep) (packet : PacketParser) (value : List ℕ) (n : Network S)
      (opens : Numbered st next) (ready : IsReady n) (state : n.state ≡ st)
      (line : n.current_line ≡ pos 0) (can : CanSend n.stream)
      (misses : Misses packet (request_and_poll screen_ops n)) where
    -- In `StateActPU`, `StateActLU` or `StateBind`, with nothing outstanding, no screen packet
    -- counted, a history of 4096 bytes and counts below 256: when the request and a poll have been
    -- sent and a packet without an error comes whose receive count is not the next send count, the
    -- packet generated next has the same bytes as the request, and the state moves on as after the
    -- request.
    pub process_packet-resend :
        (bytes : List ℕ) × (get_data (generate_new_packets screen_ops n).0.stream ≡ some bytes)
        × (get_data
              (generate_new_packets screen_ops
                (process_packet screen_ops packet value (request_and_poll screen_ops n))).0.stream
            ≡ some bytes)
        × ((generate_new_packets screen_ops
              (process_packet screen_ops packet value (request_and_poll screen_ops n))).0.state
            ≡ next)
    unfolding reset
    process_packet-resend =
        let (o, short, _, step) = generate_step-Numbered screen_ops st next opens in
        let recieve = n.stream.recieve_count in
        let send = n.stream.send_count in
        let fresh : Network S = record n { stream = reset n.stream } in
        let asked = opened_by screen_ops o next fresh in
        let first = first_request st next o n step ready state in
        let sent = opening_stream-Sent o n.stream can short in
        let polled : Network S = record asked {
          stream = ready_to_recieve true (reset asked.stream);
          send_ready_to_recieve = false;
        } in
        let second =
          ap (λ m. generate_new_packets screen_ops m.0) first
          ∙ generate_poll screen_ops asked refl in
        let lost = ap (λ m. m.0) second in
        let stream' : SnaStream = record polled.stream {
          send_count = (polled.stream.send_count + 255) % 256;
        } in
        let undone : Network S = record polled {
          wait_for_sequence = negsuc 0;
          stream = stream';
          state = st;
        } in
        let processed =
          process_packet-Misses packet value (request_and_poll screen_ops n) misses
            (ap (λ m. let k : Network S = m in k.send_ready_to_recieve) lost)
          ∙ ap (resend screen_ops) lost
          ∙ resend-Numbered st next polled opens refl line in
        let (can', same) =
          poll_stream asked.stream (opening_bytes o recieve send) recieve send sent
            (counts-opening_stream o (reset n.stream)) can.recieve can.send in
        let third =
          ap (generate_new_packets screen_ops) processed
          ∙ first_request st next o undone step (record { polled = refl; idle = refl }) refl in
        let sent' = opening_stream-Sent o stream' can' short in
        let equal = ap (λ c. let d : ℕ × ℕ = c in opening_bytes o d.0 d.1) same in
        (
          opening_bytes o recieve send,
          ap (λ m. get_data m.0.stream) first
              ∙ get_data-Sent (opening_stream o (reset n.stream)) (opening_bytes o recieve send)
                  sent (length-opening_bytes o recieve send short),
          ap (λ m. get_data m.0.stream) third
              ∙ get_data-Sent (opening_stream o (reset stream')) (opening_bytes o recieve send)
                  (subst (Sent (opening_stream o (reset stream'))) equal sent')
                  (length-opening_bytes o recieve send short),
          ap (λ m. m.0.state) third,
        )
