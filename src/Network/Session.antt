-- ===== src/Network/Session.antt =====
-- About the opening of a session in Firmware/main/Network.cpp: four requests, each with a poll and an
-- answer.
use zmachine.Base.{
  ℕ, ◌%◌, ◌≡◌, refl, sym, ap, ◌∙◌, Bool, true, false, List, ◌==◌, ==_iff, ◌&&◌, Bool-cases, inl,
  inr,
}
use zmachine.Base.Int.{pos, negsuc, eq_ℤ}
use zmachine.ParsedPacket.{PacketParser}
use zmachine.SnaStream.{reset, ready_to_recieve}
use zmachine.Network.{
  NetworkStep, state_act_pu, state_act_lu, state_bind, state_data_reset, state_send_screen,
  ScreenOps, Network, send_request, generate_step, generate_new_packets, process_packet,
  count_packet, end_wait, take_reply,
}

-- The requests that open a session, and what follows each.
pub data Opens : NetworkStep → NetworkStep → Type 0 where
  act_pu : Opens state_act_pu state_act_lu
  act_lu : Opens state_act_lu state_bind
  binding : Opens state_bind state_data_reset
  data_reset : Opens state_data_reset state_send_screen

module _ {S : Type 0} where
  -- Nothing is waited for, and a request can be sent.
  pub record IsReady (n : Network S) : Type 0 where
    pub polled : n.send_ready_to_recieve ≡ false
    pub idle : n.wait_for_sequence ≡ negsuc 0

  -- A packet without an error that has the expected number and answers what is waited for.
  pub record Answers (packet : PacketParser) (n : Network S) : Type 0 where
    pub good : packet.packet_good ≡ true
    pub fid2 : packet.fid2_valid ≡ true
    pub counted : packet.sdlc.recieve_count ≡ n.stream.send_count % 8
    pub answered : pos packet.fid2.sequence ≡ n.wait_for_sequence
    pub no_turn : packet.request_valid && packet.req.change_direction ≡ false

and_false : (a b : Bool) → (a && (b && false)) ≡ false
and_false true true = refl
and_false true false = refl
and_false false b = refl

module _ {S : Type 0} (screen_ops : ScreenOps S) where
  -- A request and the poll behind it, and these with the answer.
  abbrev pub request_and_poll : Network S → Network S
  request_and_poll n = (generate_new_packets screen_ops (generate_new_packets screen_ops n).0).0

  abbrev pub exchange : PacketParser → List ℕ → Network S → Network S
  exchange packet value n = process_packet screen_ops packet value (request_and_poll n)

  pub generate-IsReady :
      (n : Network S)
      → IsReady n
      → generate_new_packets screen_ops n
        ≡ generate_step screen_ops n.state (record n { stream = reset n.stream })
  unfolding generate_new_packets
  generate-IsReady n ready = rw (ready.polled, ready.idle, generate_new_packets) refl

  pub generate_poll :
      (n : Network S)
      → n.send_ready_to_recieve ≡ true
      → generate_new_packets screen_ops n ≡ (
        record n { stream = ready_to_recieve true (reset n.stream); send_ready_to_recieve = false },
        true,
      )
  unfolding generate_new_packets
  generate_poll n due = rw (due, generate_new_packets) refl

  pub requested :
      (st next : NetworkStep) (n : Network S)
      → Opens st next
      → ((generate_step screen_ops st n).0.state ≡ next)
        × ((generate_step screen_ops st n).0.send_ready_to_recieve ≡ true)
  unfolding generate_step send_request
  requested _ _ n act_pu = (refl, refl)
  requested _ _ n act_lu = (refl, refl)
  requested _ _ n binding = (refl, refl)
  requested _ _ n data_reset = (refl, refl)

  request_and_poll_lem :
      (st next : NetworkStep) (n : Network S)
      → IsReady n
      → n.state ≡ st
      → Opens st next
      → ((request_and_poll n).state ≡ next) × ((request_and_poll n).send_ready_to_recieve ≡ false)
  request_and_poll_lem st next n ready e opens =
      let fresh : Network S = record n { stream = reset n.stream } in
      let first = generate-IsReady n ready ∙ ap (λ k. generate_step screen_ops k fresh) e in
      let (stepped, due) = requested st next fresh opens in
      let second =
        ap (λ m. generate_new_packets screen_ops m.0) first
        ∙ generate_poll (generate_step screen_ops st fresh).0 due in
      (ap (λ m. m.0.state) second ∙ stepped, ap (λ m. m.0.send_ready_to_recieve) second)

  passed :
      (packet : PacketParser) (value : List ℕ) (n : Network S)
      → packet.packet_good ≡ true
      → packet.sdlc.recieve_count ≡ n.stream.send_count % 8
      → process_packet screen_ops packet value n
        ≡ take_reply screen_ops packet value
            (end_wait screen_ops packet (count_packet screen_ops packet n))
  unfolding process_packet
  passed packet value n good counted =
      let same : (packet.sdlc.recieve_count == n.stream.send_count % 8) ≡ true =
        (==_iff _ _).1 counted in
      rw (good, process_packet, same, and_false packet.sdlc_valid packet.sdlc.recieve_count_valid)
        refl

  -- What counting leaves as it is.
  count_packet-same :
      (packet : PacketParser) (n : Network S)
      → ((count_packet screen_ops packet n).state ≡ n.state)
        × ((count_packet screen_ops packet n).wait_for_sequence ≡ n.wait_for_sequence)
        × ((count_packet screen_ops packet n).send_ready_to_recieve ≡ n.send_ready_to_recieve)
  unfolding count_packet
  count_packet-same packet n =
      elim (Bool-cases (packet.sdlc_valid && packet.sdlc.send_count_valid)) [
        | inl e ↦ rw e (refl, refl, refl)
        | inr e ↦ rw e (refl, refl, refl)
      ]

  end_wait-answered :
      (packet : PacketParser) (n : Network S)
      → packet.fid2_valid ≡ true
      → pos packet.fid2.sequence ≡ n.wait_for_sequence
      → end_wait screen_ops packet n ≡ record n { wait_for_sequence = negsuc 0 }
  unfolding end_wait
  end_wait-answered packet n fid2 answered =
      let same = ap (eq_ℤ (pos packet.fid2.sequence)) (sym answered) ∙ (==_iff _ _).1 refl in
      rw (fid2, end_wait, same) refl

  process_packet-Answers :
      (packet : PacketParser) (value : List ℕ) (n : Network S)
      → Answers packet n
      → n.send_ready_to_recieve ≡ false
      → (process_packet screen_ops packet value n).state ≡ n.state
        × IsReady (process_packet screen_ops packet value n)
  unfolding take_reply
  process_packet-Answers packet value n a polled =
      let counted = count_packet screen_ops packet n in
      let (state, wait, due) = count_packet-same packet n in
      let whole : process_packet screen_ops packet value n
          ≡ record counted { wait_for_sequence = negsuc 0 } =
        passed packet value n a.good a.counted
        ∙ rw (a.no_turn, take_reply)
            (end_wait-answered packet counted a.fid2 (a.answered ∙ sym wait)) in
      (
        ap (λ m. let k : Network S = m in k.state) whole ∙ state,
        record {
          polled = ap (λ m. let k : Network S = m in k.send_ready_to_recieve) whole ∙ due ∙ polled;
          idle = ap (λ m. let k : Network S = m in k.wait_for_sequence) whole;
        },
      )

  -- One request
  pub exchange_lem :
      (st next : NetworkStep) (packet : PacketParser) (value : List ℕ) (n : Network S)
      → IsReady n
      → n.state ≡ st
      → Opens st next
      → Answers packet (request_and_poll n)
      → ((exchange packet value n).state ≡ next) × IsReady (exchange packet value n)
  exchange_lem st next packet value n ready e opens a =
      let (stepped, polled) = request_and_poll_lem st next n ready e opens in
      let (kept, ready') = process_packet-Answers packet value (request_and_poll n) a polled in
      (kept ∙ stepped, ready')

  module _ (p1 p2 p3 p4 : PacketParser) (v1 v2 v3 v4 : List ℕ) (n : Network S) (ready : IsReady n)
      (start : n.state ≡ state_act_pu) (a1 : Answers p1 (request_and_poll n))
      (a2 : Answers p2 (request_and_poll (exchange p1 v1 n)))
      (a3 : Answers p3 (request_and_poll (exchange p2 v2 (exchange p1 v1 n))))
      (a4 : Answers p4
        (request_and_poll (exchange p3 v3 (exchange p2 v2 (exchange p1 v1 n))))) where
    -- From `StateActPU` with nothing outstanding, four rounds of a request, a poll and an answer
    -- lead to `StateSendScreen`, again with nothing outstanding. The hypotheses `a1` to `a4` say
    -- that each answer is without an error, has the receive count that is due and the sequence
    -- number waited for, and does not ask for a change of direction.
    pub session_opens :
        ((exchange p4 v4 (exchange p3 v3 (exchange p2 v2 (exchange p1 v1 n)))).state
          ≡ state_send_screen)
        × IsReady (exchange p4 v4 (exchange p3 v3 (exchange p2 v2 (exchange p1 v1 n))))
    session_opens =
        let (s1, r1) = exchange_lem state_act_pu state_act_lu p1 v1 n ready start act_pu a1 in
        let (s2, r2) =
          exchange_lem state_act_lu state_bind p2 v2 (exchange p1 v1 n) r1 s1 act_lu a2 in
        let (s3, r3) =
          exchange_lem state_bind state_data_reset p3 v3 (exchange p2 v2 (exchange p1 v1 n)) r2 s2
            binding a3 in
        exchange_lem state_data_reset state_send_screen p4 v4
          (exchange p3 v3 (exchange p2 v2 (exchange p1 v1 n))) r3 s3 data_reset a4
