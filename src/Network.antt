-- ===== src/Network.antt =====
-- Firmware/main/Network.cpp: the session with the terminal. The screen is behind the interface that
-- `NetworkState` calls, with its state of any type.
pub mod Session
pub mod Opening
pub mod Resend
use zmachine.Base.{
  ℕ, zero, suc, ◌+◌, ◌%◌, Bool, not, true, false, List, [], ◌∷◌, ◌==◌, ◌&&◌, ◌||◌, if◌then◌else◌,
}
use zmachine.Base.Int.{ℤ, pos, negsuc, ◌+ℤ◌, ◌-ℤ◌, ltb_ℤ, eq_ℤ}
use zmachine.ParsedPacket.{PacketParser}
use zmachine.SnaStream.{
  SnaStream, RequestFlags, reset, set_sequence, increase_recieve_count, send_data, ready_to_recieve,
  request_xid, set_normal_response_mode, request_packet, positive_response_packet,
}

-- EState; `below n` is the value -(n + 1), which `State - 1` can reach.
pub data NetworkStep : Type 0 where
  state_xid : NetworkStep
  state_nrm : NetworkStep
  state_act_pu : NetworkStep
  state_act_lu : NetworkStep
  state_bind : NetworkStep
  state_data_reset : NetworkStep
  state_send_screen : NetworkStep
  state_wait_for_input : NetworkStep
  state_respond : NetworkStep
  state_respond2 : NetworkStep
  below : ℕ → NetworkStep

-- (EState)(State - 1)
unfoldable pub step_before : NetworkStep → NetworkStep
step_before state_xid = below 0
step_before state_nrm = state_xid
step_before state_act_pu = state_nrm
step_before state_act_lu = state_act_pu
step_before state_bind = state_act_lu
step_before state_data_reset = state_bind
step_before state_send_screen = state_data_reset
step_before state_wait_for_input = state_send_screen
step_before state_respond = state_wait_for_input
step_before state_respond2 = state_respond
step_before (below n) = below (n + 1)

abbrev pub is_wait_for_input : NetworkStep → Bool
is_wait_for_input state_wait_for_input = true
is_wait_for_input _ = false

abbrev pub is_respond : NetworkStep → Bool
is_respond state_respond = true
is_respond _ = false

-- What `NetworkState` calls of the screen: SerializeScreen3270, GetScreen3270Packet, ShouldCancelInput,
-- and Process3270Reply with an array, a place in it and a size.
pub record ScreenOps (S : Type 0) : Type 0 where
  pub serialize_screen_3270 : S → S × ℕ
  pub get_screen_3270_packet : S → ℤ → List ℕ
  pub should_cancel_input : S → S × Bool
  pub process_3270_reply : List ℕ → ℤ → ℤ → S → S

pub record Network (S : Type 0) : Type 0 where
  pub state : NetworkStep
  pub stream : SnaStream
  pub processed_packet : ℕ
  pub current_line : ℤ
  pub num_3270_packets : ℕ
  pub wait_for_sequence : ℤ
  pub send_ready_to_recieve : Bool
  pub screen : S

-- RequestPacket's default arguments
abbrev pub plain_request : RequestFlags
plain_request = record {
  start_of_chain = true;
  end_of_chain = true;
  expedited = false;
  is_final = false;
  change_direction = false;
  start_of_bracket = true;
}

-- The data of ACTPU, ACTLU and Bind
abbrev pub act_pu_data : List ℕ
act_pu_data = 0x11 ∷ 0x01 ∷ 0x01 ∷ 0x00 ∷ 0x00 ∷ 0x00 ∷ 0x00 ∷ 0x00 ∷ 0x0A ∷ []

abbrev pub act_lu_data : List ℕ
act_lu_data = 0x0D ∷ 0x01 ∷ 0x01 ∷ []

abbrev pub bind_data : List ℕ
bind_data =
    0x31 ∷ 0x01 ∷ 0x03 ∷ 0x03 ∷ 0xA1 ∷ 0xA1 ∷ 0x30 ∷ 0x80 ∷ 0x00 ∷ 0x01 ∷ 0x85 ∷ 0x85 ∷ 0x0A ∷ 0x00
    ∷ 0x02 ∷ 0x11 ∷ 0x00 ∷ 0x00 ∷ 0xB1 ∷ 0x00 ∷ 0xC0 ∷ 0x00 ∷ 0x00 ∷ 0x01 ∷ 0x00 ∷ 0x00 ∷ 0x00
    ∷ 0x04 ∷ 0xD1 ∷ 0xE2 ∷ 0xC9 ∷ 0xD6 ∷ 0x00 ∷ []

module _ {S : Type 0} (screen_ops : ScreenOps S) where
  -- A request whose answer is waited for, with its data.
  unfoldable pub send_request :
      ℕ → ℕ → ℕ → RequestFlags → List ℕ → NetworkStep → Network S → Network S
  send_request category destination source flags value next n = record n {
    wait_for_sequence = pos n.stream.sequence;
    stream = send_data value (request_packet category destination source flags n.stream);
    send_ready_to_recieve = true;
    state = next;
  }

  unfoldable pub set_stream_sequence : ℕ → Network S → Network S
  set_stream_sequence sequence n = record n { stream = set_sequence sequence n.stream }

  -- case StateSendScreen
  unfoldable pub send_screen : Network S → Network S
  send_screen n =
      let start_of_chain = eq_ℤ n.current_line (pos 0) in
      let (screen, count) =
        if start_of_chain
        then screen_ops.serialize_screen_3270 n.screen
        else (n.screen, n.num_3270_packets) in
      let packet_data = screen_ops.get_screen_3270_packet screen n.current_line in
      let next_line = n.current_line +ℤ pos 1 in
      let end_of_chain = not (ltb_ℤ next_line (pos count)) in
      let flags : RequestFlags = record plain_request {
        start_of_chain = start_of_chain;
        end_of_chain = end_of_chain;
      } in
      send_request 0 2 1 flags packet_data
        (if end_of_chain then state_wait_for_input else state_send_screen)
        (record n {
          screen = screen;
          num_3270_packets = count;
          current_line = if end_of_chain then pos 0 else next_line;
        })

  -- case StateWaitForInput
  unfoldable pub wait_for_input : Network S → Network S
  wait_for_input n =
      let (screen, cancelled) = screen_ops.should_cancel_input n.screen in
      record n {
        stream = ready_to_recieve true n.stream;
        screen = screen;
        state = if cancelled then state_send_screen else state_wait_for_input;
      }

  -- switch (State), with `bWaitForReply`
  unfoldable pub generate_step : NetworkStep → Network S → Network S × Bool
  generate_step state_xid n =
      (record n { stream = request_xid true n.stream; state = state_nrm }, true)
  generate_step state_nrm n =
      (record n { stream = set_normal_response_mode true n.stream; state = state_act_pu }, true)
  generate_step state_act_pu n = (
    send_request 3 0 0 (record plain_request { expedited = true }) act_pu_data state_act_lu
        (set_stream_sequence 0x1568 n),
    false,
  )
  generate_step state_act_lu n = (
    send_request 3 2 0 (record plain_request { expedited = true }) act_lu_data state_bind
        (set_stream_sequence 0x1569 n),
    false,
  )
  generate_step state_bind n = (
    send_request 3 2 1 plain_request bind_data state_data_reset (set_stream_sequence 0x0 n),
    false,
  )
  generate_step state_data_reset n =
      (send_request 3 2 1 plain_request (0xA0 ∷ []) state_send_screen n, false)
  generate_step state_send_screen n = (send_screen n, false)
  generate_step state_wait_for_input n = (wait_for_input n, true)
  generate_step state_respond n = (
    record n {
      stream =
          send_data (0x7D ∷ 0x5D ∷ 0xC3 ∷ 0x11 ∷ 0x5D ∷ 0xC2 ∷ 0xF4 ∷ [])
            (positive_response_packet 0 2 1 (pos n.processed_packet) false false n.stream);
      state = state_respond2;
    },
    false,
  )
  generate_step state_respond2 n = (
    send_request 0 2 1 (record plain_request { start_of_bracket = false }) [] state_send_screen n,
    false,
  )
  generate_step (below _) n = (n, false)

  -- The new state, with `bWaitForReply`; the bytes are `get_data` of its stream.
  unfoldable pub generate_new_packets : Network S → Network S × Bool
  generate_new_packets n =
      let fresh : Network S = record n { stream = reset n.stream } in
      if n.send_ready_to_recieve || not (eq_ℤ n.wait_for_sequence (negsuc 0))
      then (
        record fresh { stream = ready_to_recieve true fresh.stream; send_ready_to_recieve = false },
        true,
      )
      else generate_step n.state fresh

  -- Not got last message so resend
  unfoldable pub resend : Network S → Network S
  resend n =
      let undone : Network S = record n {
        wait_for_sequence = negsuc 0;
        stream = record n.stream { send_count = (n.stream.send_count + 255) % 256 };
      } in
      if ltb_ℤ (pos 0) n.current_line
      then record undone { current_line = n.current_line -ℤ pos 1 }
      else if is_wait_for_input n.state
      then record undone {
        state = state_send_screen;
        current_line = pos n.num_3270_packets -ℤ pos 1;
      }
      else if is_respond n.state
      then undone
      else record undone { state = step_before n.state }

  -- if (Packet.SDLC.bSendCountValid)
  unfoldable pub count_packet : PacketParser → Network S → Network S
  count_packet packet n =
      if packet.sdlc_valid && packet.sdlc.send_count_valid
      then record n { stream = increase_recieve_count n.stream }
      else n

  -- if (Packet.bFID2Valid && WaitForSequence != -1)
  unfoldable pub end_wait : PacketParser → Network S → Network S
  end_wait packet n =
      if packet.fid2_valid && eq_ℤ (pos packet.fid2.sequence) n.wait_for_sequence
      then record n { wait_for_sequence = negsuc 0 }
      else n

  -- if (Packet.bRequestValid && Packet.Req.bChangeDirection)
  unfoldable pub take_reply : PacketParser → List ℕ → Network S → Network S
  take_reply packet value n =
      if packet.request_valid && packet.req.change_direction
      then record n {
        state = state_respond;
        processed_packet = packet.fid2.sequence;
        screen =
            screen_ops.process_3270_reply value packet.start_of_data
              (packet.end_of_data -ℤ packet.start_of_data) n.screen;
      }
      else n

  unfoldable pub process_packet : PacketParser → List ℕ → Network S → Network S
  process_packet packet value n =
      if not packet.packet_good
      then record n { send_ready_to_recieve = true }
      else if packet.sdlc_valid
          && (packet.sdlc.recieve_count_valid
              && not (packet.sdlc.recieve_count == n.stream.send_count % 8))
      then (if n.send_ready_to_recieve then n else resend n)
      else take_reply packet value (end_wait packet (count_packet packet n))
