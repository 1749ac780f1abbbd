-- ===== src/Tests/Network.antt =====
-- Runs of the session of Firmware/main/Network.cpp, and its theorems at concrete inputs.
use zmachine.Base.{ℕ, ◌≡◌, refl, arith, true, false, some, List, [], ◌∷◌, replicate}
use zmachine.Base.Int.{pos, negsuc}
use zmachine.ParsedPacket.{PacketParser, empty_parser}
use zmachine.SnaStream.{
  send_byte, get_data, reset, set_sequence, send_data, sdlc_packet, ready_to_recieve, request_xid,
  info_packet, send_sequence, transmission_packet, request_packet, increase_recieve_count,
}
use zmachine.Network.{
  NetworkStep, state_xid, state_act_pu, state_act_lu, state_send_screen, ScreenOps, Network,
  send_request, set_stream_sequence, generate_step, generate_new_packets, count_packet, end_wait,
  take_reply, process_packet,
}
use zmachine.Network.Session.{IsReady, request_and_poll, exchange, session_opens}
use zmachine.Network.Opening.{act_pu}
use zmachine.Network.Resend.{process_packet-resend}
use zmachine.Tests.Link.{length-zeros}

-- A screen of one packet.
abbrev no_screen : ScreenOps ℕ
no_screen = record {
  serialize_screen_3270 = λ s. (s, 1);
  get_screen_3270_packet = λ s line. 0xF1 ∷ [];
  should_cancel_input = λ s. (s, false);
  process_3270_reply = λ packet_data start size s. s;
}

abbrev network : NetworkStep → List ℕ → Network ℕ
network state history = record {
  state = state;
  stream = record { history = history; head = 0; recieve_count = 0; send_count = 0; sequence = 0 };
  processed_packet = 0xFFFF;
  current_line = pos 0;
  num_3270_packets = 0;
  wait_for_sequence = negsuc 0;
  send_ready_to_recieve = false;
  screen = 0;
}

-- The first packet asks for the terminal's identification.
first_packet :
    get_data (generate_new_packets no_screen (network state_xid (0 ∷ 0 ∷ []))).0.stream
    ≡ some (0x40 ∷ 0xBF ∷ [])
unfolding generate_new_packets generate_step get_data request_xid sdlc_packet send_byte reset
first_packet = refl

-- An answer with a count and a sequence number.
abbrev answer : ℕ → ℕ → PacketParser
answer count sequence = record empty_parser {
  packet_good = true;
  sdlc_valid = true;
  sdlc = record empty_parser.sdlc {
    recieve_count = count;
    recieve_count_valid = true;
    send_count_valid = true;
  };
  fid2_valid = true;
  fid2 = record empty_parser.fid2 { sequence = sequence };
}

abbrev start : Network ℕ
start = network state_act_pu []

session_opens_example :
    ((exchange no_screen (answer 4 1) [] (
        exchange no_screen (answer 3 0) [] (
          exchange no_screen
            (answer 2 0x1569)
            []
            (exchange no_screen (answer 1 0x1568) [] start)))).state
      ≡ state_send_screen)
    × IsReady (
        exchange no_screen (answer 4 1) [] (
          exchange no_screen (answer 3 0) [] (
            exchange no_screen
              (answer 2 0x1569)
              []
              (exchange no_screen (answer 1 0x1568) [] start))))
unfolding generate_new_packets generate_step send_request set_stream_sequence set_sequence send_data
    send_byte reset request_packet transmission_packet send_sequence info_packet sdlc_packet
    ready_to_recieve process_packet count_packet end_wait take_reply increase_recieve_count
session_opens_example =
    session_opens no_screen (answer 1 0x1568) (answer 2 0x1569) (answer 3 0) (answer 4 1) [] [] []
      [] start (record { polled = refl; idle = refl }) refl
      (record { good = refl; fid2 = refl; counted = refl; answered = refl; no_turn = refl })
      (record { good = refl; fid2 = refl; counted = refl; answered = refl; no_turn = refl })
      (record { good = refl; fid2 = refl; counted = refl; answered = refl; no_turn = refl })
      (record { good = refl; fid2 = refl; counted = refl; answered = refl; no_turn = refl })

abbrev unheard : Network ℕ
unheard = network state_act_pu (replicate 4096 0)

process_packet-resend_example :
    (bytes : List ℕ) × (get_data (generate_new_packets no_screen unheard).0.stream ≡ some bytes)
    × (get_data
          (generate_new_packets no_screen (
            process_packet no_screen (answer 0 0) [] (request_and_poll no_screen unheard))).0.stream
        ≡ some bytes)
    × ((generate_new_packets no_screen
          (process_packet no_screen (answer 0 0) [] (request_and_poll no_screen unheard))).0.state
        ≡ state_act_lu)
unfolding generate_new_packets generate_step send_request set_stream_sequence set_sequence send_data
    send_byte reset request_packet transmission_packet send_sequence info_packet sdlc_packet
    ready_to_recieve
process_packet-resend_example =
    process_packet-resend no_screen state_act_pu state_act_lu (answer 0 0) [] unheard act_pu
      (record { polled = refl; idle = refl }) refl refl
      (record { size = length-zeros 4096; recieve = omega arith; send = omega arith })
      (record { good = refl; sdlc = refl; numbered = refl; other = omega arith })
