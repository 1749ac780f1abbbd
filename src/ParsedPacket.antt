-- ===== src/ParsedPacket.antt =====
-- What a packet is parsed to: the types of Firmware/main/3270.h and the class of PacketParser.h.
use zmachine.Base.{ℕ, Bool, false}
use zmachine.Base.Int.{ℤ, pos, negsuc}

pub data SdlcPacketType : Type 0 where
  information_packet : SdlcPacketType
  recieve_ready : SdlcPacketType
  recieve_not_ready : SdlcPacketType
  reject : SdlcPacketType
  unnumbered_info : SdlcPacketType
  request_initialization_mode : SdlcPacketType
  disconnect_mode : SdlcPacketType
  request_disconnect : SdlcPacketType
  unnumbered_ack : SdlcPacketType
  frame_reject : SdlcPacketType
  xid : SdlcPacketType
  configure : SdlcPacketType
  test : SdlcPacketType
  beacon : SdlcPacketType
  unknown : SdlcPacketType

pub data TransmissionHeaderType : Type 0 where
  fm_data : TransmissionHeaderType
  network_header : TransmissionHeaderType
  data_flow_control : TransmissionHeaderType
  session_control : TransmissionHeaderType

pub record ParsedSdlc : Type 0 where
  pub packet_type : SdlcPacketType
  pub address : ℕ
  pub recieve_count : ℕ
  pub send_count : ℕ
  pub poll_or_final : Bool
  pub recieve_count_valid : Bool
  pub send_count_valid : Bool

pub record ParsedFid2 : Type 0 where
  pub start_of_biu : Bool
  pub end_of_biu : Bool
  pub odai : Bool
  pub expidited : Bool
  pub destination : ℕ
  pub origin : ℕ
  pub sequence : ℕ

pub record ParsedRu : Type 0 where
  pub header_type : TransmissionHeaderType
  pub response_type : ℕ
  pub has_fm_header : Bool
  pub bypass_queues : Bool
  pub pac : Bool

pub record ParsedRequest : Type 0 where
  pub start_of_chain : Bool
  pub end_of_chain : Bool
  pub begin_bracket : Bool
  pub end_bracket : Bool
  pub change_direction : Bool
  pub enciphered : Bool
  pub padded : Bool
  pub conditional_end_bracket : Bool
  pub code_selection : Bool

-- `reason` is kept as its byte, which the source casts to its enum.
pub record ParsedSense : Type 0 where
  pub reason : ℕ
  pub sub_reason : ℕ
  pub specific_info : ℕ

pub record PacketParser : Type 0 where
  pub sdlc : ParsedSdlc
  pub fid2 : ParsedFid2
  pub ru : ParsedRu
  pub req : ParsedRequest
  pub positive_response : Bool
  pub sense : ParsedSense
  pub start_of_data : ℤ
  pub end_of_data : ℤ
  pub packet_good : Bool
  pub sdlc_valid : Bool
  pub fid2_valid : Bool
  pub request_valid : Bool
  pub response_valid : Bool
  pub sense_valid : Bool

-- The constructor
abbrev pub empty_parser : PacketParser
empty_parser = record {
  sdlc = record {
    packet_type = information_packet;
    address = 0;
    recieve_count = 0;
    send_count = 0;
    poll_or_final = false;
    recieve_count_valid = false;
    send_count_valid = false;
  };
  fid2 = record {
    start_of_biu = false;
    end_of_biu = false;
    odai = false;
    expidited = false;
    destination = 0;
    origin = 0;
    sequence = 0;
  };
  ru = record {
    header_type = fm_data;
    response_type = 0;
    has_fm_header = false;
    bypass_queues = false;
    pac = false;
  };
  req = record {
    start_of_chain = false;
    end_of_chain = false;
    begin_bracket = false;
    end_bracket = false;
    change_direction = false;
    enciphered = false;
    padded = false;
    conditional_end_bracket = false;
    code_selection = false;
  };
  positive_response = false;
  sense = record { reason = 0; sub_reason = 0; specific_info = 0 };
  start_of_data = negsuc 0;
  end_of_data = pos 0;
  packet_good = false;
  sdlc_valid = false;
  fid2_valid = false;
  request_valid = false;
  response_valid = false;
  sense_valid = false;
}
