-- ===== src/Tn3270.antt =====
-- The TN3270 client of Firmware/main/TN3270.cpp, behind `Connect`. An access outside an array is
-- `none`, and so is a call that waits for ever: `received` is what the calls of recv will give, an
-- error or bytes, and `selected` what those of select will say. `send` says whether the last of the
-- buffers that were sent was an error. The raw stream and the input, which the code keeps in
-- `DataStream`, are lists of their own. Debug output is left out.
pub mod Sending
pub mod Receiving
pub mod Records
use zmachine.Base.{
  ℕ, zero, suc, ◌+◌, Bool, true, false, not, ◌&&◌, ◌||◌, Option, none, some, List, [], ◌∷◌, ◌++◌,
  ltb, leb, ◌==◌, if◌then◌else◌, get_elem?, take, drop, length,
}
use zmachine.Base.Int.{ℤ, pos, negsuc, ltb_ℤ}
use zmachine.Base.Maybe.{◌>>=◌}
use zmachine.Screen.{Screen, read_input}
use zmachine.Screen.Reply.{set_raw_stream, request_cancel}

-- The verbs and options
abbrev pub eor : ℕ
eor = 0xEF

abbrev pub se : ℕ
se = 0xF0

abbrev pub sb : ℕ
sb = 0xFA

abbrev pub will : ℕ
will = 0xFB

abbrev pub wont : ℕ
wont = 0xFC

abbrev pub do_verb : ℕ
do_verb = 0xFD

abbrev pub dont : ℕ
dont = 0xFE

abbrev pub iac : ℕ
iac = 0xFF

abbrev pub transmit_binary : ℕ
transmit_binary = 0x00

abbrev pub terminal_type : ℕ
terminal_type = 0x18

abbrev pub end_of_record : ℕ
end_of_record = 0x19

-- sizeof(DataStream), sizeof(TX)
abbrev pub data_stream_size : ℕ
data_stream_size = 4096

abbrev pub tx_size : ℕ
tx_size = 256

-- `data_stream` and `tx` are the bytes up to `DataStreamPtr` and `SendPtr`.
pub record Tn3270 : Type 0 where
  pub data_stream : List ℕ
  pub rx : List ℕ
  pub tx : List ℕ
  pub recv_ptr : ℕ
  pub recv_end : ℤ
  pub has_error : Bool
  pub received : List (Option (List ℕ))
  pub selected : List Bool
  pub sent : List (List ℕ)

-- The client with the screen, and the waits for the other task that are still to come.
pub record Session : Type 0 where
  pub client : Tn3270
  pub screen : Screen
  pub waits : List (Screen → Screen × Bool)

-- recv(SocketFD, RX, sizeof(RX), 0), which writes the first bytes of RX.
unfoldable pub recv : Tn3270 → Option Tn3270
recv t = elim t.received [
  | [] ↦ none
  | (none ∷ results) ↦
      some (record t { recv_ptr = 0; recv_end = negsuc 0; has_error = true; received = results })
  | (some bytes ∷ results) ↦
      if leb (length bytes) (length t.rx)
      then some (record t {
        recv_ptr = 0;
        recv_end = pos (length bytes);
        rx = bytes ++ drop (length bytes) t.rx;
        received = results;
      })
      else none
]

unfoldable pub recv_byte : Tn3270 → Option (ℕ × Tn3270)
recv_byte t = do
  filled ← if ltb_ℤ (pos t.recv_ptr) t.recv_end then some t else recv t
  byte ← get_elem? filled.rx filled.recv_ptr
  some (byte, record filled { recv_ptr = filled.recv_ptr + 1 })

-- if (DataStreamPtr < DataStream + sizeof(DataStream))
unfoldable pub store_byte : ℕ → Tn3270 → Tn3270
store_byte char t =
    if ltb (length t.data_stream) data_stream_size
    then record t { data_stream = t.data_stream ++ char ∷ [] }
    else t

module _ (send : List (List ℕ) → Bool) where
  unfoldable pub send_flush : Tn3270 → Tn3270
  send_flush t =
      if ltb 0 (length t.tx)
      then record t {
        has_error = t.has_error || send (t.sent ++ t.tx ∷ []);
        sent = t.sent ++ t.tx ∷ [];
        tx = [];
      }
      else t

  unfoldable pub send_byte : ℕ → Tn3270 → Option Tn3270
  send_byte byte t =
      if ltb (length t.tx) tx_size
      then some (
          let stored : Tn3270 = record t { tx = t.tx ++ byte ∷ [] } in
          if leb tx_size (length stored.tx) then send_flush stored else stored)
      else none

  unfoldable pub send_bytes : List ℕ → Tn3270 → Option Tn3270
  send_bytes [] t = some t
  send_bytes (byte ∷ bytes) t = do sent ← send_byte byte t; send_bytes bytes sent

  -- The loop that sends the input
  unfoldable pub send_input : List ℕ → Tn3270 → Option Tn3270
  send_input [] t = some t
  send_input (byte ∷ input) t = do
    escaped ← if byte == iac then send_byte iac t else some t
    sent ← send_byte byte escaped
    send_input input sent

  unfoldable pub answer_record : List ℕ → Tn3270 → Option Tn3270
  answer_record input t = do
    sent ← send_input input t
    ended ← send_bytes (iac ∷ eor ∷ []) sent
    some (send_flush ended)

  -- Verb == DO and Verb == WILL, with the answer to an option that is known and to another
  unfoldable pub answer_option : ℕ → ℕ → Bool → ℕ → Tn3270 → Option Tn3270
  answer_option accept refuse known option t = do
    sent ← send_bytes (iac ∷ (if known then accept else refuse) ∷ option ∷ []) t
    some (send_flush sent)

  abbrev pub terminal_name : List ℕ
  terminal_name = b'I' ∷ b'B' ∷ b'M' ∷ b'-' ∷ b'3' ∷ b'2' ∷ b'7' ∷ b'8' ∷ b'-' ∷ b'2' ∷ []

  -- Verb == SB
  unfoldable pub subnegotiate : Tn3270 → Option Tn3270
  subnegotiate t = do
    option ← recv_byte t
    elim (option.0 == terminal_type) [
      | false ↦ some option.1
      | true ↦ do
        sub_option ← recv_byte option.1
        if sub_option.0 == 1
            then (do
              sent ←
                  send_bytes (iac ∷ sb ∷ terminal_type ∷ 0 ∷ (terminal_name ++ iac ∷ se ∷ []))
                    sub_option.1
              some (send_flush sent))
            else some sub_option.1
    ]

  -- while (true), a round for each wait
  unfoldable pub read_screen :
      List (Screen → Screen × Bool) → Bool → Tn3270 → Screen → Option Session
  read_screen [] has_cancelled t s = none
  read_screen (wait ∷ waits) has_cancelled t s = do
    read ← read_input wait true false true s
    elim read.1 [
      | (pos zero) ↦ some (record { client = t; screen = read.0; waits = waits })
      | (pos (suc n)) ↦
          if (suc n == length read.0.waiting_input) && leb (suc n) data_stream_size
          then (do
            answered ← answer_record read.0.waiting_input t
            some (record { client = answered; screen = read.0; waits = waits }))
          else none
      | (negsuc n) ↦
          if (n == 0) && not has_cancelled
          then (elim t.selected [
            | [] ↦ none
            | (pending ∷ selected) ↦
                read_screen waits pending (record t { selected = selected })
                  (if pending then request_cancel read.0 else read.0)
          ])
          else read_screen waits has_cancelled t read.0
    ]

  -- Verb == EOR
  unfoldable pub end_record : Session → Option Session
  end_record session =
      let t = session.client in
      let shown =
        if ltb 0 (length t.data_stream) && ltb (length t.data_stream) data_stream_size
        then set_raw_stream (some t.data_stream) session.screen
        else session.screen in
      read_screen session.waits false (record t { data_stream = [] }) shown

  -- Behind IAC
  unfoldable pub process_verb : ℕ → Session → Option Session
  process_verb verb session =
      if verb == do_verb
      then (do
        option ← recv_byte session.client
        let known =
            (option.0 == transmit_binary)
            || ((option.0 == terminal_type) || (option.0 == end_of_record))
        answered ← answer_option will wont known option.0 option.1
        some (record session { client = answered }))
      else if verb == will
      then (do
        option ← recv_byte session.client
        let known = (option.0 == transmit_binary) || (option.0 == end_of_record)
        answered ← answer_option do_verb dont known option.0 option.1
        some (record session { client = answered }))
      else if verb == sb
      then (do answered ← subnegotiate session.client; some (record session { client = answered }))
      else if verb == eor
      then end_record session
      else some session

  -- A round of the loop of Process
  unfoldable pub process_round : Session → Option Session
  process_round session = do
    char ← recv_byte session.client
    if not (char.0 == iac) then some (record session { client = store_byte char.0 char.1 }) else (do
      verb ← recv_byte char.1
      if verb.0 == iac
          then some (record session { client = store_byte char.0 verb.1 })
          else process_verb verb.0 (record session { client = verb.1 }))

  -- while (!bError), with the number of rounds
  unfoldable pub process : ℕ → Session → Option Session
  process zero session = some session
  process (suc n) session =
      if session.client.has_error
      then some (record session { screen = set_raw_stream none session.screen })
      else (do next ← process_round session; process n next)
