-- ===== src/Network/Opening.antt =====
-- About the requests that open a session in Firmware/main/Network.cpp.
use zmachine.Base.{
  ℕ, ◌+◌, ◌%◌, ◌<◌, ◌≤◌, ◌≡◌, refl, ◌∙◌, arith, Bool, true, false, List, [], ◌∷◌, ◌++◌, length,
  if◌then◌else◌,
}
use zmachine.Base.Int.{pos, negsuc}
use zmachine.SnaStream.{
  SnaStream, RequestFlags, reset, set_sequence, send_byte, send_data, request_packet,
  transmission_packet, send_sequence, info_packet, sdlc_packet,
}
use zmachine.SnaStream.Bytes.{Sent, low_bytes, length-low_bytes, send_data-Sent}
use zmachine.SnaStream.Requests.{request_bytes, request_packet-Sent}
use zmachine.Network.{
  act_pu_data, act_lu_data, bind_data, NetworkStep, state_act_pu, state_act_lu, state_bind,
  state_data_reset, step_before, ScreenOps, Network, plain_request, send_request,
  set_stream_sequence, generate_step,
}

-- A request of the opening: its category, its addresses, its data and its sequence number.
pub record Opening : Type 0 where
  pub category : ℕ
  pub destination : ℕ
  pub source : ℕ
  pub flags : RequestFlags
  pub value : List ℕ
  pub sequence : ℕ

-- The requests that set the sequence number, and what follows each.
pub data Numbered : NetworkStep → NetworkStep → Type 0 where
  act_pu : Numbered state_act_pu state_act_lu
  act_lu : Numbered state_act_lu state_bind
  binding : Numbered state_bind state_data_reset

-- What a stream that has been reset sends of a request.
unfoldable pub opening_stream : Opening → SnaStream → SnaStream
opening_stream o s =
    send_data o.value
      (request_packet o.category o.destination o.source o.flags (set_sequence o.sequence s))

unfoldable pub opening_bytes : Opening → ℕ → ℕ → List ℕ
opening_bytes o recieve send =
    request_bytes
      (record {
        history = [];
        head = 0;
        recieve_count = recieve;
        send_count = send;
        sequence = o.sequence % 0x10000;
      })
      o.category o.destination o.source o.flags
    ++ low_bytes o.value

-- A stream that can send a small packet.
pub record CanSend (s : SnaStream) : Type 0 where
  pub size : length s.history ≡ 4096
  pub recieve : s.recieve_count < 256
  pub send : s.send_count < 256

pub opening_stream-Sent :
    (o : Opening) (s : SnaStream)
    → CanSend s
    → length o.value < 100
    → Sent (opening_stream o (reset s)) (opening_bytes o s.recieve_count s.send_count)
unfolding opening_stream opening_bytes set_sequence reset
opening_stream-Sent o s c small =
    let t = set_sequence o.sequence (reset s) in
    let empty : Sent t [] = record { size = c.size; count = refl; sent = refl } in
    send_data-Sent o.value (request_packet o.category o.destination o.source o.flags t)
      (request_bytes t o.category o.destination o.source o.flags)
      (request_packet-Sent t empty c.recieve c.send o.category o.destination o.source o.flags)
      (omega arith)

pub length-opening_bytes :
    (o : Opening) (recieve send : ℕ)
    → length o.value < 100
    → length (opening_bytes o recieve send) ≤ 4096
unfolding opening_bytes
length-opening_bytes o recieve send small = omega (arith, length-low_bytes o.value)

abbrev pub counts : SnaStream → ℕ × ℕ
counts s = (s.recieve_count, s.send_count)

pub counts-send_data : (bytes : List ℕ) (s : SnaStream) → counts (send_data bytes s) ≡ counts s
unfolding send_data send_byte
counts-send_data [] s = refl
counts-send_data (byte ∷ bytes) s = counts-send_data bytes (send_byte byte s)

counts-send_sequence :
    (expedited : Bool) (s : SnaStream) → counts (send_sequence (negsuc 0) expedited s) ≡ counts s
unfolding send_sequence send_data send_byte
counts-send_sequence true s = refl
counts-send_sequence false s = refl

counts-info_packet :
    (b : Bool) (s : SnaStream)
    → counts (info_packet b s) ≡ (s.recieve_count, (s.send_count + 1) % 256)
unfolding info_packet sdlc_packet send_byte
counts-info_packet b s = refl

pub counts-opening_stream :
    (o : Opening) (s : SnaStream)
    → counts (opening_stream o s) ≡ (s.recieve_count, (s.send_count + 1) % 256)
unfolding opening_stream request_packet transmission_packet set_sequence
counts-opening_stream o s =
    let t = set_sequence o.sequence s in
    let f = o.flags in
    let info = info_packet f.is_final t in
    let header = (0x2C + (if f.expedited then 0x01 else 0)) ∷ 0 ∷ o.destination ∷ o.source ∷ [] in
    counts-send_data o.value (request_packet o.category o.destination o.source f t)
    ∙ counts-send_data _
        (transmission_packet o.destination o.source f.expedited f.is_final (negsuc 0) t)
    ∙ counts-send_sequence f.expedited (send_data header info)
    ∙ counts-send_data header info
    ∙ counts-info_packet f.is_final t

module _ {S : Type 0} (screen_ops : ScreenOps S) where
  abbrev pub opened_by : Opening → NetworkStep → Network S → Network S
  opened_by o next n = record n {
    wait_for_sequence = pos (o.sequence % 0x10000);
    stream = opening_stream o n.stream;
    send_ready_to_recieve = true;
    state = next;
  }

  pub generate_step-Numbered :
      (st next : NetworkStep)
      → Numbered st next
      → (o : Opening) × (length o.value < 100)
        × (step_before next ≡ st)
        × ((n : Network S) → generate_step screen_ops st n ≡ (opened_by o next n, false))
  unfolding generate_step send_request set_stream_sequence set_sequence opening_stream step_before
  generate_step-Numbered _ _ act_pu = (
    record {
      category = 3;
      destination = 0;
      source = 0;
      flags = record plain_request { expedited = true };
      value = act_pu_data;
      sequence = 0x1568;
    },
    omega arith,
    refl,
    λ n. refl,
  )
  generate_step-Numbered _ _ act_lu = (
    record {
      category = 3;
      destination = 2;
      source = 0;
      flags = record plain_request { expedited = true };
      value = act_lu_data;
      sequence = 0x1569;
    },
    omega arith,
    refl,
    λ n. refl,
  )
  generate_step-Numbered _ _ binding = (
    record {
      category = 3;
      destination = 2;
      source = 1;
      flags = plain_request;
      value = bind_data;
      sequence = 0;
    },
    omega arith,
    refl,
    λ n. refl,
  )
