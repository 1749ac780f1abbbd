-- ===== src/PacketParser/Request.antt =====
-- About a request that Firmware/main/PacketBuilder.h builds and PacketParser.cpp parses.
use zmachine.Base.{ℕ, ◌+◌, ◌<◌, ◌≤◌, ◌≡◌, refl, arith, some, List, ◌++◌, length, drop}
use zmachine.SnaStream.{SnaStream, RequestFlags, reset, get_data, send_data, request_packet}
use zmachine.SnaStream.Bytes.{
  reset-Sent, get_data-Sent, low_bytes, length-low_bytes, send_data-Sent,
}
use zmachine.SnaStream.Requests.{request_bytes, request_packet-Sent}
use zmachine.Receiver.Frame.{packet}
use zmachine.PacketParser.{parse}
use zmachine.PacketParser.Built.{parsed_request, parse-request_bytes}

module _ (s : SnaStream) (category destination source : ℕ) (f : RequestFlags)
    (payload stale : List ℕ) (size : length s.history ≡ 4096)
    (recieve_small : s.recieve_count < 256) (send_small : s.send_count < 256) (small : category < 4)
    (fits : length payload ≤ 4085) where
  -- For a stream with a history of 4096 bytes and counts below 256, a category below 4 and data of
  -- 4085 bytes at most: the constructor of `RequestPacket` after a reset, and the data sent behind
  -- it, leave bytes `vs` in the stream. When `vs` and their check sequence are parsed, whatever
  -- follows in the array, `Parse` reads within it, accepts the packet and gives the fields that
  -- the request was built from: counts modulo 8, addresses, sequence number, flags and category
  -- (`parsed_request`), but no change of direction, which it reads from another byte than the one
  -- it was built in. The data starts at byte 11, cut to eight bits.
  pub parse-request_packet :
      (vs : List ℕ) × (get_data
          (send_data payload (request_packet category destination source f (reset s)))
        ≡ some vs)
      × (parse (packet vs ++ stale) (length vs + 2)
          ≡ some (parsed_request s category destination source f (length vs)))
      × (drop 11 vs ≡ low_bytes payload)
  unfolding reset
  parse-request_packet =
      let head_bytes = request_bytes s category destination source f in
      let built =
        request_packet-Sent (reset s) (reset-Sent s size) recieve_small send_small category
          destination source f in
      let whole =
        send_data-Sent payload (request_packet category destination source f (reset s)) head_bytes
          built (omega arith) in
      (
        head_bytes ++ low_bytes payload,
        get_data-Sent (send_data payload (request_packet category destination source f (reset s)))
            (head_bytes ++ low_bytes payload) whole (omega (arith, length-low_bytes payload)),
        parse-request_bytes s category destination source f (low_bytes payload) stale small,
        refl,
      )
