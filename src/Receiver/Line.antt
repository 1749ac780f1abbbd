-- ===== src/Receiver/Line.antt =====
-- About a buffer that goes through `CalculateCRC`, `ZeroBitAndFlagInsertion` and `RecvCallback` of
-- Firmware/main/LowLevel.cpp, and through `ValidatePacket` of crc.cpp.
use zmachine.Base.{ℕ, ◌<◌, ◌≡◌, sym, arith, subst, true, some, List, [], ◌∷◌, ◌++◌, length}
use zmachine.BitStream.{BitStream}
use zmachine.BitStream.Laws.{IsBytes}
use zmachine.Crc.{validate_packet}
use zmachine.Framing.{make_frame}
use zmachine.Framing.Frame.{sent_bits, make_frame-sent_bits}
use zmachine.Receiver.{invalid_packet, Receiver, recv_bits, take_packet}
use zmachine.Receiver.Frame.{IsIdle, packet, recv_bits-frame_bits}

module _ (old_a old_b vs : List ℕ) (r : Receiver) (size_a : length old_a ≡ 3072)
    (size_b : length old_b ≡ 3072) (bytes_a : IsBytes old_a) (bytes_b : IsBytes old_b)
    (bytes : IsBytes vs) (fits : length vs < 1022) (idle : IsIdle r)
    (small : r.shift.ring_buf_index < invalid_packet) where
  -- For a buffer of fewer than 1022 bytes, two arrays of 3072 bytes that hold anything, and a
  -- receiver that has just seen a flag and whose index is not the mark of an invalid packet:
  -- `MessageTask`'s code makes a frame `s`; when its bits have come one by one to `RecvCallback`,
  -- one more packet is announced, which starts at the old index; what is taken from the ring for
  -- it is the buffer and two bytes of check sequence, `ValidatePacket` accepts them, and the
  -- receiver has again just seen a flag.
  pub recv_bits-make_frame :
      (s : BitStream) × (end_packet : ℕ) × (make_frame old_a old_b vs ≡ some s)
      × ((recv_bits (sent_bits s) r).events ≡ r.events ++ (r.shift.ring_buf_index, end_packet) ∷ [])
      × (take_packet (recv_bits (sent_bits s) r).shift.ring (r.shift.ring_buf_index, end_packet)
          ≡ some (packet vs))
      × (validate_packet (packet vs) ≡ true)
      × IsIdle (recv_bits (sent_bits s) r)
  recv_bits-make_frame =
      let (s, framed, sent) =
        make_frame-sent_bits old_a old_b vs size_a size_b bytes_a bytes_b bytes (omega arith) in
      let (end_packet, events, taken, valid, still) =
        recv_bits-frame_bits vs r bytes idle small fits in
      (
        s,
        end_packet,
        framed,
        subst
            (λ zs. (recv_bits zs r).events ≡ r.events ++ (r.shift.ring_buf_index, end_packet) ∷ [])
            (sym sent) events,
        subst
            (λ zs.
              take_packet (recv_bits zs r).shift.ring (r.shift.ring_buf_index, end_packet)
              ≡ some (packet vs))
            (sym sent) taken,
        valid,
        subst (λ zs. IsIdle (recv_bits zs r)) (sym sent) still,
      )
