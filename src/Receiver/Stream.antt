-- ===== src/Receiver/Stream.antt =====
-- About frames and single flags, one behind the other on the line, in `RecvCallback` of
-- Firmware/main/LowLevel.cpp.
use zmachine.Base.{ℕ, ◌+◌, ◌<◌, ◌≡◌, sym, ap, ◌∙◌, arith, Bool, subst, List, [], ◌∷◌, ◌++◌, length}
use mathlib.Core.List.{append_assoc, append-nil}
use zmachine.Base.Bits.{bits_of}
use zmachine.BitStream.Laws.{IsBytes}
use zmachine.Framing.{flag_bits}
use zmachine.Framing.Sent.{frame_bits}
use zmachine.Receiver.{invalid_packet, Receiver, recv_bits}
use zmachine.Receiver.Bytes.{recv_bits-append}
use zmachine.Receiver.Frame.{
  IsIdle, recv_bits-flag_bits, recv_flags-IsIdle, frame_bits_index, frame_events,
  recv_bits-frame_bits,
}

-- `SendTask` sends flags while there is nothing to send.
pub data LineItem : Type 0 where
  idle_flag : LineItem
  frame : List ℕ → LineItem

abbrev pub line_bits : List LineItem → List Bool
line_bits [] = []
line_bits (idle_flag ∷ items) = flag_bits ++ line_bits items
line_bits (frame vs ∷ items) = frame_bits (bits_of vs) ++ line_bits items

-- The packets of the frames, each with two bytes of check sequence, from an index on.
abbrev pub announced : ℕ → List LineItem → List (ℕ × ℕ)
announced i [] = []
announced i (idle_flag ∷ items) = announced i items
announced i (frame vs ∷ items) = (i, i + (length vs + 2)) ∷ announced (i + (length vs + 2)) items

abbrev pub line_length : List LineItem → ℕ
line_length [] = 0
line_length (idle_flag ∷ items) = line_length items
line_length (frame vs ∷ items) = length vs + 2 + line_length items

abbrev pub Fits : List LineItem → Type 0
Fits [] = Unit {0}
Fits (idle_flag ∷ items) = Fits items
Fits (frame vs ∷ items) = IsBytes vs × (length vs < 1022) × Fits items

flag-IsIdle : (r : Receiver) → IsIdle r → recv_bits flag_bits r ≡ record r { run_count = 0 }
flag-IsIdle r idle = recv_bits-flag_bits r idle.run idle.fresh ∙ recv_flags-IsIdle r idle

after_flag : (r : Receiver) → IsIdle r → IsIdle (record r { run_count = 0 })
after_flag r idle = record {
  size = idle.size;
  fresh = idle.fresh;
  run = omega arith;
  start = idle.start;
}

-- For frames of fewer than 1022 bytes each and single flags, in any order, and a receiver that has
-- just seen a flag, whose index stays below the mark of an invalid packet for all of them: when
-- the bits of the whole line have come, `RecvCallback` has announced one packet for each frame and
-- no other, in order, each behind the one before and two bytes longer than its frame's bytes; the
-- receiver has again just seen a flag.
pub recv_bits-line_bits :
    (items : List LineItem) (r : Receiver)
    → IsIdle r
    → Fits items
    → r.shift.ring_buf_index + line_length items < invalid_packet
    → ((recv_bits (line_bits items) r).events ≡ r.events ++ announced r.shift.ring_buf_index items)
      × IsIdle (recv_bits (line_bits items) r)
unfolding recv_bits
recv_bits-line_bits [] r idle fits room = (sym (append-nil r.events), idle)
recv_bits-line_bits (idle_flag ∷ items) r idle fits room =
    let flagged =
      recv_bits-append flag_bits (line_bits items) r
      ∙ ap (recv_bits (line_bits items)) (flag-IsIdle r idle) in
    let (events, still) =
      recv_bits-line_bits items (record r { run_count = 0 }) (after_flag r idle) fits room in
    (ap (λ t. let u : Receiver = t in u.events) flagged ∙ events, subst IsIdle (sym flagged) still)
recv_bits-line_bits (frame vs ∷ items) r idle (bytes, small, fits) room =
    let i = r.shift.ring_buf_index in
    let r1 = recv_bits (frame_bits (bits_of vs)) r in
    let split = recv_bits-append (frame_bits (bits_of vs)) (line_bits items) r in
    let (_, _, _, _, idle1) = recv_bits-frame_bits vs r bytes idle (omega arith) small in
    let index1 : r1.shift.ring_buf_index ≡ i + (length vs + 2) =
      frame_bits_index vs r bytes idle (omega arith) ∙ omega arith in
    let events1 : r1.events ≡ r.events ++ (i, i + (length vs + 2)) ∷ [] =
      frame_events vs r bytes idle (omega arith) small
      ∙ ap (λ n. r.events ++ (i, n) ∷ []) (omega arith) in
    let (events, still) = recv_bits-line_bits items r1 idle1 fits (omega (arith, index1)) in
    (
      ap (λ t. let u : Receiver = t in u.events) split
          ∙ events
          ∙ ap (λ es. es ++ announced r1.shift.ring_buf_index items) events1
          ∙ append_assoc r.events ((i, i + (length vs + 2)) ∷ [])
              (announced r1.shift.ring_buf_index items)
          ∙ ap (λ n. r.events ++ (i, i + (length vs + 2)) ∷ announced n items) index1,
      subst IsIdle (sym split) still,
    )
