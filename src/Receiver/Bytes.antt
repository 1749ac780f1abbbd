-- ===== src/Receiver/Bytes.antt =====
-- About the bits that `RecvCallback` of Firmware/main/LowLevel.cpp puts together to bytes.
use zmachine.Base.{
  ℕ, ◌+◌, ◌/◌, ◌%◌, ◌<◌, ◌≡◌, refl, ap, ◌∙◌, arith, Bool, not, true, false, ◌&&◌, List, [], ◌∷◌,
  ◌++◌, ◌==◌, ==_iff, if◌then◌else◌, bit_and, bit_or, set, Bool-cases, inl, inr, leb,
}
use zmachine.Base.Bits.{grid, grid-at, digits_of}
use zmachine.Framing.Sent.{stuffed}
use zmachine.Framing.Stuffing.{stuffed-five, stuffed-fewer}
use zmachine.Receiver.{u32, Shift, Receiver, shift_bit, recv_zero, recv_callback, recv_bits}

-- The bits go into the byte and the ring without any look at runs of ones.
abbrev pub shift_bits : List Bool → Shift → Shift
shift_bits [] s = s
shift_bits (b ∷ bits) s = shift_bits bits (shift_bit b s)

pub shift_bits-append :
    (xs ys : List Bool) (s : Shift) → shift_bits (xs ++ ys) s ≡ shift_bits ys (shift_bits xs s)
shift_bits-append [] ys s = refl
shift_bits-append (x ∷ xs) ys s = shift_bits-append xs ys (shift_bit x s)

pub recv_bits-append :
    (xs ys : List Bool) (r : Receiver) → recv_bits (xs ++ ys) r ≡ recv_bits ys (recv_bits xs r)
unfolding recv_bits
recv_bits-append [] ys r = refl
recv_bits-append (x ∷ xs) ys r = recv_bits-append xs ys (recv_callback x r)

-- The run of ones at the end, as `RecvCallback` counts it.
abbrev pub run_after : ℕ → List Bool → ℕ
run_after n [] = n
run_after n (false ∷ bits) = run_after 0 bits
run_after n (true ∷ bits) = if n + 1 == 5 then run_after 0 bits else run_after (n + 1) bits

pub run_after-lt : (n : ℕ) (bits : List Bool) → n < 5 → run_after n bits < 5
run_after-lt n [] h = h
run_after-lt n (false ∷ bits) h = run_after-lt 0 bits (omega arith)
run_after-lt n (true ∷ bits) h = elim (Bool-cases (n + 1 == 5)) [
  | inl e ↦ rw e (run_after-lt 0 bits (omega arith))
  | inr e ↦ rw e (run_after-lt (n + 1) bits (ground arith))
]

pub zero_fewer :
    (r : Receiver)
    → r.run_count < 5
    → recv_callback false r ≡ record r { run_count = 0; shift = shift_bit false r.shift }
unfolding recv_callback recv_zero
zero_fewer r h = let few : leb 5 r.run_count ≡ false = ground arith in rw few refl

zero_five : (r : Receiver) → r.run_count ≡ 5 → recv_callback false r ≡ record r { run_count = 0 }
unfolding recv_callback recv_zero
zero_five r e = ap (λ k. recv_zero k (let s : Receiver = record r { run_count = 0 } in s)) e

one_counted :
    (n : ℕ) (r : Receiver)
    → n < 5
    → r.run_count ≡ n
    → recv_callback true r ≡ record r { run_count = n + 1; shift = shift_bit true r.shift }
unfolding recv_callback
one_counted n r h e =
    let one : (r.run_count + 1) % u32 ≡ n + 1 = omega arith in
    ap (λ k. let s : Receiver = record r { run_count = k; shift = shift_bit true r.shift } in s) one

run_after-five :
    (n : ℕ) (bits : List Bool) → (n + 1 == 5) ≡ true → run_after 0 bits ≡ run_after n (true ∷ bits)
run_after-five n bits e = rw e refl

run_after-fewer :
    (n : ℕ) (bits : List Bool)
    → (n + 1 == 5) ≡ false
    → run_after (n + 1) bits ≡ run_after n (true ∷ bits)
run_after-fewer n bits e = rw e refl

-- The stuffed zeros are dropped again.
pub recv_bits-stuffed :
    (n : ℕ) (bits : List Bool) (r : Receiver)
    → n < 5
    → r.run_count ≡ n
    → recv_bits (stuffed n bits) r
      ≡ record r { run_count = run_after n bits; shift = shift_bits bits r.shift }
unfolding recv_bits
recv_bits-stuffed n [] r h e = ap (λ k. let s : Receiver = record r { run_count = k } in s) e
recv_bits-stuffed n (false ∷ bits) r h e =
    ap (recv_bits (stuffed 0 bits)) (zero_fewer r (omega arith))
    ∙ recv_bits-stuffed 0 bits (record r { run_count = 0; shift = shift_bit false r.shift })
        (omega arith) refl
recv_bits-stuffed n (true ∷ bits) r h e =
    let r1 : Receiver = record r { run_count = n + 1; shift = shift_bit true r.shift } in
    let counted = one_counted n r h e in
    let out : ℕ → Receiver = λ k.
      let s : Receiver = record r {
        run_count = k;
        shift = shift_bits bits (shift_bit true r.shift);
      } in
      s in
    elim (Bool-cases (n + 1 == 5)) [
      | inl five ↦
          ap (λ zs. recv_bits zs r) (stuffed-five n bits five)
          ∙ ap (λ s. recv_bits (stuffed 0 bits) (recv_callback false s)) counted
          ∙ ap (recv_bits (stuffed 0 bits)) (zero_five r1 ((==_iff (n + 1) 5).0 five))
          ∙ recv_bits-stuffed 0 bits (record r1 { run_count = 0 }) (omega arith) refl
          ∙ ap out (run_after-five n bits five)
      | inr fewer ↦
          ap (λ zs. recv_bits zs r) (stuffed-fewer n bits fewer)
          ∙ ap (recv_bits (stuffed (n + 1) bits)) counted
          ∙ recv_bits-stuffed (n + 1) bits r1 (ground arith) refl
          ∙ ap out (run_after-fewer n bits fewer)
    ]

next_byte : Bool → ℕ → ℕ
next_byte bit byte = bit_or (byte / 2) (if bit then 0x80 else 0)

-- The bits fill up the byte to `v`, the last of them alone.
fills : ℕ → ℕ → List Bool → Bool
fills v byte [] = false
fills v byte (b ∷ []) = not (bit_and byte 1 == 0) && (next_byte b byte == v)
fills v byte (b ∷ c ∷ bits) = (bit_and byte 1 == 0) && fills v (next_byte b byte) (c ∷ bits)

abbrev pub filled : ℕ → Shift → Shift
filled v s = record {
  ring = set s.ring (s.ring_buf_index % 1024) v;
  current_byte = 0x80;
  ring_buf_index = (s.ring_buf_index + 1) % u32;
}

shift_bit-full :
    (b : Bool) (v : ℕ) (s : Shift)
    → v < 256
    → (bit_and s.current_byte 1 == 0) ≡ false
    → next_byte b s.current_byte ≡ v
    → shift_bit b s ≡ filled v s
unfolding shift_bit next_byte
shift_bit-full b v s small odd e =
    let low : v % 256 ≡ v = omega arith in
    rw (odd, shift_bit) (ap (λ w. filled w s) (ap (λ w. w % 256) e ∙ low))

shift_bit-more :
    (b : Bool) (s : Shift)
    → (bit_and s.current_byte 1 == 0) ≡ true
    → shift_bit b s ≡ record s { current_byte = next_byte b s.current_byte }
unfolding shift_bit next_byte
shift_bit-more b s even = rw (even, shift_bit) refl

shift_bits-fills :
    (v : ℕ) (bits : List Bool) (s : Shift)
    → v < 256
    → fills v s.current_byte bits ≡ true
    → shift_bits bits s ≡ filled v s
unfolding fills
shift_bits-fills v [] s small h = absurd (ground arith)
shift_bits-fills v (b ∷ []) s small h = shift_bit-full b v s small (ground arith) (ground arith)
shift_bits-fills v (b ∷ c ∷ bits) s small h =
    let next = next_byte b s.current_byte in
    ap (shift_bits (c ∷ bits)) (shift_bit-more b s (ground arith))
    ∙ shift_bits-fills v (c ∷ bits) (record s { current_byte = next }) small (ground arith)

byte_fills : ℕ → ℕ → Bool
byte_fills u v = fills v 0x80 (digits_of 8 v)

bytes_fill : grid byte_fills 1 256 ≡ true
unfolding grid byte_fills fills next_byte
bytes_fill = refl

pub shift_bits-byte :
    (v : ℕ) (s : Shift)
    → v < 256
    → s.current_byte ≡ 0x80
    → shift_bits (digits_of 8 v) s ≡ filled v s
unfolding byte_fills
shift_bits-byte v s small e = shift_bits-fills v (digits_of 8 v) s small (
    ap (λ c. fills v c (digits_of 8 v)) e
    ∙ grid-at byte_fills 256 0 v 1 bytes_fill (omega arith) small)
