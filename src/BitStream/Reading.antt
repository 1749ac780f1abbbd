-- ===== src/BitStream/Reading.antt =====
-- About reading `CBitStream` of Firmware/main/LowLevel.cpp, against the list of the bits to come.
use zmachine.Base.{
  ℕ, zero, suc, ◌+◌, ◌-◌, ◌*◌, ◌%◌, ◌<◌, ◌≤◌, ◌≡◌, refl, sym, ap, ◌∙◌, arith, Bool, not, some, List,
  [], ◌∷◌, ◌++◌, ◌==◌, ==_iff, get_elem?, length, take, drop, bit_and, length-append,
  get_elem?-append_high, get_elem?-some, Bool-cases, inl, inr, drop-get_elem?,
}
use mathlib.Core.List.{append_assoc}
use zmachine.Base.Int.{pos, negsuc, ◌+ℤ◌}
use zmachine.Base.Bits.{digits_of, bits_of}
use zmachine.Base.XorLaws.{two_to}
use zmachine.SaveStream.Read.{length-drop, take-append-drop}
use zmachine.BitStream.{BitStream, read_bit, flush, of_bytes}
use zmachine.BitStream.Digits.{
  shr, length-bits_of, digits_of-add, bits_of-append, bit_and-two_to, bits_of-at,
}
use zmachine.BitStream.Laws.{IsBytes, Writes, mask-last, mask-next}

-- The bits `rs` are still to be read.
pub record Reads (s : BitStream) (rs : List Bool) : Type 0 where
  pub size : length s.bytes ≡ 3072
  pub bound : IsBytes s.bytes
  pub count : s.total_bits ≡ pos (length rs)
  pub place : ℕ
  pub below : place < 8
  pub mask : s.current_mask ≡ two_to place
  pub before : List Bool
  pub junk : List Bool
  pub whole : bits_of s.bytes ≡ before ++ (rs ++ junk)
  pub at : length before ≡ 8 * s.current_byte + place

-- `Flush` turns a stream that was written into one that is read from its start.
pub flush-Reads : (s : BitStream) (xs : List Bool) → Writes s xs → Reads (flush s) xs
unfolding flush
flush-Reads s xs w =
    let cur = s.current_byte in
    let rest = 8 - w.place in
    let front = bits_of (take cur s.bytes) in
    let back = bits_of (drop (cur + 1) s.bytes) in
    let low = digits_of w.place w.v in
    let high = digits_of rest (shr w.place w.v) in
    let full : w.place + rest ≡ 8 = omega (arith, w.below) in
    let byte : low ++ high ≡ digits_of 8 w.v =
      sym (digits_of-add w.place rest w.v) ∙ ap (λ n. digits_of n w.v) full in
    let parts =
      sym (take-append-drop cur s.bytes)
      ∙ ap (λ zs. take cur s.bytes ++ zs) (drop-get_elem? s.bytes cur w.v w.here) in
    record {
      size = w.size;
      bound = w.bound;
      count = w.count;
      place = 0;
      below = omega arith;
      mask = refl;
      before = [];
      junk = high ++ back;
      whole =
          ap bits_of parts
          ∙ bits_of-append (take cur s.bytes) (w.v ∷ drop (cur + 1) s.bytes)
          ∙ ap (λ zs. front ++ (zs ++ back)) (sym byte)
          ∙ ap (λ zs. front ++ zs) (append_assoc low high back)
          ∙ sym (append_assoc front low (high ++ back))
          ∙ ap (λ zs. zs ++ (high ++ back)) (sym w.written);
      at = refl;
    }

pub append-IsBytes : (xs ys : List ℕ) → IsBytes xs → IsBytes ys → IsBytes (xs ++ ys)
append-IsBytes [] ys hx hy i v e = hy i v e
append-IsBytes (x ∷ xs) ys hx hy zero v e = hx 0 v e
append-IsBytes (x ∷ xs) ys hx hy (suc i) v e =
    append-IsBytes xs ys (λ j w f. hx (suc j) w f) hy i v e

drop-IsBytes : (n : ℕ) (xs : List ℕ) → IsBytes xs → IsBytes (drop n xs)
drop-IsBytes zero xs h = h
drop-IsBytes (suc n) [] h = h
drop-IsBytes (suc n) (x ∷ xs) h = drop-IsBytes n xs (λ j w f. h (suc j) w f)

-- A constructed stream is read from its start after `Flush`.
pub of_bytes-Reads :
    (old vs : List ℕ)
    → length old ≡ 3072
    → length vs ≤ 3072
    → IsBytes old
    → IsBytes vs
    → (s : BitStream) × (of_bytes old vs ≡ some s) × Reads (flush s) (bits_of vs)
unfolding of_bytes flush
of_bytes-Reads old vs size fits old_bytes new_bytes =
    let whole_size : length (vs ++ drop (length vs) old) ≡ 3072 =
      omega (arith, length-append vs (drop (length vs) old), length-drop (length vs) old) in
    (
      record {
        total_bits = pos (8 * length vs);
        current_byte = length vs;
        current_mask = 1;
        bytes = vs ++ drop (length vs) old;
      },
      ground arith,
      record {
        size = whole_size;
        bound =
            append-IsBytes vs (drop (length vs) old) new_bytes
              (drop-IsBytes (length vs) old old_bytes);
        count = ap pos (sym (length-bits_of vs));
        place = 0;
        below = omega arith;
        mask = refl;
        before = [];
        junk = bits_of (drop (length vs) old);
        whole = bits_of-append vs (drop (length vs) old);
        at = refl;
      },
    )

-- The byte at hand and its bit.
next_bit :
    (s : BitStream) (b : Bool) (rs : List Bool) (r : Reads s (b ∷ rs))
    → (v : ℕ) × (get_elem? s.bytes s.current_byte ≡ some v)
      × (not (bit_and v s.current_mask == 0) ≡ b)
next_bit s b rs r =
    let cur = s.current_byte in
    let long = length-bits_of s.bytes in
    let split = ap length r.whole ∙ length-append r.before (b ∷ (rs ++ r.junk)) in
    let (v, here) = get_elem?-some s.bytes cur (omega (arith, long, split, r.at)) in
    let small = r.bound cur v here in
    let bit = bits_of-at s.bytes cur r.place v r.below here in
    let there =
      ap (λ zs. get_elem? zs (8 * cur + r.place)) r.whole
      ∙ get_elem?-append_high r.before (b ∷ (rs ++ r.junk)) (8 * cur + r.place) 0
          (omega (arith, r.at)) in
    let tested = bit_and-two_to r.place v r.below small in
    (v, here, ap (λ m. not (bit_and v m == 0)) r.mask ∙ tested ∙ ground (arith, bit, there))

-- On a stream with the bits `b`, then `rs` still to be read: `ReadBit` stays within the array,
-- gives `b`, and leaves `rs` to be read.
pub read_bit-Reads :
    (s : BitStream) (b : Bool) (rs : List Bool)
    → Reads s (b ∷ rs)
    → (s' : BitStream) × (read_bit s ≡ some (b, s')) × Reads s' rs
unfolding read_bit ◌+ℤ◌
read_bit-Reads s b rs r =
    let cur = s.current_byte in
    let (v, here, bit) = next_bit s b rs r in
    let count' = ap (λ n. n +ℤ negsuc 0) r.count ∙ ground arith in
    let whole' = r.whole ∙ sym (append_assoc r.before (b ∷ []) (rs ++ r.junk)) in
    let longer = length-append r.before (b ∷ []) in
    elim (Bool-cases (r.place == 7)) [
      | inl last ↦
          let full : r.place ≡ 7 = (==_iff r.place 7).0 last in
          let ends = ap (λ m. m == 0x80) r.mask ∙ mask-last r.place full in
          (
            record s {
              total_bits = s.total_bits +ℤ negsuc 0;
              current_mask = 1;
              current_byte = cur + 1;
            },
            rw (here, read_bit, bit, ends) refl,
            record {
              size = r.size;
              bound = r.bound;
              count = count';
              place = 0;
              below = omega arith;
              mask = refl;
              before = r.before ++ b ∷ [];
              junk = r.junk;
              whole = whole';
              at = omega (arith, longer, full, r.at);
            },
          )
      | inr more ↦
          let (not_last, next_mask) = mask-next r.place (ground (arith, r.below)) in
          let goes_on = ap (λ m. m == 0x80) r.mask ∙ not_last in
          (
            record s {
              total_bits = s.total_bits +ℤ negsuc 0;
              current_mask = s.current_mask * 2 % 256;
            },
            rw (here, read_bit, bit, goes_on) refl,
            record {
              size = r.size;
              bound = r.bound;
              count = count';
              place = suc r.place;
              below = ground (arith, r.below);
              mask = ap (λ m. m * 2 % 256) r.mask ∙ next_mask;
              before = r.before ++ b ∷ [];
              junk = r.junk;
              whole = whole';
              at = omega (arith, longer, r.at);
            },
          )
    ]
