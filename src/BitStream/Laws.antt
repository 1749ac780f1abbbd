-- ===== src/BitStream/Laws.antt =====
-- About `CBitStream` of Firmware/main/LowLevel.cpp against the list of its bits.
use zmachine.Base.{
  ℕ, suc, ◌+◌, ◌*◌, ◌%◌, ◌<◌, ◌≤◌, ◌≡◌, refl, sym, ap, ◌∙◌, arith, Bool, true, false, not, ◌&&◌,
  some, List, [], ◌∷◌, ◌++◌, ◌==◌, ==_iff, lt→ltb, if◌then◌else◌, get_elem?, set, length, take,
  length-append, get_elem?-lt, get_elem?-set, get_elem?-set_self, set-same, length-set,
  take-set_above, take-set_next, Bool-cases, inl, inr, leb, length-take,
}
use mathlib.Core.List.{append_assoc, append-nil}
use zmachine.Base.Int.{pos, ◌+ℤ◌}
use zmachine.Base.Bits.{grid, grid-at, bit_val, digits_of, bits_of}
use zmachine.Base.XorLaws.{two_to}
use zmachine.BitStream.{BitStream, put_bit, write_bit}
use zmachine.BitStream.Digits.{
  length-digits_of, length-bits_of, digits_of-snoc, bits_of-append, bit_or-two_to,
}

abbrev pub IsBytes : List ℕ → Type 0
IsBytes bytes = (i v : ℕ) → get_elem? bytes i ≡ some v → v < 256

-- The stream has been written with the bits `xs`, of which `place` are in the byte that is not full.
pub record Writes (s : BitStream) (xs : List Bool) : Type 0 where
  pub size : length s.bytes ≡ 3072
  pub bound : IsBytes s.bytes
  pub count : s.total_bits ≡ pos (length xs)
  pub place : ℕ
  pub below : place < 8
  pub mask : s.current_mask ≡ two_to place
  pub v : ℕ
  pub here : get_elem? s.bytes s.current_byte ≡ some v
  pub clear : v < two_to place
  pub written : xs ≡ bits_of (take s.current_byte s.bytes) ++ digits_of place v

mask_holds : ℕ → ℕ → Bool
mask_holds k n =
    leb (two_to k) 128
    && (if k == 7
        then two_to k == 128
        else not (two_to k == 128) && (two_to k * 2 % 256 == two_to (suc k)))

mask_table : grid mask_holds 8 1 ≡ true
unfolding grid mask_holds
mask_table = refl

pub mask-le : (k : ℕ) → k < 8 → two_to k ≤ 128
unfolding mask_holds
mask-le k h = ground (arith, grid-at mask_holds 1 k 0 8 mask_table h (omega arith))

pub mask-last : (k : ℕ) → k ≡ 7 → (two_to k == 0x80) ≡ true
mask-last k e = rw e refl

pub mask-next :
    (k : ℕ) → k < 7 → ((two_to k == 0x80) ≡ false) × (two_to k * 2 % 256 ≡ two_to (suc k))
unfolding mask_holds
mask-next k h = ground (arith, grid-at mask_holds 1 k 0 8 mask_table (omega arith) (omega arith))

pub set-IsBytes :
    (bytes : List ℕ) (i v : ℕ)
    → i < length bytes
    → v < 256
    → IsBytes bytes
    → IsBytes (set bytes i v)
set-IsBytes bytes i v inside small h = λ j w e.
    let old = h j w in let split = get_elem?-set bytes i j v inside in ground (arith, old, split)

put_bit-some :
    (b : Bool) (s : BitStream) (place v : ℕ)
    → place < 8
    → s.current_mask ≡ two_to place
    → get_elem? s.bytes s.current_byte ≡ some v
    → v < two_to place
    → put_bit b s ≡ some (set s.bytes s.current_byte (v + bit_val b * two_to place))
unfolding put_bit
put_bit-some false s place v below mask here clear =
    let e : v + 0 * two_to place ≡ v = omega arith in
    ap some (sym (ap (set s.bytes s.current_byte) e ∙ set-same s.bytes s.current_byte v here))
put_bit-some true s place v below mask here clear =
    let inside = get_elem?-lt s.bytes s.current_byte here in
    let small = mask-le place below in
    let joined = bit_or-two_to place v below (omega (arith, small, clear)) clear in
    let e : v + 1 * two_to place ≡ v + two_to place = omega arith in
    rw (here, put_bit, mask, joined, lt→ltb s.current_byte (length s.bytes) inside, e) refl

next_byte-lt : (b : Bool) (v k : ℕ) → v < two_to k → v + bit_val b * two_to k < two_to (suc k)
next_byte-lt true v k h = omega arith
next_byte-lt false v k h = omega arith

length-written :
    (s : BitStream) (xs : List Bool) (w : Writes s xs) → length xs ≡ 8 * s.current_byte + w.place
length-written s xs w =
    let inside = get_elem?-lt s.bytes s.current_byte w.here in
    ap length w.written
    ∙ omega (
      arith,
      length-append (bits_of (take s.current_byte s.bytes)) (digits_of w.place w.v),
      length-bits_of (take s.current_byte s.bytes),
      length-digits_of w.place w.v,
      length-take s.current_byte s.bytes (omega arith),
    )

-- What is written after one more bit: the byte with the bit put in stands for the bits of before and
-- the new one.
written-next :
    (s : BitStream) (xs : List Bool) (b : Bool) (w : Writes s xs)
    → xs ++ b ∷ []
      ≡ bits_of (take s.current_byte s.bytes)
        ++ digits_of (suc w.place) (w.v + bit_val b * two_to w.place)
written-next s xs b w =
    ap (λ zs. zs ++ b ∷ []) w.written
    ∙ append_assoc (bits_of (take s.current_byte s.bytes)) (digits_of w.place w.v) (b ∷ [])
    ∙ ap (λ zs. bits_of (take s.current_byte s.bytes) ++ zs)
        (sym (digits_of-snoc w.place w.v b w.clear))

-- On a stream that has been written with the bits `xs`, fewer than 24568: `WriteBit` stays within
-- the array and leaves a stream that has been written with `xs` and the bit.
pub write_bit-Writes :
    (s : BitStream) (xs : List Bool) (b : Bool)
    → Writes s xs
    → length xs < 24568
    → (s' : BitStream) × (write_bit b s ≡ some s') × Writes s' (xs ++ b ∷ [])
unfolding write_bit ◌+ℤ◌
write_bit-Writes s xs b w room =
    let cur = s.current_byte in
    let v' = w.v + bit_val b * two_to w.place in
    let bytes' = set s.bytes cur v' in
    let inside = get_elem?-lt s.bytes cur w.here in
    let long = length-written s xs w in
    let put = put_bit-some b s w.place w.v w.below w.mask w.here w.clear in
    let size' = length-set s.bytes cur v' in
    let next = next_byte-lt b w.v w.place w.clear in
    let low = mask-le w.place w.below in
    let bound' = set-IsBytes s.bytes cur v' inside (omega (arith, next, low)) w.bound in
    let count' = ap (λ n. n +ℤ pos 1) w.count ∙ ground (arith, length-append xs (b ∷ [])) in
    elim (Bool-cases (w.place == 7)) [
      | inl last ↦
          let full : w.place ≡ 7 = (==_iff w.place 7).0 last in
          let room' : cur + 1 < length bytes' = omega (arith, size', w.size, long, room) in
          let bytes'' = set bytes' (cur + 1) 0 in
          let kept =
            take-set_above bytes' (cur + 1) (cur + 1) 0 (omega arith)
            ∙ take-set_next s.bytes cur v' inside in
          (
            record {
              total_bits = s.total_bits +ℤ pos 1;
              current_byte = cur + 1;
              current_mask = 1;
              bytes = bytes'';
            },
            rw
                (
                  put,
                  write_bit,
                  w.mask,
                  mask-last w.place full,
                  lt→ltb (cur + 1) (length bytes') room',
                )
                refl,
            record {
              size = length-set bytes' (cur + 1) 0 ∙ size' ∙ w.size;
              bound = set-IsBytes bytes' (cur + 1) 0 room' (omega arith) bound';
              count = count';
              place = 0;
              below = omega arith;
              mask = refl;
              v = 0;
              here = get_elem?-set_self bytes' (cur + 1) 0 room';
              clear = omega arith;
              written =
                  written-next s xs b w
                  ∙ ap (λ k. bits_of (take cur s.bytes) ++ digits_of (suc k) v') full
                  ∙ sym (
                      append-nil (bits_of (take (cur + 1) bytes''))
                      ∙ ap bits_of kept
                      ∙ bits_of-append (take cur s.bytes) (v' ∷ [])
                      ∙ ap (λ zs. bits_of (take cur s.bytes) ++ zs) (append-nil (digits_of 8 v')));
            },
          )
      | inr more ↦
          let (not_last, next_mask) = mask-next w.place (ground (arith, w.below)) in
          (
            record s {
              total_bits = s.total_bits +ℤ pos 1;
              current_mask = s.current_mask * 2 % 256;
              bytes = bytes';
            },
            rw (put, write_bit, w.mask, not_last) refl,
            record {
              size = size' ∙ w.size;
              bound = bound';
              count = count';
              place = suc w.place;
              below = ground (arith, w.below);
              mask = ap (λ m. m * 2 % 256) w.mask ∙ next_mask;
              v = v';
              here = get_elem?-set_self s.bytes cur v' inside;
              clear = next;
              written =
                  written-next s xs b w
                  ∙ ap (λ bs. bits_of bs ++ digits_of (suc w.place) v')
                      (sym (take-set_above s.bytes cur cur v' (omega arith)));
            },
          )
    ]
