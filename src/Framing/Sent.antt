-- ===== src/Framing/Sent.antt =====
-- About the frame that Firmware/main/LowLevel.cpp sends, as a list of bits.
use zmachine.Base.{
  ℕ, zero, suc, ◌+◌, ◌*◌, ◌/◌, ◌%◌, ◌<◌, ◌≤◌, ◌≡◌, refl, sym, ap, ◌∙◌, arith, Bool, true, false,
  lt→ltb, some, List, [], ◌∷◌, ◌++◌, ◌==◌, if◌then◌else◌, length, length-append, Bool-cases, inl,
  inr, subst, set, get_elem?-set_self, length-set,
}
use mathlib.Core.List.{append_assoc, append-nil}
use zmachine.Base.Int.{pos, pos_part, eq_ℤ}
use zmachine.Base.Bits.{bit_val}
use zmachine.BitStream.{BitStream, reset, flush, finished}
use zmachine.BitStream.Laws.{IsBytes, Writes, set-IsBytes, write_bit-Writes}
use zmachine.BitStream.Reading.{Reads, flush-Reads, read_bit-Reads}
use zmachine.Crc.{crc_step}
use zmachine.Crc.Table.{crc_bits}
use zmachine.Crc.Residue.{check_bits}
use zmachine.Framing.{write_bits, flag_bits, crc_loop, write_crc, calculate_crc}

-- A zero behind every five ones, with `n` ones already there.
abbrev pub stuffed : ℕ → List Bool → List Bool
stuffed n [] = []
stuffed n (false ∷ bits) = false ∷ stuffed 0 bits
stuffed n (true ∷ bits) =
    true ∷ (if n + 1 == 5 then false ∷ stuffed 0 bits else stuffed (n + 1) bits)

-- The bits with their check sequence, and the whole frame.
abbrev pub checked : List Bool → List Bool
checked bits = bits ++ check_bits 16 (crc_bits 0xFFFF bits)

abbrev pub frame_bits : List Bool → List Bool
frame_bits bits = flag_bits ++ stuffed 0 (checked bits) ++ flag_bits

pub length-stuffed :
    (n : ℕ) (bits : List Bool) → n < 5 → 5 * length (stuffed n bits) ≤ 6 * length bits + n
length-stuffed n [] h = omega arith
length-stuffed n (false ∷ bits) h = omega (arith, length-stuffed 0 bits)
length-stuffed n (true ∷ bits) h = elim (Bool-cases (n + 1 == 5)) [
  | inl e ↦ rw e (ground (arith, length-stuffed 0 bits))
  | inr e ↦ rw e (ground (arith, length-stuffed (n + 1) bits))
]

pub reset-Writes :
    (s : BitStream)
    → length s.bytes ≡ 3072
    → IsBytes s.bytes
    → (s' : BitStream) × (reset s ≡ some s') × Writes s' []
unfolding reset
reset-Writes s size bound = (
  record { total_bits = pos 0; current_byte = 0; current_mask = 1; bytes = set s.bytes 0 0 },
  rw (lt→ltb 0 (length s.bytes) (omega (arith, size)), reset) refl,
  record {
    size = length-set s.bytes 0 0 ∙ size;
    bound = set-IsBytes s.bytes 0 0 (omega (arith, size)) (omega arith) bound;
    count = refl;
    place = 0;
    below = omega arith;
    mask = refl;
    v = 0;
    here = get_elem?-set_self s.bytes 0 0 (omega (arith, size));
    clear = omega arith;
    written = refl;
  },
)

pub write_bits-Writes :
    (bits : List Bool) (s : BitStream) (xs : List Bool)
    → Writes s xs
    → length xs + length bits ≤ 24568
    → (s' : BitStream) × (write_bits bits s ≡ some s') × Writes s' (xs ++ bits)
unfolding write_bits
write_bits-Writes [] s xs w room = (s, refl, subst (Writes s) (sym (append-nil xs)) w)
write_bits-Writes (b ∷ bits) s xs w room =
    let (t, wrote, w') = write_bit-Writes s xs b w (omega arith) in
    let longer = length-append xs (b ∷ []) in
    let (u, rest, w'') = write_bits-Writes bits t (xs ++ b ∷ []) w' (omega (arith, longer)) in
    (u, rw (wrote, write_bits) rest, subst (Writes u) (append_assoc xs (b ∷ []) bits) w'')

pub finished-nil : (s : BitStream) → Reads s [] → finished s ≡ true
unfolding finished
finished-nil s r = rw r.count refl

pub finished-cons :
    (s : BitStream) (b : Bool) (rs : List Bool) → Reads s (b ∷ rs) → finished s ≡ false
unfolding finished
finished-cons s b rs r = ap (λ n. eq_ℤ n (pos 0)) r.count ∙ ground arith

crc_loop-Writes :
    (fuel crc : ℕ) (rs xs : List Bool) (dest source : BitStream)
    → length rs ≤ fuel
    → Reads source rs
    → Writes dest xs
    → length xs + length rs ≤ 24568
    → (dest' source' : BitStream) × (crc_loop fuel crc dest source
        ≡ some (crc_bits crc rs, dest', source'))
      × Writes dest' (xs ++ rs)
      × Reads source' []
unfolding crc_loop
crc_loop-Writes zero crc [] xs dest source h r w room =
    (dest, source, rw (finished-nil source r) refl, subst (Writes dest) (sym (append-nil xs)) w, r)
crc_loop-Writes (suc fuel) crc [] xs dest source h r w room =
    (dest, source, rw (finished-nil source r) refl, subst (Writes dest) (sym (append-nil xs)) w, r)
crc_loop-Writes zero crc (b ∷ rs) xs dest source h r w room = absurd (omega arith)
crc_loop-Writes (suc fuel) crc (b ∷ rs) xs dest source h r w room =
    let (source', read, r') = read_bit-Reads source b rs r in
    let (dest', wrote, w') = write_bit-Writes dest xs b w (omega arith) in
    let longer = length-append xs (b ∷ []) in
    let (dest'', source'', rest, w'', r'') =
      crc_loop-Writes fuel (crc_step crc (bit_val b)) rs (xs ++ b ∷ []) dest' source' (omega arith)
        r' w' (omega (arith, longer)) in
    (
      dest'',
      source'',
      rw (finished-cons source b rs r, read, wrote) rest,
      subst (Writes dest'') (append_assoc xs (b ∷ []) rs) w'',
      r'',
    )

write_crc-Writes :
    (n crc : ℕ) (xs : List Bool) (dest : BitStream)
    → Writes dest xs
    → length xs + n ≤ 24568
    → (dest' : BitStream) × (write_crc n crc dest ≡ some dest')
      × Writes dest' (xs ++ check_bits n crc)
unfolding write_crc
write_crc-Writes zero crc xs dest w room = (dest, refl, subst (Writes dest) (sym (append-nil xs)) w)
write_crc-Writes (suc n) crc xs dest w room =
    let b = crc / 0x8000 == 0 in
    let (dest', wrote, w') = write_bit-Writes dest xs b w (omega arith) in
    let longer = length-append xs (b ∷ []) in
    let next = crc * 2 % 0x10000 in
    let (dest'', rest, w'') =
      write_crc-Writes n next (xs ++ b ∷ []) dest' w' (omega (arith, longer)) in
    (
      dest'',
      rw (wrote, write_crc) rest,
      subst (Writes dest'') (append_assoc xs (b ∷ []) (check_bits n next)) w'',
    )

pub calculate_crc-Reads :
    (dest source : BitStream) (rs : List Bool)
    → Reads source rs
    → length dest.bytes ≡ 3072
    → IsBytes dest.bytes
    → length rs + 16 ≤ 24568
    → (dest' source' : BitStream) × (calculate_crc dest source ≡ some (dest', source'))
      × Reads dest' (checked rs)
      × Reads source' []
unfolding calculate_crc
calculate_crc-Reads dest source rs r size bound room =
    let (empty, cleared, w) = reset-Writes dest size bound in
    let (full, source', looped, w', r') =
      crc_loop-Writes (length rs) 0xFFFF rs [] empty source (omega arith) r w (omega arith) in
    let whole_loop = ap (λ n. crc_loop (pos_part n) 0xFFFF empty source) r.count ∙ looped in
    let (done, closed, w'') = write_crc-Writes 16 (crc_bits 0xFFFF rs) rs full w' (omega arith) in
    (
      flush done,
      source',
      rw (cleared, calculate_crc, whole_loop, closed) refl,
      flush-Reads done (checked rs) w'',
      r',
    )
