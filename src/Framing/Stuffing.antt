-- ===== src/Framing/Stuffing.antt =====
-- About the loop of `ZeroBitAndFlagInsertion` in Firmware/main/LowLevel.cpp.
use zmachine.Base.{
  ℕ, zero, suc, ◌+◌, ◌≤◌, ◌≡◌, refl, sym, ap, ◌∙◌, arith, Bool, true, false, some, List, [], ◌∷◌,
  ◌++◌, ◌==◌, length, length-append, Bool-cases, inl, inr, subst,
}
use mathlib.Core.List.{append_assoc, append-nil}
use zmachine.BitStream.{BitStream, finished, read_bit, write_bit}
use zmachine.BitStream.Laws.{Writes, write_bit-Writes}
use zmachine.BitStream.Reading.{Reads, read_bit-Reads}
use zmachine.Framing.{stuff_loop}
use zmachine.Framing.Sent.{stuffed, finished-nil, finished-cons}

pub stuffed-five :
    (n : ℕ) (rs : List Bool)
    → (n + 1 == 5) ≡ true
    → stuffed n (true ∷ rs) ≡ true ∷ false ∷ stuffed 0 rs
stuffed-five n rs e = rw e refl

pub stuffed-fewer :
    (n : ℕ) (rs : List Bool)
    → (n + 1 == 5) ≡ false
    → stuffed n (true ∷ rs) ≡ true ∷ stuffed (n + 1) rs
stuffed-fewer n rs e = rw e refl

regroup_five :
    (n : ℕ) (rs xs : List Bool)
    → (n + 1 == 5) ≡ true
    → ((xs ++ true ∷ []) ++ false ∷ []) ++ stuffed 0 rs ≡ xs ++ stuffed n (true ∷ rs)
regroup_five n rs xs e =
    append_assoc (xs ++ true ∷ []) (false ∷ []) (stuffed 0 rs)
    ∙ append_assoc xs (true ∷ []) (false ∷ stuffed 0 rs)
    ∙ ap (λ zs. xs ++ zs) (sym (stuffed-five n rs e))

regroup_fewer :
    (n : ℕ) (rs xs : List Bool)
    → (n + 1 == 5) ≡ false
    → (xs ++ true ∷ []) ++ stuffed (n + 1) rs ≡ xs ++ stuffed n (true ∷ rs)
regroup_fewer n rs xs e =
    append_assoc xs (true ∷ []) (stuffed (n + 1) rs)
    ∙ ap (λ zs. xs ++ zs) (sym (stuffed-fewer n rs e))

module _ (fuel n : ℕ) (dest source : BitStream) {source' dest' : BitStream}
    (more : finished source ≡ false) (read : read_bit source ≡ some (true, source'))
    (wrote : write_bit true dest ≡ some dest') where
  stuff_loop-five :
      {dest'' : BitStream}
      → (n + 1 == 5) ≡ true
      → write_bit false dest' ≡ some dest''
      → stuff_loop (suc fuel) n dest source ≡ stuff_loop fuel 0 dest'' source'
  unfolding stuff_loop
  stuff_loop-five five zeroed = rw (more, read, wrote, five, zeroed) refl

  stuff_loop-fewer :
      (n + 1 == 5) ≡ false
      → stuff_loop (suc fuel) n dest source ≡ stuff_loop fuel (n + 1) dest' source'
  unfolding stuff_loop
  stuff_loop-fewer fewer = rw (more, read, wrote, fewer) refl

pub stuff_loop-Writes :
    (fuel n : ℕ) (rs xs : List Bool) (dest source : BitStream)
    → length rs ≤ fuel
    → Reads source rs
    → Writes dest xs
    → length xs + length (stuffed n rs) ≤ 24568
    → (dest' source' : BitStream) × (stuff_loop fuel n dest source ≡ some (dest', source'))
      × Writes dest' (xs ++ stuffed n rs)
unfolding stuff_loop
stuff_loop-Writes zero n [] xs dest source h r w room =
    (dest, source, rw (finished-nil source r) refl, subst (Writes dest) (sym (append-nil xs)) w)
stuff_loop-Writes (suc fuel) n [] xs dest source h r w room =
    (dest, source, rw (finished-nil source r) refl, subst (Writes dest) (sym (append-nil xs)) w)
stuff_loop-Writes zero n (b ∷ rs) xs dest source h r w room = absurd (omega arith)
stuff_loop-Writes (suc fuel) n (false ∷ rs) xs dest source h r w room =
    let (source', read, r') = read_bit-Reads source false rs r in
    let (dest', wrote, w') = write_bit-Writes dest xs false w (omega arith) in
    let longer = length-append xs (false ∷ []) in
    let (dest'', source'', rest, w'') =
      stuff_loop-Writes fuel 0 rs (xs ++ false ∷ []) dest' source' (omega arith) r' w'
        (omega (arith, longer)) in
    (
      dest'',
      source'',
      rw (finished-cons source false rs r, read, wrote) rest,
      subst (Writes dest'') (append_assoc xs (false ∷ []) (stuffed 0 rs)) w'',
    )
stuff_loop-Writes (suc fuel) n (true ∷ rs) xs dest source h r w room =
    let (source', read, r') = read_bit-Reads source true rs r in
    let (dest', wrote, w') = write_bit-Writes dest xs true w (omega arith) in
    let longer = length-append xs (true ∷ []) in
    elim (Bool-cases (n + 1 == 5)) [
      | inl five ↦
          let room' = stuffed-five n rs five in
          let counted = ap length room' in
          let (dest2, wrote2, w2) =
            write_bit-Writes dest' (xs ++ true ∷ []) false w' (omega (arith, longer, counted)) in
          let longer2 = length-append (xs ++ true ∷ []) (false ∷ []) in
          let (dest'', source'', rest, w'') =
            stuff_loop-Writes fuel 0 rs ((xs ++ true ∷ []) ++ false ∷ []) dest2 source'
              (omega arith) r' w2 (omega (arith, longer, longer2, counted)) in
          (
            dest'',
            source'',
            stuff_loop-five fuel n dest source (finished-cons source true rs r) read wrote five
                  wrote2
                ∙ rest,
            subst (Writes dest'') (regroup_five n rs xs five) w'',
          )
      | inr fewer ↦
          let counted = ap length (stuffed-fewer n rs fewer) in
          let (dest'', source'', rest, w'') =
            stuff_loop-Writes fuel (n + 1) rs (xs ++ true ∷ []) dest' source' (omega arith) r' w'
              (omega (arith, longer, counted)) in
          (
            dest'',
            source'',
            stuff_loop-fewer fuel n dest source (finished-cons source true rs r) read wrote fewer
                ∙ rest,
            subst (Writes dest'') (regroup_fewer n rs xs fewer) w'',
          )
    ]
