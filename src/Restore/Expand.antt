-- ===== src/Restore/Expand.antt =====
-- About the loop of `restoreState` in Firmware/main/zops.c that reads the compressed memory.
use zmachine.Base.{
  ℕ, zero, suc, ◌+◌, ◌<◌, ◌≤◌, ◌≡◌, refl, ◌∙◌, subst, false, some, List, [], ◌∷◌, ◌++◌, arith, ◌==◌,
  if◌then◌else◌, length, take, drop, bit_xor, lt→ltb, le→ltb,
}
use zmachine.Base.Int.{pos}
use zmachine.Machine.{Machine, SaveStream}
use zmachine.Effects.{ok}
use zmachine.Memory.{get_dynamic}
use zmachine.Memory.Chunks.{get_dynamic-put_dynamic, put_dynamic-some}
use zmachine.SaveStream.{take_byte}
use zmachine.SaveStream.Read.{IsReader, left_of, read_byte_lem}
use zmachine.Save.Compress.{decode}
use zmachine.Restore.{read_diffs, before, write_dynamic}

-- From `i` on the chunks hold these bytes.
abbrev pub Chunk : List (List ℕ) → ℕ → List ℕ → Type 0
Chunk chunks i [] = Unit {0}
Chunk chunks i (x ∷ xs) = (get_dynamic chunks i ≡ some x) × Chunk chunks (i + 1) xs

module _ (c : List (List ℕ)) where
  Chunk-drop : (n i : ℕ) (xs : List ℕ) → Chunk c i xs → Chunk c (i + n) (drop n xs)
  Chunk-drop zero i xs h = let e : i + 0 ≡ i = omega arith in rw e h
  Chunk-drop (suc n) i [] h = tt
  Chunk-drop (suc n) i (x ∷ xs) (_, h) =
      let e : i + suc n ≡ i + 1 + n = omega arith in rw e (Chunk-drop n (i + 1) xs h)

  -- The first `n` bytes of `xs`, read from chunks that are the same below `i + n`, and others.
  Chunk-join :
      (c' : List (List ℕ)) (n i : ℕ) (xs ys : List ℕ)
      → n ≤ length xs
      → ((j : ℕ) → j < i + n → get_dynamic c' j ≡ get_dynamic c j)
      → Chunk c i xs
      → Chunk c' (i + n) ys
      → Chunk c' i (take n xs ++ ys)
  Chunk-join c' zero i xs ys h same old new =
      let e : i + 0 ≡ i = omega arith in subst (λ k. Chunk c' k ys) e new
  Chunk-join c' (suc n) i [] ys h same old new = absurd (omega arith)
  Chunk-join c' (suc n) i (x ∷ xs) ys h same (here, old) new =
      let e : i + suc n ≡ i + 1 + n = omega arith in
      (
        same i (omega arith) ∙ here,
        Chunk-join c' n (i + 1) xs ys (omega arith) (λ j k. same j (omega arith)) old
            (subst (λ k. Chunk c' k ys) e new),
      )

  Chunk-keep :
      (c' : List (List ℕ)) (i : ℕ) (xs : List ℕ)
      → ((j : ℕ) → i ≤ j → get_dynamic c' j ≡ get_dynamic c j)
      → Chunk c i xs
      → Chunk c' i xs
  Chunk-keep c' i [] same h = tt
  Chunk-keep c' i (x ∷ xs) same (here, h) =
      (same i (omega arith) ∙ here, Chunk-keep c' (i + 1) xs (λ j k. same j (omega arith)) h)

-- A pair follows each zero, and the bytes do not stand for more than there is.
abbrev pub Fits : List ℕ → List ℕ → Type 0
Fits [] old = Unit {0}
Fits (zero ∷ []) old = ⊥
Fits (zero ∷ n ∷ es) old = (n + 1 ≤ length old) × Fits es (drop (n + 1) old)
Fits (suc d ∷ es) [] = ⊥
Fits (suc d ∷ es) (x ∷ old) = Fits es old

-- The machine behind the loop.
abbrev pub with_memory : Machine → SaveStream → List (List ℕ) → Machine
with_memory s t chunks = record s { save_stream = t; dynamic_chunks = chunks }

-- The loop from `i` has read `es` and left `more`, and `old` has become what `es` means.
abbrev pub Expands : ℕ → ℕ → ℕ → Machine → List ℕ → List ℕ → List ℕ → Type 0
Expands fuel end i s es old more =
    (t : SaveStream) × (chunks : List (List ℕ)) × (rest : List ℕ) × (read_diffs fuel (pos end) i s
      ≡ ok tt (with_memory s t chunks))
    × IsReader t rest
    × (left_of t rest ≡ more)
    × (t.position ≡ end)
    × Chunk chunks i (decode es old)
    × ((j : ℕ) → j < i → get_dynamic chunks j ≡ get_dynamic s.dynamic_chunks j)

-- The loop ends where the chunk does.
read_diffs-end :
    (fuel end i : ℕ) (s : Machine)
    → end ≤ s.save_stream.position
    → read_diffs fuel (pos end) i s ≡ ok tt s
unfolding read_diffs before
read_diffs-end zero end i s h = rw (le→ltb s.save_stream.position end h) refl
read_diffs-end (suc fuel) end i s h = rw (le→ltb s.save_stream.position end h) refl

-- On a stream that is ready for reading with the bytes `es`, then `more` left, where the chunk
-- ends behind `es`, `es` fits the bytes `old` (pairs are whole, and no more bytes are meant than
-- `old` has), the dynamic memory holds `old` from `i` on, and the fuel is the number of `es` or
-- more: the loop over the differences ends with the chunk, leaves `more`, changes the stream and
-- the dynamic memory alone, from `i` on the memory holds what `es` means against `old`, and below
-- `i` it is as before.
pub read_diffs_lem :
    (fuel end i : ℕ) (s : Machine) (es old more : List ℕ) {rest : List ℕ}
    → IsReader s.save_stream rest
    → left_of s.save_stream rest ≡ es ++ more
    → s.save_stream.position + length es ≡ end
    → length es ≤ fuel
    → Fits es old
    → Chunk s.dynamic_chunks i old
    → Expands fuel end i s es old more
unfolding read_diffs before take_byte write_dynamic
read_diffs_lem fuel end i s [] old more {rest} r left at enough fits held = (
  s.save_stream,
  s.dynamic_chunks,
  rest,
  read_diffs-end fuel end i s (omega arith),
  r,
  left,
  omega arith,
  held,
  (λ j h. refl),
)
read_diffs_lem zero end i s (e ∷ es) old more r left at enough fits held = absurd (omega arith)
read_diffs_lem (suc fuel) end i s (zero ∷ []) old more r left at enough fits held = absurd fits
read_diffs_lem (suc fuel) end i s (zero ∷ n ∷ es) old more r left at enough (long, fits) held =
    let (t, rest', got, r', left', moved) = read_byte_lem s.save_stream r left in
    let (u, rest'', got', r'', left'', moved') = read_byte_lem t r' left' in
    let s' = record s { save_stream = u } in
    let (v, chunks, rest''', done, r''', left''', at', held', same) =
      read_diffs_lem fuel end (i + (n + 1)) s' es (drop (n + 1) old) more r'' left'' (omega arith)
        (omega arith) fits (Chunk-drop s.dynamic_chunks (n + 1) i old held) in
    (
      v,
      chunks,
      rest''',
      rw (lt→ltb s.save_stream.position end (omega arith), got, got', take_byte) done,
      r''',
      left''',
      at',
      Chunk-join s.dynamic_chunks chunks (n + 1) i old (decode es (drop (n + 1) old)) long same held
          held',
      (λ j h. same j (omega arith)),
    )
read_diffs_lem (suc fuel) end i s (suc d ∷ es) [] more r left at enough fits held = absurd fits
read_diffs_lem (suc fuel) end i s (suc d ∷ es) (x ∷ old) more r left at enough fits (here, held) =
    let (t, rest', got, r', left', moved) = read_byte_lem s.save_stream r left in
    let w = bit_xor x (suc d) in
    let differs : (suc d == 0) ≡ false = ground arith in
    let (chunks, put) = put_dynamic-some s.dynamic_chunks i w here in
    let bytes : (j : ℕ)
        → get_dynamic chunks j ≡ (if i == j then some w else get_dynamic s.dynamic_chunks j) =
      λ j. get_dynamic-put_dynamic s.dynamic_chunks chunks i w j put in
    let s' = with_memory s t chunks in
    let (v, chunks', rest'', done, r'', left'', at', held', same) =
      read_diffs_lem fuel end (i + 1) s' es old more r' left' (omega arith) (omega arith) fits
        (Chunk-keep s.dynamic_chunks chunks (i + 1) old (λ j k. ground (arith, bytes j)) held) in
    (
      v,
      chunks',
      rest'',
      rw
          (
            lt→ltb s.save_stream.position end (omega arith),
            got,
            take_byte,
            differs,
            here,
            put,
            write_dynamic,
          )
          done,
      r'',
      left'',
      at',
      (same i (omega arith) ∙ ground (arith, bytes i), held'),
      (λ j h. same j (omega arith) ∙ ground (arith, bytes j)),
    )
