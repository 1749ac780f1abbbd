-- ===== src/Restore/RoundTrip.antt =====
-- About the compressed memory of Firmware/main/zops.c that one machine saves and another restores.
use zmachine.Base.{
  ℕ, zero, suc, ◌+◌, ◌-◌, ◌<◌, ◌≤◌, ◌≡◌, refl, sym, ap, ◌∙◌, subst, false, some, List, [], ◌∷◌,
  ◌++◌, arith, ltb, ◌==◌, if◌then◌else◌, length, length-append, drop, min, bit_xor, get_elem?, inl,
  inr, Bool-cases,
}
use mathlib.Core.List.{append_assoc}
use zmachine.Base.Int.{pos}
use zmachine.Machine.{Machine, SaveStream}
use zmachine.Effects.{Done, ok, and_then, valid, get, for_range, ◌>>=◌}
use zmachine.Memory.{get_dynamic}
use zmachine.Memory.Chunks.{get_dynamic-put_dynamic, put_dynamic-some, put_dynamic-keeps}
use zmachine.Memory.Flat.{IsMapped}
use zmachine.SaveStream.Write.{IsWriter}
use zmachine.SaveStream.Emits.{Emits}
use zmachine.SaveStream.Read.{IsReader, left_of, length-drop}
use zmachine.Save.{save_dynamic_memory, save_diffs}
use zmachine.Save.Compress.{
  run_bytes, diff_bytes, Holds, drop-append, length-zero, decode-diff_bytes, save_diffs-Emits,
}
use zmachine.Restore.{copy_story, write_dynamic, read_compressed_memory, bytes_before, read_diffs}
use zmachine.Restore.Expand.{Chunk, Fits, with_memory, read_diffs_lem}

Fits-run :
    (fuel run : ℕ) (pre rest more : List ℕ)
    → length pre ≡ run
    → run ≤ fuel
    → Fits more rest
    → Fits (run_bytes fuel run ++ more) (pre ++ rest)
Fits-run zero run pre rest more e h f = let empty = length-zero pre (omega arith) in rw empty f
Fits-run (suc fuel) run pre rest more e h f = elim (Bool-cases (ltb 0 run)) [
  | inr done ↦ let empty = length-zero pre (ground arith) in rw (done, empty) f
  | inl some_left ↦
      let step = min run 256 in
      let here : step - 1 + 1 ≡ step = ground arith in
      let long : step ≤ length pre = omega arith in
      let later =
        Fits-run fuel (run - step) (drop step pre) rest more
          (length-drop step pre ∙ ap (λ k. k - step) e) (ground arith) f in
      rw (some_left, here, drop-append step pre rest long)
        (omega (arith, long, length-append pre rest), later)
]

Fits-difference :
    (d x : ℕ) (es xs : List ℕ) → (d == 0) ≡ false → Fits es xs → Fits (d ∷ es) (x ∷ xs)
Fits-difference zero x es xs h f = absurd (ground arith)
Fits-difference (suc d) x es xs h f = f

-- What is written for `xs` and `ys` fits `xs`.
Fits-diff_bytes :
    (memory : List ℕ) (chunks : List (List ℕ)) (xs ys pre : List ℕ) (i run : ℕ)
    → Holds memory chunks i xs ys
    → length pre ≡ run
    → Fits (diff_bytes xs ys run) (pre ++ xs)
Fits-diff_bytes memory chunks [] [] pre i run h e = tt
Fits-diff_bytes memory chunks [] (y ∷ ys) pre i run h e = absurd h
Fits-diff_bytes memory chunks (x ∷ xs) [] pre i run h e = absurd h
Fits-diff_bytes memory chunks (x ∷ xs) (y ∷ ys) pre i run (_, _, _, _, rest) e =
    elim (Bool-cases (bit_xor x y == 0)) [
      | inl same ↦
          let longer = length-append pre (x ∷ []) ∙ ap (λ n. n + 1) e in
          let later =
            Fits-diff_bytes memory chunks xs ys (pre ++ x ∷ []) (i + 1) (run + 1) rest longer in
          rw same (
            subst (λ zs. Fits (diff_bytes xs ys (run + 1)) zs) (append_assoc pre (x ∷ []) xs) later)
      | inr differ ↦
          let later = Fits-diff_bytes memory chunks xs ys [] (i + 1) 0 rest refl in
          rw differ (
            Fits-run run run pre (x ∷ xs) (bit_xor x y ∷ diff_bytes xs ys 0) e (omega arith)
              (Fits-difference (bit_xor x y) x (diff_bytes xs ys 0) xs differ later))
    ]

-- The body of the loop that copies the story.
abbrev copy_byte : ℕ → Done
copy_byte i = do story ← get (λ s. s.memory); b ← valid (get_elem? story i); write_dynamic i b

-- From `i` on the story holds these bytes.
abbrev Story : List ℕ → ℕ → List ℕ → Type 0
Story memory i [] = Unit {0}
Story memory i (x ∷ xs) = (get_elem? memory i ≡ some x) × Story memory (i + 1) xs

Holds-Story :
    (memory : List ℕ) (chunks : List (List ℕ)) (i : ℕ) (xs ys : List ℕ)
    → Holds memory chunks i xs ys
    → Story memory i xs
Holds-Story memory chunks i [] ys h = tt
Holds-Story memory chunks i (x ∷ xs) [] h = absurd h
Holds-Story memory chunks i (x ∷ xs) (y ∷ ys) (here, _, _, _, rest) =
    (here, Holds-Story memory chunks (i + 1) xs ys rest)

abbrev with_dynamic : Machine → List (List ℕ) → Machine
with_dynamic s chunks = record s { dynamic_chunks = chunks }

copy_loop :
    (i : ℕ) (xs : List ℕ) (s : Machine)
    → Story s.memory i xs
    → ((j : ℕ) → i ≤ j → j < i + length xs → (b : ℕ) × (get_dynamic s.dynamic_chunks j ≡ some b))
    → (chunks : List (List ℕ)) × (for_range (length xs) i copy_byte s
        ≡ ok tt (with_dynamic s chunks))
      × Chunk chunks i xs
      × ((j : ℕ) → j < i → get_dynamic chunks j ≡ get_dynamic s.dynamic_chunks j)
unfolding for_range write_dynamic
copy_loop i [] s story mapped = (s.dynamic_chunks, refl, tt, (λ j h. refl))
copy_loop i (x ∷ xs) s (here, story) mapped =
    let (b, there) = mapped i (omega arith) (omega arith) in
    let (chunks, put) = put_dynamic-some s.dynamic_chunks i x there in
    let bytes : (j : ℕ)
        → get_dynamic chunks j ≡ (if i == j then some x else get_dynamic s.dynamic_chunks j) =
      λ j. get_dynamic-put_dynamic s.dynamic_chunks chunks i x j put in
    let (chunks', done, held, same) = copy_loop (i + 1) xs (with_dynamic s chunks) story (λ j p q.
      let (_, old) = mapped j (omega arith) (omega arith) in
      put_dynamic-keeps s.dynamic_chunks chunks i x j put old) in
    (
      chunks',
      rw (here, put, write_dynamic) done,
      (same i (omega arith) ∙ ground (arith, bytes i), held),
      (λ j h. same j (omega arith) ∙ ground (arith, bytes j)),
    )

-- A machine that reads `xs` as its story restores what `diff_bytes xs ys 0` stands for.
restore_bytes :
    (s : Machine) (memory : List ℕ) (old : List (List ℕ)) (xs ys more : List ℕ) {rest : List ℕ}
    → Holds memory old 0 xs ys
    → s.memory ≡ memory
    → length xs ≡ s.end_of_dynamic
    → IsMapped s
    → IsReader s.save_stream rest
    → left_of s.save_stream rest ≡ diff_bytes xs ys 0 ++ more
    → (t : SaveStream) × (chunks : List (List ℕ)) × (rest' : List ℕ) × (read_compressed_memory
          (pos (s.save_stream.position + length (diff_bytes xs ys 0)))
          s
        ≡ ok tt (with_memory s t chunks))
      × IsReader t rest'
      × (left_of t rest' ≡ more)
      × Chunk chunks 0 ys
unfolding read_compressed_memory copy_story bytes_before
restore_bytes s memory old xs ys more h same_story size m r left =
    let es = diff_bytes xs ys 0 in
    let end = s.save_stream.position + length es in
    let story = subst (λ z. Story z 0 xs) (sym same_story) (Holds-Story memory old 0 xs ys h) in
    let (copied, done, held, _) =
      copy_loop 0 xs s story (λ j p q. m.mapped j (omega (arith, size))) in
    let all = ap (λ n. for_range n 0 copy_byte s) (sym size) ∙ done in
    let (t, chunks, rest', done', r', left', _, held', _) =
      read_diffs_lem (end - s.save_stream.position) end 0 (with_dynamic s copied) es xs more r left
        refl (omega arith) (Fits-diff_bytes memory old xs ys [] 0 0 h refl) held in
    (
      t,
      chunks,
      rest',
      ap (λ run. and_then run (λ _. bytes_before (pos end) >>= λ fuel. read_diffs fuel (pos end) 0))
            all
          ∙ done',
      r',
      left',
      subst (λ zs. Chunk chunks 0 zs) (decode-diff_bytes memory old xs ys [] 0 0 h refl) held',
    )

module _ (s s' : Machine) (xs ys more : List ℕ) where
  -- Two machines `s` and `s'` with the same story and the same size of dynamic memory. In `s` the
  -- stream is open for writing, the story's dynamic part is `xs` and the dynamic memory holds
  -- `ys`, all bytes below 256. In `s'` the dynamic memory is mapped, whatever it holds, and the
  -- stream is ready for reading with the bytes `diff_bytes xs ys 0`, then `more` left. Then
  -- `saveDynamicMemory` succeeds on `s`, changes the stream alone and adds exactly those bytes to
  -- what is written; and reading a chunk of their number as compressed memory succeeds on `s'`,
  -- changes the stream and the dynamic memory alone, leaves `more`, and the dynamic memory holds
  -- `ys`.
  pub read_compressed_memory-save_dynamic_memory :
      {rest : List ℕ}
      → IsWriter s.save_stream
      → length xs ≡ s.end_of_dynamic
      → Holds s.memory s.dynamic_chunks 0 xs ys
      → s'.memory ≡ s.memory
      → s'.end_of_dynamic ≡ s.end_of_dynamic
      → IsMapped s'
      → IsReader s'.save_stream rest
      → left_of s'.save_stream rest ≡ diff_bytes xs ys 0 ++ more
      → Emits save_dynamic_memory s (diff_bytes xs ys 0)
        × (t : SaveStream) × (chunks : List (List ℕ)) × (rest' : List ℕ) × (read_compressed_memory
              (pos (s'.save_stream.position + length (diff_bytes xs ys 0)))
              s'
            ≡ ok tt (with_memory s' t chunks))
        × IsReader t rest'
        × (left_of t rest' ≡ more)
        × Chunk chunks 0 ys
  unfolding save_dynamic_memory
  read_compressed_memory-save_dynamic_memory w size h same_story same_size m r left =
      let (u, saved, w', written, moved) = save_diffs-Emits xs ys 0 0 s w h in
      let (t, chunks, rest', restored, r', left', held) =
        restore_bytes s' s.memory s.dynamic_chunks xs ys more h same_story (size ∙ sym same_size) m
          r left in
      (
        (u, ap (λ n. save_diffs n 0 0 s) (sym size) ∙ saved, w', written, moved),
        t,
        chunks,
        rest',
        restored,
        r',
        left',
        held,
      )
