-- ===== src/Save/Compress.antt =====
-- About `saveDynamicMemory` of Firmware/main/zops.c and the format of the compressed memory: the
-- differences from the story, with runs of equal bytes as a zero and their number less one.
use zmachine.Base.{
  ℕ, zero, suc, ◌+◌, ◌-◌, ◌<◌, ◌≤◌, ◌≡◌, refl, sym, ap, ◌∙◌, false, some, List, [], ◌∷◌, ◌++◌,
  arith, ltb, ◌==◌, if◌then◌else◌, length, take, drop, min, get_elem?, bit_xor, inl, inr,
  Bool-cases, length-append, ==_iff,
}
use zmachine.SaveStream.Read.{length-drop, take-append-drop}
use zmachine.Base.Xor.{xor_cancel, xor-lt, xor_zero}
use mathlib.Core.List.{append_assoc}
use zmachine.Machine.{Machine}
use zmachine.Effects.{◌>>◌}
use zmachine.Memory.{get_dynamic}
use zmachine.SaveStream.{emit}
use zmachine.SaveStream.Write.{IsWriter}
use zmachine.SaveStream.Emits.{Emits, skip-Emits, emit-Emits, emit_byte-Emits, then-Emits}
use zmachine.Save.{save_zero_run, save_diffs, save_dynamic_memory}

-- What the format means: a zero and `n` stand for `n + 1` bytes of the story, another byte for a
-- difference from the story's next byte, and the end for the rest of the story.
abbrev pub decode : List ℕ → List ℕ → List ℕ
decode [] story = story
decode (zero ∷ []) story = story
decode (zero ∷ n ∷ es) story = take (n + 1) story ++ decode es (drop (n + 1) story)
decode (suc d ∷ es) [] = []
decode (suc d ∷ es) (x ∷ story) = bit_xor x (suc d) ∷ decode es story

-- The bytes that the two loops write.
abbrev pub run_bytes : ℕ → ℕ → List ℕ
run_bytes zero run = []
run_bytes (suc fuel) run =
    if ltb 0 run then 0 ∷ (min run 256 - 1) ∷ run_bytes fuel (run - min run 256) else []

abbrev pub diff_bytes : List ℕ → List ℕ → ℕ → List ℕ
diff_bytes [] ys run = []
diff_bytes (x ∷ xs) [] run = []
diff_bytes (x ∷ xs) (y ∷ ys) run =
    if bit_xor x y == 0
    then diff_bytes xs ys (run + 1)
    else run_bytes run run ++ bit_xor x y ∷ diff_bytes xs ys 0

-- From `i` on the story holds the bytes `xs` and the chunks the bytes `ys`.
abbrev pub Holds : List ℕ → List (List ℕ) → ℕ → List ℕ → List ℕ → Type 0
Holds memory chunks i [] [] = Unit {0}
Holds memory chunks i [] (y ∷ ys) = ⊥
Holds memory chunks i (x ∷ xs) [] = ⊥
Holds memory chunks i (x ∷ xs) (y ∷ ys) =
    (get_elem? memory i ≡ some x)
    × (get_dynamic chunks i ≡ some y)
    × (x < 256)
    × (y < 256)
    × Holds memory chunks (i + 1) xs ys

save_zero_run-Emits :
    (fuel run : ℕ) (s : Machine)
    → IsWriter s.save_stream
    → Emits (save_zero_run fuel run) s (run_bytes fuel run)
unfolding save_zero_run
save_zero_run-Emits zero run s w = skip-Emits s w
save_zero_run-Emits (suc fuel) run s w = elim (Bool-cases (ltb 0 run)) [
  | inr done ↦ rw (done, save_zero_run) (skip-Emits s w)
  | inl more ↦
      let step = min run 256 in
      rw (more, save_zero_run)
        (then-Emits (emit 0) (emit (step - 1) >> save_zero_run fuel (run - step)) s (0 ∷ [])
          ((step - 1) ∷ run_bytes fuel (run - step)) (emit-Emits 0 s w)
          (λ t w'.
            then-Emits (emit (step - 1)) (save_zero_run fuel (run - step))
              (record s { save_stream = t }) ((step - 1) ∷ []) (run_bytes fuel (run - step))
              (emit_byte-Emits (step - 1) (record s { save_stream = t }) w' (omega arith))
              (λ u w''. save_zero_run-Emits fuel (run - step) (record s { save_stream = u }) w'')))
]

pub save_diffs-Emits :
    (xs ys : List ℕ) (i run : ℕ) (s : Machine)
    → IsWriter s.save_stream
    → Holds s.memory s.dynamic_chunks i xs ys
    → Emits (save_diffs (length xs) i run) s (diff_bytes xs ys run)
unfolding save_diffs
save_diffs-Emits [] [] i run s w h = skip-Emits s w
save_diffs-Emits [] (y ∷ ys) i run s w h = absurd h
save_diffs-Emits (x ∷ xs) [] i run s w h = absurd h
save_diffs-Emits (x ∷ xs) (y ∷ ys) i run s w (old, new, hx, hy, rest) =
    let later = save_diffs-Emits xs ys (i + 1) in
    elim (Bool-cases (bit_xor x y == 0)) [
      | inl same ↦ rw (old, new, same, save_diffs) (later (run + 1) s w rest)
      | inr differ ↦
          rw (old, new, differ, save_diffs)
            (then-Emits (save_zero_run run run)
              (emit (bit_xor x y) >> save_diffs (length xs) (i + 1) 0) s (run_bytes run run)
              (bit_xor x y ∷ diff_bytes xs ys 0) (save_zero_run-Emits run run s w)
              (λ t w'.
                then-Emits (emit (bit_xor x y)) (save_diffs (length xs) (i + 1) 0)
                  (record s { save_stream = t }) (bit_xor x y ∷ []) (diff_bytes xs ys 0)
                  (emit_byte-Emits (bit_xor x y) (record s { save_stream = t }) w'
                    (xor-lt x y hx hy))
                  (λ u w''. later 0 (record s { save_stream = u }) w'' rest)))
    ]

module _ {A : Type 0} where
  take-append : (n : ℕ) (xs ys : List A) → n ≤ length xs → take n (xs ++ ys) ≡ take n xs
  take-append zero xs ys h = refl
  take-append (suc n) [] ys h = absurd (omega arith)
  take-append (suc n) (x ∷ xs) ys h = ap (λ zs. x ∷ zs) (take-append n xs ys (omega arith))

  pub drop-append : (n : ℕ) (xs ys : List A) → n ≤ length xs → drop n (xs ++ ys) ≡ drop n xs ++ ys
  drop-append zero xs ys h = refl
  drop-append (suc n) [] ys h = absurd (omega arith)
  drop-append (suc n) (x ∷ xs) ys h = drop-append n xs ys (omega arith)

  pub length-zero : (xs : List A) → length xs ≡ 0 → xs ≡ []
  length-zero [] h = refl
  length-zero (x ∷ xs) h = absurd (omega arith)

-- A written run takes its bytes over from the story.
decode-run :
    (fuel run : ℕ) (pre rest more : List ℕ)
    → length pre ≡ run
    → run ≤ fuel
    → decode (run_bytes fuel run ++ more) (pre ++ rest) ≡ pre ++ decode more rest
decode-run zero run pre rest more e h = let empty = length-zero pre (omega arith) in rw empty refl
decode-run (suc fuel) run pre rest more e h = elim (Bool-cases (ltb 0 run)) [
  | inr done ↦ let empty = length-zero pre (ground arith) in rw (done, empty) refl
  | inl some_left ↦
      let step = min run 256 in
      let here : step - 1 + 1 ≡ step = ground arith in
      let fits : step ≤ length pre = omega arith in
      let later =
        decode-run fuel (run - step) (drop step pre) rest more
          (length-drop step pre ∙ ap (λ k. k - step) e) (ground arith) in
      rw (some_left, here, take-append step pre rest fits, drop-append step pre rest fits, later)
        (sym (append_assoc (take step pre) (drop step pre) (decode more rest))
          ∙ ap (λ zs. zs ++ decode more rest) (take-append-drop step pre))
]

decode-difference :
    (d x : ℕ) (es xs : List ℕ)
    → (d == 0) ≡ false
    → decode (d ∷ es) (x ∷ xs) ≡ bit_xor x d ∷ decode es xs
decode-difference zero x es xs h = absurd (ground arith)
decode-difference (suc d) x es xs h = refl

-- What the loop writes for `xs` and `ys`, after a run of `pre`, means `ys` behind `pre`.
pub decode-diff_bytes :
    (memory : List ℕ) (chunks : List (List ℕ)) (xs ys pre : List ℕ) (i run : ℕ)
    → Holds memory chunks i xs ys
    → length pre ≡ run
    → decode (diff_bytes xs ys run) (pre ++ xs) ≡ pre ++ ys
decode-diff_bytes memory chunks [] [] pre i run h e = refl
decode-diff_bytes memory chunks [] (y ∷ ys) pre i run h e = absurd h
decode-diff_bytes memory chunks (x ∷ xs) [] pre i run h e = absurd h
decode-diff_bytes memory chunks (x ∷ xs) (y ∷ ys) pre i run (_, _, hx, hy, rest) e =
    elim (Bool-cases (bit_xor x y == 0)) [
      | inl same ↦
          let x_is_y = xor_zero x y hx hy ((==_iff (bit_xor x y) 0).0 same) in
          let longer = length-append pre (x ∷ []) ∙ ap (λ n. n + 1) e in
          let later =
            decode-diff_bytes memory chunks xs ys (pre ++ x ∷ []) (i + 1) (run + 1) rest longer in
          rw same (
            ap (decode (diff_bytes xs ys (run + 1))) (sym (append_assoc pre (x ∷ []) xs))
            ∙ later
            ∙ append_assoc pre (x ∷ []) ys
            ∙ ap (λ z. pre ++ z ∷ ys) x_is_y)
      | inr differ ↦
          let later = decode-diff_bytes memory chunks xs ys [] (i + 1) 0 rest refl in
          let more = bit_xor x y ∷ diff_bytes xs ys 0 in
          rw differ (
            decode-run run run pre (x ∷ xs) more e (omega arith)
            ∙ ap (λ zs. pre ++ zs)
                (decode-difference (bit_xor x y) x (diff_bytes xs ys 0) xs differ
                  ∙ rw (xor_cancel x y hx hy, later) refl))
    ]

-- On a stream that is open for writing with a buffer of 1024 bytes, where the story's first
-- `endOfDynamic` bytes are `xs` and the dynamic memory holds `ys`, all below 256:
-- `saveDynamicMemory` succeeds, changes the stream alone, and adds to what is written bytes `es`
-- that mean `ys` when they are decoded against `xs`; the stream's position moves by their number.
pub save_dynamic_memory_lem :
    (s : Machine) (xs ys : List ℕ)
    → IsWriter s.save_stream
    → length xs ≡ s.end_of_dynamic
    → Holds s.memory s.dynamic_chunks 0 xs ys
    → (es : List ℕ) × Emits save_dynamic_memory s es × (decode es xs ≡ ys)
unfolding save_dynamic_memory
save_dynamic_memory_lem s xs ys w size h =
    let (t, done, w', more, moved) = save_diffs-Emits xs ys 0 0 s w h in
    (
      diff_bytes xs ys 0,
      (t, ap (λ n. save_diffs n 0 0 s) (sym size) ∙ done, w', more, moved),
      decode-diff_bytes s.memory s.dynamic_chunks xs ys [] 0 0 h refl,
    )
