-- ===== src/SaveStream/Write.antt =====
-- About the writing side of the stream in Firmware/main/zops.c: `saveByte` and `saveFlush`, against
-- the list of the bytes that were put into it.
use zmachine.Base.{
  ℕ, ◌+◌, ◌%◌, ◌<◌, ◌≡◌, refl, sym, ap, ◌∙◌, Option, none, some, List, [], ◌∷◌, ◌++◌, arith, leb,
  length, take, length-set, take-set_next, inl, inr, Bool-cases,
}
use mathlib.Core.List.{append_assoc, append-nil}
use zmachine.Machine.{Machine, SaveStream}
use zmachine.Effects.{ok, for_each}
use zmachine.SaveStream.{save_byte, save_flush, save_reset_stream, store_byte, fwrite, emit}

-- `saveResetStream` leaves such a stream, and every byte keeps it.
pub record IsWriter (st : SaveStream) : Type 0 where
  pub size : length st.buffer ≡ 1024
  pub limit : st.limit ≡ 1024
  pub room : st.ptr < 1024

-- The file's bytes and those that wait in the buffer; nothing without a file.
abbrev pub written : SaveStream → Option (List ℕ)
written st = fwrite st.file (take st.ptr st.buffer)

pub fwrite-fwrite :
    (f : Option (List ℕ)) (xs ys : List ℕ) → fwrite (fwrite f xs) ys ≡ fwrite f (xs ++ ys)
fwrite-fwrite none xs ys = refl
fwrite-fwrite (some f) xs ys = ap some (append_assoc f xs ys)

pub fwrite-nil : (f : Option (List ℕ)) → fwrite f [] ≡ f
fwrite-nil none = refl
fwrite-nil (some f) = ap some (append-nil f)

-- `saveFlush` moves what waits into the file.
pub written-save_flush :
    (st : SaveStream) → (written (save_flush st) ≡ written st) × ((save_flush st).file ≡ written st)
unfolding save_flush
written-save_flush st = (fwrite-nil (written st), refl)

pub save_reset_stream-IsWriter :
    (st : SaveStream) → length st.buffer ≡ 1024 → IsWriter (save_reset_stream st)
unfolding save_reset_stream
save_reset_stream-IsWriter st h = omega arith

module _ (v : ℕ) {st : SaveStream} (w : IsWriter st) where
  written-store_byte : written (store_byte v st) ≡ fwrite (written st) (v % 256 ∷ [])
  written-store_byte =
      ap (fwrite st.file) (take-set_next st.buffer st.ptr (v % 256) (omega arith))
      ∙ sym (fwrite-fwrite st.file (take st.ptr st.buffer) (v % 256 ∷ []))

  -- `saveByte` adds one byte, cut to eight bits, whether or not it flushes the buffer.
  pub save_byte-written :
      (t : SaveStream) × (save_byte v st ≡ some t)
      × IsWriter t
      × (written t ≡ fwrite (written st) (v % 256 ∷ []))
      × (t.position ≡ st.position + 1)
  unfolding save_byte save_flush
  save_byte-written = elim (Bool-cases (leb st.limit (st.ptr + 1))) [
    | inl full ↦ (
      save_flush (store_byte v st),
      ground arith,
      ground (arith, length-set st.buffer st.ptr (v % 256)),
      (written-save_flush (store_byte v st)).0 ∙ written-store_byte,
      refl,
    )
    | inr more ↦ (
      store_byte v st,
      ground arith,
      ground (arith, length-set st.buffer st.ptr (v % 256)),
      written-store_byte,
      refl,
    )
  ]

-- The bytes that a list of values is written as.
abbrev pub bytes : List ℕ → List ℕ
bytes [] = []
bytes (v ∷ vs) = v % 256 ∷ bytes vs

-- On a stream open for writing with a buffer of 1024 bytes, writing the values `vs` one after the
-- other by `saveByte` succeeds and changes the stream alone: the file and the buffer together hold
-- what they held, then the values cut to eight bits, in order; the stream stays fit for writing,
-- and its position moves by their number. Without a file nothing is held.
pub for_each-emit :
    (vs : List ℕ) (s : Machine)
    → IsWriter s.save_stream
    → (t : SaveStream) × (for_each vs emit s ≡ ok tt (record s { save_stream = t }))
      × IsWriter t
      × (written t ≡ fwrite (written s.save_stream) (bytes vs))
      × (t.position ≡ s.save_stream.position + length vs)
unfolding for_each emit
for_each-emit [] s w =
    (s.save_stream, refl, w, sym (fwrite-nil (written s.save_stream)), omega arith)
for_each-emit (v ∷ vs) s w =
    let (t, saved, w', more, moved) = save_byte-written v w in
    let (u, done, w'', all, moved') = for_each-emit vs (record s { save_stream = t }) w' in
    (
      u,
      rw (saved, emit) done,
      w'',
      all
          ∙ ap (λ f. fwrite f (bytes vs)) more
          ∙ fwrite-fwrite (written s.save_stream) (v % 256 ∷ []) (bytes vs),
      omega arith,
    )
