-- ===== src/SaveStream/Read.antt =====
-- About the reading side of the stream in Firmware/main/zops.c: `readByte` and `readFromDisk`,
-- against the list of the bytes that are left.
use zmachine.Base.{
  ℕ, zero, suc, ◌+◌, ◌-◌, ◌<◌, ◌≤◌, ◌≡◌, refl, sym, ap, ◌∙◌, ◌⊎◌, some, List, [], ◌∷◌, ◌++◌, arith,
  leb, length, take, drop, get_elem?, inl, inr, Bool-cases, get_elem?-some, length-append,
}
use zmachine.Machine.{SaveStream}
use zmachine.SaveStream.{read_byte, read_from_disk}

-- The bytes left: those in the buffer, then those that `fread` has not delivered.
abbrev pub left_of : SaveStream → List ℕ → List ℕ
left_of st rest = drop st.ptr (take st.limit st.buffer) ++ rest

-- A buffer that is used up has been filled again, unless the file is at its end.
pub record IsReader (st : SaveStream) (rest : List ℕ) : Type 0 where
  pub size : length st.buffer ≡ 1024
  pub limit : st.limit ≤ 1024
  pub file : st.file ≡ some rest
  pub ready : (st.ptr < st.limit) ⊎ (st.limit ≡ 0) × (st.ptr ≡ 0) × (rest ≡ [])

module _ {ℓ} {A : Type ℓ} where
  pub length-take-le :
      (n : ℕ) (xs : List A) → (length (take n xs) ≤ n) × (length (take n xs) ≤ length xs)
  length-take-le zero xs = omega arith
  length-take-le (suc n) [] = omega arith
  length-take-le (suc n) (x ∷ xs) = omega (arith, length-take-le n xs)

  pub length-drop : (n : ℕ) (xs : List A) → length (drop n xs) ≡ length xs - n
  length-drop zero xs = omega arith
  length-drop (suc n) [] = omega arith
  length-drop (suc n) (x ∷ xs) = omega (arith, length-drop n xs)

  pub take-append_self : (xs ys : List A) → take (length xs) (xs ++ ys) ≡ xs
  take-append_self [] ys = refl
  take-append_self (x ∷ xs) ys = ap (λ zs. x ∷ zs) (take-append_self xs ys)

  pub take-append-drop : (n : ℕ) (xs : List A) → take n xs ++ drop n xs ≡ xs
  take-append-drop zero xs = refl
  take-append-drop (suc n) [] = refl
  take-append-drop (suc n) (x ∷ xs) = ap (λ zs. x ∷ zs) (take-append-drop n xs)

  -- The element at `n` is the first of those left after `n`.
  drop-take-step :
      (xs : List A) (n m : ℕ) (x : A)
      → n < m
      → get_elem? xs n ≡ some x
      → drop n (take m xs) ≡ x ∷ drop (n + 1) (take m xs)
  drop-take-step [] n m x h e = absurd (ground arith)
  drop-take-step (y ∷ xs) zero (suc m) x h e = ground arith
  drop-take-step (y ∷ xs) zero zero x h e = absurd (omega arith)
  drop-take-step (y ∷ xs) (suc n) zero x h e = absurd (omega arith)
  drop-take-step (y ∷ xs) (suc n) (suc m) x h e =
      let next : suc n + 1 ≡ suc (n + 1) = omega arith in
      rw next (drop-take-step xs n m x (omega arith) e)

  drop-take_end : (xs : List A) (n m : ℕ) → m ≤ n → drop n (take m xs) ≡ []
  drop-take_end xs zero zero h = refl
  drop-take_end xs zero (suc m) h = absurd (omega arith)
  drop-take_end xs (suc n) zero h = refl
  drop-take_end [] (suc n) (suc m) h = refl
  drop-take_end (x ∷ xs) (suc n) (suc m) h = drop-take_end xs n m (omega arith)

-- The stream after a successful `fread` with `rest` still to come.
filled : SaveStream → List ℕ → SaveStream
filled st rest = record st {
  buffer = take 1024 rest ++ drop (length (take 1024 rest)) st.buffer;
  limit = length (take 1024 rest);
  ptr = 0;
  file = some (drop 1024 rest);
}

read_from_disk-filled :
    (st : SaveStream) (rest : List ℕ) → st.file ≡ some rest → read_from_disk st ≡ filled st rest
unfolding read_from_disk filled
read_from_disk-filled st rest e = rw (e, read_from_disk)

filled-IsReader :
    (st : SaveStream) (rest : List ℕ)
    → length st.buffer ≡ 1024
    → IsReader (filled st rest) (drop 1024 rest)
unfolding filled
filled-IsReader st [] h = record {
  size = h;
  limit = omega arith;
  file = refl;
  ready = inr (refl, refl, refl);
}
filled-IsReader st (x ∷ rest) h =
    let got = take 1024 (x ∷ rest) in
    let bound = length-take-le 1024 (x ∷ rest) in
    record {
      size = omega (
        arith,
        bound,
        length-append got (drop (length got) st.buffer),
        length-drop (length got) st.buffer,
      );
      limit = bound.0;
      file = refl;
      ready = inl (omega arith);
    }

filled-left : (st : SaveStream) (rest : List ℕ) → left_of (filled st rest) (drop 1024 rest) ≡ rest
unfolding filled
filled-left st rest =
    ap (λ xs. xs ++ drop 1024 rest)
      (take-append_self (take 1024 rest) (drop (length (take 1024 rest)) st.buffer))
    ∙ take-append-drop 1024 rest

-- For a buffer of 1024 bytes and an open file with the bytes `rest`: `readFromDisk` leaves the
-- stream ready for reading, and what the buffer and the file then hold is `rest`.
pub read_from_disk_lem :
    (st : SaveStream) (rest : List ℕ)
    → length st.buffer ≡ 1024
    → st.file ≡ some rest
    → IsReader (read_from_disk st) (drop 1024 rest)
      × (left_of (read_from_disk st) (drop 1024 rest) ≡ rest)
read_from_disk_lem st rest h e =
    rw (read_from_disk-filled st rest e) (filled-IsReader st rest h, filled-left st rest)

position-read_from_disk : (u : SaveStream) → (read_from_disk u).position ≡ u.position
unfolding read_from_disk
position-read_from_disk u = ground arith

abbrev advance : SaveStream → SaveStream
advance st = record st { ptr = st.ptr + 1; position = st.position + 1 }

module _ (st : SaveStream) {rest : List ℕ} (r : IsReader st rest) where
  -- With a byte in the buffer, that byte comes first.
  left-step :
      (y : ℕ)
      → st.ptr < st.limit
      → get_elem? st.buffer st.ptr ≡ some y
      → left_of st rest ≡ y ∷ (drop (st.ptr + 1) (take st.limit st.buffer) ++ rest)
  left-step y lt here = ap (λ zs. zs ++ rest) (drop-take-step st.buffer st.ptr st.limit y lt here)

  left_of_end : st.limit ≤ st.ptr → left_of st rest ≡ rest
  left_of_end h = ap (λ zs. zs ++ rest) (drop-take_end st.buffer st.ptr st.limit h)

  -- The byte at `ptr` was the last in the buffer, or it was not.
  read_byte-step :
      (y : ℕ)
      → st.ptr < st.limit
      → get_elem? st.buffer st.ptr ≡ some y
      → (t : SaveStream) × (rest' : List ℕ) × (read_byte st ≡ some (y, t))
        × IsReader t rest'
        × (left_of t rest' ≡ drop (st.ptr + 1) (take st.limit st.buffer) ++ rest)
        × (t.position ≡ st.position + 1)
  unfolding read_byte
  read_byte-step y lt here = elim (Bool-cases (leb st.limit (st.ptr + 1))) [
    | inl last ↦
        let (ready, all) = read_from_disk_lem (advance st) rest r.size r.file in
        let none_left : drop (st.ptr + 1) (take st.limit st.buffer) ≡ [] =
          drop-take_end st.buffer (st.ptr + 1) st.limit (ground arith) in
        (
          read_from_disk (advance st),
          drop 1024 rest,
          rw (here, last, read_byte),
          ready,
          all ∙ sym (ap (λ zs. zs ++ rest) none_left),
          position-read_from_disk (advance st),
        )
    | inr more ↦ (
      advance st,
      rest,
      rw (here, more, read_byte),
      record { size = r.size; limit = r.limit; file = r.file; ready = inl (ground arith) },
      refl,
      refl,
    )
  ]

-- On a stream that is ready for reading, with the bytes `x`, then `xs` left in the buffer and the
-- file: `readByte` gives `x` and leaves `xs`, the stream is ready again, and its position moves by
-- one.
pub read_byte_lem :
    (st : SaveStream) {rest : List ℕ} {x : ℕ} {xs : List ℕ}
    → IsReader st rest
    → left_of st rest ≡ x ∷ xs
    → (t : SaveStream) × (rest' : List ℕ) × (read_byte st ≡ some (x, t))
      × IsReader t rest'
      × (left_of t rest' ≡ xs)
      × (t.position ≡ st.position + 1)
read_byte_lem st {rest} {x} {xs} r e = elim r.ready [
  | inl lt ↦
      let (y, here) = get_elem?-some st.buffer st.ptr (omega (arith, r.size, r.limit)) in
      let (t, rest', got, ready, all, moved) = read_byte-step st r y lt here in
      let first = left-step st r y lt here in
      (t, rest', ground (arith, first), ready, ground (arith, first), moved)
  | inr (l, p, end) ↦ absurd (ground (arith, left_of_end st r (omega arith)))
]
