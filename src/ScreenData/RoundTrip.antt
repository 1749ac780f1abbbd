-- ===== src/ScreenData/RoundTrip.antt =====
-- About the compression of a line in Firmware/main/Screen.cpp: a terminal shows the line.
use zmachine.Base.{
  ℕ, zero, suc, ◌+◌, ◌%◌, ◌<◌, ◌≤◌, ◌≡◌, ◌⊎◌, inl, inr, refl, sym, ap, ◌∙◌, arith, Bool-cases, leb,
  ◌==◌, ==_iff, List, [], ◌∷◌, ◌++◌, map, replicate, length, length-replicate,
}
use mathlib.Core.List.{append_assoc, append-nil}
use zmachine.CharTables.{to_ebcdic}
use zmachine.CharTables.RoundTrip.{IsText, to_ascii-to_ebcdic}
use zmachine.ScreenData.{write_multiple, write_runs, write_screen_data}
use zmachine.ScreenData.Terminal.{
  Cell, character, no_order, order_of, anything, positions, cells_from, shows,
}
use zmachine.ScreenData.Address.{position, add_screen_address_lem}

-- The cells of some text
abbrev pub text_cells : List ℕ → List Cell
text_cells value = map (λ c. character (to_ebcdic c)) value

shows_char :
    (byte p : ℕ) (rest : List ℕ)
    → 0x40 ≤ byte
    → shows anything p (byte ∷ rest) ≡ (p, character byte) ∷ shows anything ((p + 1) % 1920) rest
shows_char byte p rest h =
    let plain : order_of byte ≡ no_order = ground arith in rw (plain, shows) refl

shows-replicate :
    (n byte p : ℕ) (rest : List ℕ)
    → 0x40 ≤ byte
    → p < 1920
    → shows anything p (replicate n byte ++ rest)
      ≡ cells_from p (replicate n (character byte)) ++ shows anything ((p + n) % 1920) rest
shows-replicate zero byte p rest h small = ap (λ q. shows anything q rest) (omega arith)
shows-replicate (suc n) byte p rest h small =
    shows_char byte p (replicate n byte ++ rest) h
    ∙ ap (λ zs. (p, character byte) ∷ zs)
        (shows-replicate n byte ((p + 1) % 1920) rest h (omega arith))
    ∙ ap
        (λ q.
          (p, character byte)
          ∷ (cells_from ((p + 1) % 1920) (replicate n (character byte)) ++ shows anything q rest))
        (omega arith)

-- A run, short or long, is shown as its characters.
shows-write_multiple :
    (col row ebcdic run : ℕ) (rest : List ℕ)
    → row < 24
    → col + run ≤ 80
    → (run ≡ 0) ⊎ (0x40 ≤ ebcdic)
    → shows anything (position col row) (write_multiple col row ebcdic run ++ rest)
      ≡ cells_from (position col row) (replicate run (character ebcdic))
        ++ shows anything (position (col + run) row) rest
unfolding write_multiple
shows-write_multiple col row ebcdic run rest hr hc (inl e) =
    rw e (ap (λ q. shows anything q rest) (omega arith))
shows-write_multiple col row ebcdic run rest hr hc (inr h) = elim (Bool-cases (leb run 4)) [
  | inl short ↦ rw short (
      shows-replicate run ebcdic (position col row) rest h (omega arith)
      ∙ ap
          (λ q.
            cells_from (position col row) (replicate run (character ebcdic))
            ++ shows anything q rest)
          (omega arith))
  | inr long ↦
      let (high, low, bytes, same) = add_screen_address_lem (col + run) row hr hc in
      let count : positions (position col row) (position (col + run) row) ≡ run = ground arith in
      rw (long, bytes, same, count) refl
]

pub cells_from-append :
    (xs ys : List Cell) (p q : ℕ)
    → p < 1920
    → (p + length xs) % 1920 ≡ q
    → cells_from p (xs ++ ys) ≡ cells_from p xs ++ cells_from q ys
cells_from-append [] ys p q small e = ap (λ r. cells_from r ys) (omega arith)
cells_from-append (x ∷ xs) ys p q small e =
    ap (λ zs. (p, x) ∷ zs) (cells_from-append xs ys ((p + 1) % 1920) q (omega arith) (omega arith))

replicate_snoc :
    (n : ℕ) (cell : Cell) (rest : List Cell)
    → replicate (n + 1) cell ++ rest ≡ replicate n cell ++ cell ∷ rest
replicate_snoc n cell rest = let e : n + 1 ≡ suc n = omega arith in rw e (go n)
  where
    go : (n : ℕ) → replicate (suc n) cell ++ rest ≡ replicate n cell ++ cell ∷ rest
    go zero = refl
    go (suc n) = ap (λ zs. cell ∷ zs) (go n)

shows-write_runs :
    (row : ℕ) (value : List ℕ) (col run last_char stop : ℕ) (rest : List ℕ)
    → row < 24
    → col + run + length value ≡ stop
    → stop ≤ 80
    → IsText value
    → (run ≡ 0) ⊎ (0x40 ≤ last_char)
    → shows anything (position col row) (write_runs row value col run last_char ++ rest)
      ≡ cells_from (position col row) (replicate run (character last_char) ++ text_cells value)
        ++ shows anything (position stop row) rest
unfolding write_runs
shows-write_runs row [] col run last_char stop rest hr e room text ok =
    shows-write_multiple col row last_char run rest hr (omega arith) ok
    ∙ ap
        (λ cells.
          cells_from (position col row) cells ++ shows anything (position (col + run) row) rest)
        (sym (append-nil (replicate run (character last_char))))
    ∙ ap
        (λ n.
          cells_from (position col row) (replicate run (character last_char) ++ [])
          ++ shows anything (position n row) rest)
        (omega arith)
shows-write_runs row (c ∷ value) col run last_char stop rest hr e room (printable, text) ok =
    let b = to_ebcdic c in
    let (_, low, _) = to_ascii-to_ebcdic c printable in
    elim (Bool-cases (b == last_char)) [
      | inl same ↦
          let equal : b ≡ last_char = (==_iff b last_char).0 same in
          rw same (
            shows-write_runs row value col (run + 1) b stop rest hr (omega arith) room text
              (inr low)
            ∙ ap
                (λ cells.
                  cells_from (position col row) cells ++ shows anything (position stop row) rest)
                (ap (λ b. replicate (run + 1) (character b) ++ text_cells value) equal
                  ∙ replicate_snoc run (character last_char) (text_cells value)
                  ∙ ap (λ b. replicate run (character last_char) ++ character b ∷ text_cells value)
                      (sym equal)))
      | inr other ↦
          let runs = replicate run (character last_char) in
          rw other (
            ap (shows anything (position col row)) (
              append_assoc (write_multiple col row last_char run)
                (write_runs row value (col + run) 1 b) rest)
            ∙ shows-write_multiple col row last_char run
                (write_runs row value (col + run) 1 b ++ rest) hr (omega arith) ok
            ∙ ap (λ zs. cells_from (position col row) runs ++ zs)
                (shows-write_runs row value (col + run) 1 b stop rest hr (omega arith) room text
                  (inr low))
            ∙ sym (append_assoc (cells_from (position col row) runs) _ _)
            ∙ ap (λ zs. zs ++ shows anything (position stop row) rest)
                (sym (
                  cells_from-append runs (character b ∷ text_cells value) (position col row)
                    (position (col + run) row) (omega arith)
                    (omega (arith, length-replicate run (character last_char))))))
    ]

-- For printable text that fits in its row, a terminal that reads the bytes of `WriteScreenData`
-- from the same position on sets the cells of the text to its EBCDIC, character by character, and
-- goes on behind the text with whatever bytes follow.
pub shows-write_screen_data :
    (col row : ℕ) (value rest : List ℕ)
    → row < 24
    → col + length value ≤ 80
    → IsText value
    → shows anything (position col row) (write_screen_data col row value ++ rest)
      ≡ cells_from (position col row) (text_cells value)
        ++ shows anything (position (col + length value) row) rest
unfolding write_screen_data
shows-write_screen_data col row value rest hr room text =
    shows-write_runs row value col 0 0 (col + length value) rest hr (omega arith) room text
      (inl refl)
