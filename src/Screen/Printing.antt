-- ===== src/Screen/Printing.antt =====
-- About Print of Firmware/main/Screen.cpp: it stays inside of the rows, its word wrap included.
use zmachine.Base.{
  ℕ, zero, suc, ◌+◌, ◌-◌, ◌<◌, ◌≤◌, ◌≡◌, refl, ap, arith, Bool, false, not, ◌||◌, Option, some,
  List, [], ◌∷◌, ltb, leb, subst, Bool-cases, inl, inr, ◌==◌, if◌then◌else◌,
}
use zmachine.Base.Maybe.{◌>>=◌}
use zmachine.CharTables.RoundTrip.{IsPrintable}
use zmachine.Screen.{
  Screen, put_cell, get_cell, look_back, move_cells, wrap_word, conditional_scroll, put_char,
  print_char, print_chars, print_text,
}
use zmachine.Screen.Grid.{IsGrid, get_cell-IsPrintable}
use zmachine.Screen.Valid.{
  IsValid, IsAt, IsAt-IsValid, IsValid-IsAt, Yields, yields, Yields-bind, Yields-map, Yields-some,
  Yields-if, put_cell-IsAt,
}
use zmachine.Screen.Scrolling.{WaitKeeps, conditional_scroll-IsAt}

-- The search ends in the second half of the line before.
look_back-Bounds :
    (last row : ℕ) (s : Screen)
    → IsGrid s.rows
    → row < 24
    → last < 80
    → 40 ≤ last
    → (col : ℕ) × (look_back last row s ≡ some col) × (40 ≤ col) × (col ≤ last)
unfolding look_back
look_back-Bounds zero row s g inside in_line half = absurd (omega arith)
look_back-Bounds (suc last) row s g inside in_line half = elim (Bool-cases (leb (suc last) 40)) [
  | inl low ↦ (suc last, ground (arith, low), omega arith, omega arith)
  | inr high ↦
      let (char, e, _) = get_cell-IsPrintable row (suc last) s g inside in_line in
      elim (Bool-cases (char == b' ' || (char == b',' || char == b'.'))) [
        | inl found ↦ (suc last, ground (arith, high, e, found), omega arith, omega arith)
        | inr other ↦
            let (col, e', low, up) =
              look_back-Bounds last row s g inside (omega arith) (ground arith) in
            (col, ground (arith, high, e, other, e'), low, omega arith)
      ]
]

-- A character goes to the cursor, which moves on.
advance-Yields :
    {P : Screen → Type 0} (char cursor : ℕ) (wordwrap : Bool) (s : Screen)
    (next : Screen → Option Screen)
    → IsAt cursor wordwrap s
    → cursor < 80
    → IsPrintable char
    → ((t : Screen) → IsAt (cursor + 1) wordwrap t → Yields P (next t))
    → Yields P (do
      put ← put_cell s.cursor_row s.cursor_col char s
      next (record put { cursor_col = put.cursor_col + 1 }))
advance-Yields char cursor wordwrap s next a cursor_in p step =
    Yields-bind (put_cell s.cursor_row s.cursor_col char s) _
      (put_cell-IsAt s.cursor_row s.cursor_col char cursor wordwrap s a a.shown.row
        (omega (arith, a.same_col)) p)
      (λ t b. step _ (record {
        shown = record { grid = b.shown.grid; top = b.shown.top; row = b.shown.row };
        same_col = ap (λ n. n + 1) b.same_col;
        same_wordwrap = b.same_wordwrap;
      }))

move_cells-IsAt :
    (n row col cursor stop : ℕ) (wordwrap : Bool) (s : Screen)
    → IsAt cursor wordwrap s
    → row < 24
    → col + n ≤ 80
    → cursor + n ≡ stop
    → stop ≤ 80
    → Yields (IsAt stop wordwrap) (move_cells n row col s)
unfolding move_cells
move_cells-IsAt zero row col cursor stop wordwrap s a inside fits e room =
    yields s (subst (λ n. IsAt n wordwrap s) (omega arith) a)
move_cells-IsAt (suc n) row col cursor stop wordwrap s a inside fits e room =
    let (char, found, p) = get_cell-IsPrintable row col s a.shown.grid inside (omega arith) in
    Yields-some (get_cell row col s) char _ found (
      advance-Yields char cursor wordwrap s _ a (omega arith) p (λ t b.
        Yields-bind (put_cell row col b' ' t) _
          (put_cell-IsAt row col b' ' (cursor + 1) wordwrap t b inside (omega arith)
            (omega arith, omega arith))
          (λ u c.
            move_cells-IsAt n row (col + 1) (cursor + 1) stop wordwrap u c inside (omega arith)
              (omega arith) room)))

-- A word, or a last character, that is not longer than half a line
abbrev IsBelow : Bool → Screen → Type 0
IsBelow wordwrap s = (col : ℕ) × (col < 40) × IsAt col wordwrap s

wrap_word-Yields :
    (wordwrap : Bool) (s : Screen) → IsAt 0 wordwrap s → Yields (IsBelow wordwrap) (wrap_word s)
unfolding wrap_word
wrap_word-Yields wordwrap s a =
    let row = if s.cursor_row == 0 then 23 else s.cursor_row - 1 in
    let inside : row < 24 = ground (arith, a.shown.row) in
    let (last, e, low, up) =
      look_back-Bounds 79 row s a.shown.grid inside (omega arith) (omega arith) in
    let (char, found, p) = get_cell-IsPrintable row 79 s a.shown.grid inside (omega arith) in
    Yields-some (look_back 79 row s) last _ e (
      Yields-if (ltb 40 last) _ _
        (λ word.
          Yields-map _
            (move_cells-IsAt (80 - (last + 1)) row (last + 1) 0 (80 - (last + 1)) wordwrap s a
              inside (omega arith) (omega arith) (omega arith))
            (λ t b. (80 - (last + 1), ground (arith, word), b)))
        (λ long. Yields-some (get_cell row 79 s) char _ found (
          advance-Yields char 0 wordwrap s _ a (omega arith) p (λ t b.
            Yields-map _
              (put_cell-IsAt row 79 b'-' 1 wordwrap t b inside (omega arith)
                (omega arith, omega arith))
              (λ u c. (1, omega arith, c))))))

module _ (wait : Screen → Screen × Bool) (keeps : WaitKeeps wait) where
  put_char-IsValid :
      (char col : ℕ) (s : Screen)
      → IsAt col false s
      → col < 80
      → IsPrintable char
      → Yields IsValid (put_char wait (print_text wait 1) char s)
  unfolding put_char
  put_char-IsValid char col s a inside p =
      let next = λ (t : Screen).
        if leb 80 t.cursor_col
        then conditional_scroll wait (print_text wait 1)
            (record t { wordwrap = not (char == b' ') })
        else some t in
      advance-Yields char col false s next a inside p (λ t b.
        Yields-if (leb 80 t.cursor_col) _ _
          (λ ends.
            Yields-map _
              (conditional_scroll-IsAt wait keeps (col + 1) (not (char == b' '))
                (record t { wordwrap = not (char == b' ') })
                (record {
                  shown = record { grid = b.shown.grid; top = b.shown.top; row = b.shown.row };
                  same_col = b.same_col;
                  same_wordwrap = refl;
                }))
              (λ u c. IsAt-IsValid 0 (not (char == b' ')) u c (omega arith) (λ e. refl)))
          (λ room. yields t (
            IsAt-IsValid (col + 1) false t b (ground (arith, b.same_col))
              (λ e. absurd (ground arith)))))

  print_char-IsValid :
      (char : ℕ) (s : Screen)
      → IsValid s
      → Yields IsValid (print_char wait (print_text wait 1) char s)
  unfolding print_char
  print_char-IsValid char s v =
      let a = IsValid-IsAt s v in
      let unwrapped : Screen = record s { wordwrap = false } in
      let plain : IsAt s.cursor_col false unwrapped = record {
        shown = record { grid = v.shown.grid; top = v.shown.top; row = v.shown.row };
        same_col = refl;
        same_wordwrap = refl;
      } in
      Yields-if (ltb char 0x20 || leb 0x7F char) _ _
        (λ control.
          Yields-if (char == b'\n') _ _
            (λ line.
              Yields-map _ (conditional_scroll-IsAt wait keeps s.cursor_col false unwrapped plain)
                (λ t b. IsAt-IsValid 0 false t b (omega arith) (λ e. refl)))
            (λ other. yields s v))
        (λ text.
          let p : IsPrintable char = ground (arith, text) in
          Yields-if (not s.wordwrap) _ _
            (λ narrow.
              put_char-IsValid char s.cursor_col s
                (subst (λ w. IsAt s.cursor_col w s) (ground (arith, narrow)) a) v.col p)
            (λ wraps.
              Yields-if (char == b' ') _ _
                (λ space. yields unwrapped (
                  IsAt-IsValid s.cursor_col false unwrapped plain v.col
                    (λ e. absurd (ground arith))))
                (λ word.
                  Yields-bind (wrap_word unwrapped) _
                    (wrap_word-Yields false unwrapped
                      (subst (λ c. IsAt c false unwrapped) (v.wrap (ground (arith, wraps))) plain))
                    (λ t b. put_char-IsValid char b.0 t b.2 (omega (arith, b.1)) p))))

  print_chars-IsValid :
      (text : List ℕ) (s : Screen)
      → IsValid s
      → Yields IsValid (print_chars wait (print_text wait 1) text s)
  unfolding print_chars
  print_chars-IsValid [] s v = yields s v
  print_chars-IsValid (char ∷ text) s v =
      Yields-bind (print_char wait (print_text wait 1) char s) _ (print_char-IsValid char s v)
        (print_chars-IsValid text)

  -- On a valid screen (24 rows of 80 printable characters, the top line and the cursor inside of
  -- them, and a pending word wrap only at the start of a line), and with another task that keeps
  -- the screen valid during a wait: `Print` of any bytes succeeds with two levels of calls, so it
  -- never leaves the arrays, and its word wrap, its scrolling and the [MORE] prompt end in a valid
  -- screen.
  pub print_text-IsValid :
      (text : List ℕ) (s : Screen) → IsValid s → Yields IsValid (print_text wait 2 text s)
  unfolding print_text
  print_text-IsValid = print_chars-IsValid
