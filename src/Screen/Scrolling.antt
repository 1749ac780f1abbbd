-- ===== src/Screen/Scrolling.antt =====
-- About ConditionalScroll of Firmware/main/Screen.cpp: its [MORE] prompt does not scroll again.
use zmachine.Base.{
  ℕ, zero, suc, ◌+◌, ◌%◌, ◌<◌, ◌≡◌, refl, ap, arith, Bool, true, false, not, ◌&&◌, ◌||◌, Option,
  some, List, [], ◌∷◌, ltb, leb, subst, ◌==◌, if◌then◌else◌, get_elem?, get_elem?-some, length,
}
use zmachine.Base.Int.{pos, ltb_ℤ}
use zmachine.CharTables.RoundTrip.{IsPrintable, IsText}
use zmachine.Screen.{
  Screen, ReadEnd, put_cell, copy_lines, scroll_lines, more_text, show_more, clear_line,
  conditional_scroll, put_char, print_char, print_chars, print_text, read_wait, start_reading,
  blank_line,
}
use zmachine.Screen.Grid.{blank_line-IsLine}
use zmachine.Screen.Valid.{
  IsValid, IsAt, IsAt-IsValid, IsValid-same, Yields, yields, Yields-bind, Yields-some, Yields-if,
  put_cell-IsAt, set_row-IsAt,
}

copy_lines-IsAt :
    (n col : ℕ) (wordwrap : Bool) (s : Screen)
    → IsAt col wordwrap s
    → Yields (IsAt col wordwrap) (copy_lines n s)
unfolding copy_lines
copy_lines-IsAt zero col wordwrap s a = yields s a
copy_lines-IsAt (suc n) col wordwrap s a =
    let (moved, e) =
      get_elem?-some s.rows ((s.top_line + n) % 24) (omega (arith, a.shown.grid.size)) in
    Yields-some (get_elem? s.rows ((s.top_line + n) % 24)) moved _ e (
      copy_lines-IsAt n col wordwrap _ (
        set_row-IsAt ((s.top_line + 1 + n) % 24) col wordwrap moved s a (omega arith)
          (a.shown.grid.lines ((s.top_line + n) % 24) moved e)))

scroll_lines-IsAt :
    (col : ℕ) (wordwrap : Bool) (s : Screen)
    → IsAt col wordwrap s
    → Yields (IsAt col wordwrap) (scroll_lines s)
unfolding scroll_lines
scroll_lines-IsAt col wordwrap s a =
    Yields-bind (copy_lines s.non_scrolling_rows s) _
      (copy_lines-IsAt s.non_scrolling_rows col wordwrap s a)
      (λ t b. yields _ (record {
        shown = record { grid = b.shown.grid; top = omega arith; row = b.shown.row };
        same_col = b.same_col;
        same_wordwrap = b.same_wordwrap;
      }))

clear_line-IsAt :
    (col : ℕ) (wordwrap : Bool) (s : Screen)
    → IsAt col wordwrap s
    → Yields (IsAt col wordwrap) (clear_line s)
unfolding clear_line
clear_line-IsAt col wordwrap s a =
    Yields-if (ltb s.cursor_row (length s.rows)) _ _
      (λ inside.
        yields _
          (set_row-IsAt s.cursor_row col wordwrap blank_line s a a.shown.row blank_line-IsLine))
      (λ outside. absurd (ground (arith, a.shown.grid.size, a.shown.row)))

if_elim :
    {A : Type 0} (P : A → Type 0) (test : Bool) (x y : A) → P x → P y → P (if test then x else y)
if_elim P true x y p q = p
if_elim P false x y p q = q

more_text-IsText : IsText more_text
more_text-IsText = omega arith

module _ (wait : Screen → Screen × Bool) (print : List ℕ → Screen → Option Screen) where
  -- A printable character that does not end its line.
  put_char-IsAt :
      (c col : ℕ) (s : Screen)
      → IsAt col false s
      → col + 1 < 80
      → IsPrintable c
      → Yields (IsAt (col + 1) false) (put_char wait print c s)
  unfolding put_char
  put_char-IsAt c col s a fits p =
      Yields-bind (put_cell s.cursor_row s.cursor_col c s) _
        (put_cell-IsAt s.cursor_row s.cursor_col c col false s a a.shown.row
          (omega (arith, a.same_col)) p)
        (λ t b.
          Yields-if (leb 80 (t.cursor_col + 1)) _ _ (λ ends. absurd (ground (arith, b.same_col)))
            (λ inside. yields _ (record {
              shown = record { grid = b.shown.grid; top = b.shown.top; row = b.shown.row };
              same_col = ap (λ n. n + 1) b.same_col;
              same_wordwrap = b.same_wordwrap;
            })))

  print_char-IsAt :
      (c col : ℕ) (s : Screen)
      → IsAt col false s
      → col + 1 < 80
      → IsPrintable c
      → Yields (IsAt (col + 1) false) (print_char wait print c s)
  unfolding print_char
  print_char-IsAt c col s a fits p =
      Yields-if (ltb c 0x20 || leb 0x7F c) _ _ (λ control. absurd (ground (arith, p.0, p.1)))
        (λ text.
          Yields-if (not s.wordwrap) _ _ (λ plain. put_char-IsAt c col s a fits p)
            (λ wraps. absurd (ground (arith, a.same_wordwrap))))

  print_chars-IsAt :
      (text : List ℕ) (col stop : ℕ) (s : Screen)
      → IsAt col false s
      → col + length text ≡ stop
      → stop < 80
      → IsText text
      → Yields (IsAt stop false) (print_chars wait print text s)
  unfolding print_chars
  print_chars-IsAt [] col stop s a e fits p = yields s (subst (λ n. IsAt n false s) (omega arith) a)
  print_chars-IsAt (c ∷ text) col stop s a e fits p =
      Yields-bind (print_char wait print c s) _ (print_char-IsAt c col s a (omega arith) p.0)
        (λ t b. print_chars-IsAt text (col + 1) stop t b (omega arith) fits p.1)

-- What the other task does keeps a valid screen valid.
unfoldable pub WaitKeeps : (Screen → Screen × Bool) → Type 0
WaitKeeps wait = (s : Screen) → IsValid s → IsValid (wait s).0

module _ (wait : Screen → Screen × Bool) (keeps : WaitKeeps wait) where
  start_reading-IsValid :
      (raw password : Bool) (s : Screen) → IsValid s → IsValid (start_reading raw password s)
  unfolding start_reading
  start_reading-IsValid raw password s v =
      if_elim IsValid (not s.suspended && not s.cancel_input) _ _
        (IsValid-same s _ v refl refl refl refl refl) (IsValid-same s _ v refl refl refl refl refl)

  pub read_wait-IsValid :
      (raw password : Bool) (s : Screen) → IsValid s → IsValid (read_wait wait raw password s).0
  unfolding read_wait WaitKeeps
  read_wait-IsValid raw password s v =
      let (later, given) = wait (start_reading raw password s) in
      let v' : IsValid later =
        keeps (start_reading raw password s) (start_reading-IsValid raw password s v) in
      if_elim (λ (r : Screen × ReadEnd). IsValid r.0) (not given) _ _ v'
        (if_elim (λ (r : Screen × ReadEnd). IsValid r.0) (ltb_ℤ later.last_input_length (pos 0)) _ _
          (IsValid-same later _ v' refl refl refl refl refl)
          (IsValid-same later _ v' refl refl refl refl refl))

  show_more-IsAt :
      (wordwrap : Bool) (s : Screen)
      → IsAt 0 wordwrap s
      → Yields (IsAt 0 wordwrap) (show_more wait (print_text wait 1) s)
  unfolding show_more print_text
  show_more-IsAt wordwrap s a =
      let no_wrap : IsAt 0 false (record s { wordwrap = false }) = record {
        shown = record { grid = a.shown.grid; top = a.shown.top; row = a.shown.row };
        same_col = a.same_col;
        same_wordwrap = refl;
      } in
      Yields-bind (print_text wait 1 more_text (record s { wordwrap = false })) _
        (print_chars-IsAt wait (print_text wait 0) more_text 0 6 (record s { wordwrap = false })
          no_wrap refl (omega arith) more_text-IsText)
        (λ t b.
          let v =
            read_wait-IsValid false true t
              (IsAt-IsValid 6 false t b (omega arith) (λ e. absurd (ground arith))) in
          yields _ (record {
            shown = record { grid = v.shown.grid; top = v.shown.top; row = v.shown.row };
            same_col = refl;
            same_wordwrap = a.same_wordwrap;
          }))

  -- A new line, whatever the column was.
  pub conditional_scroll-IsAt :
      (col : ℕ) (wordwrap : Bool) (s : Screen)
      → IsAt col wordwrap s
      → Yields (IsAt 0 wordwrap) (conditional_scroll wait (print_text wait 1) s)
  unfolding conditional_scroll
  conditional_scroll-IsAt col wordwrap s a =
      let row = if leb 24 (s.cursor_row + 1) then 0 else s.cursor_row + 1 in
      let moved : Screen = record s { cursor_col = 0; cursor_row = row } in
      let at : IsAt 0 wordwrap moved = record {
        shown = record {
          grid = a.shown.grid;
          top = a.shown.top;
          row = ground (arith, a.shown.row);
        };
        same_col = refl;
        same_wordwrap = a.same_wordwrap;
      } in
      Yields-bind (if row == s.top_line then scroll_lines moved else some moved) _
        (Yields-if (row == s.top_line) _ _ (λ scrolls. scroll_lines-IsAt 0 wordwrap moved at)
          (λ stays. yields moved at))
        (λ t b.
          Yields-bind
            (if ltb 24 (t.scrolls_without_input + t.non_scrolling_rows)
              then show_more wait (print_text wait 1) t
              else some t)
            _
            (Yields-if (ltb 24 (t.scrolls_without_input + t.non_scrolling_rows)) _ _
              (λ full. show_more-IsAt wordwrap t b) (λ room. yields t b))
            (λ u c. clear_line-IsAt 0 wordwrap u c))
