-- ===== src/Screen/Valid.antt =====
-- What holds of the screen of Firmware/main/Screen.cpp between its calls.
use zmachine.Base.{
  ℕ, ◌<◌, ◌≡◌, refl, sym, ◌∙◌, arith, Bool, true, false, Option, some, List, subst, if◌then◌else◌,
  set,
}
use zmachine.Base.Maybe.{◌>>=◌}
use zmachine.CharTables.RoundTrip.{IsPrintable}
use zmachine.Screen.{Screen, put_cell, set_cursor_position, clear}
use zmachine.Screen.Reply.{process_3270_reply}
use zmachine.Screen.Grid.{IsLine, IsGrid, set-IsGrid, blank_rows-IsGrid, put_cell-IsGrid}

-- The rows are printable, and the top line and the cursor's row are inside of the screen.
pub record IsShown (s : Screen) : Type 0 where
  pub grid : IsGrid s.rows
  pub top : s.top_line < 24
  pub row : s.cursor_row < 24

-- Also the cursor's column is, and a word is wrapped from the start of a line only.
pub record IsValid (s : Screen) : Type 0 where
  pub shown : IsShown s
  pub col : s.cursor_col < 80
  pub wrap : s.wordwrap ≡ true → s.cursor_col ≡ 0

-- Shown, with the cursor's column and the word wrap given.
pub record IsAt (col : ℕ) (wordwrap : Bool) (s : Screen) : Type 0 where
  pub shown : IsShown s
  pub same_col : s.cursor_col ≡ col
  pub same_wordwrap : s.wordwrap ≡ wordwrap

-- A result that has a property.
pub record Yields (P : Screen → Type 0) (result : Option Screen) : Type 0 where
  pub final : Screen
  pub reached : result ≡ some final
  pub holds : P final

pub yields : {P : Screen → Type 0} (s : Screen) → P s → Yields P (some s)
yields s p = record { final = s; reached = refl; holds = p }

module _ {P Q : Screen → Type 0} where
  pub Yields-bind :
      (result : Option Screen) (next : Screen → Option Screen)
      → Yields P result
      → ((s : Screen) → P s → Yields Q (next s))
      → Yields Q (do s ← result; next s)
  Yields-bind result next y step =
      subst (λ r. Yields Q (do s ← r; next s)) (sym y.reached) (step y.final y.holds)

  pub Yields-map :
      (result : Option Screen) → Yields P result → ((s : Screen) → P s → Q s) → Yields Q result
  Yields-map result y weaken = record {
    final = y.final;
    reached = y.reached;
    holds = weaken y.final y.holds;
  }

module _ {P : Screen → Type 0} where
  pub Yields-some :
      {A : Type 0} (found : Option A) (x : A) (next : A → Option Screen)
      → found ≡ some x
      → Yields P (next x)
      → Yields P (do x ← found; next x)
  Yields-some found x next e y = subst (λ r. Yields P (do x ← r; next x)) (sym e) y

  pub Yields-if :
      (test : Bool) (then_ else_ : Option Screen)
      → (test ≡ true → Yields P then_)
      → (test ≡ false → Yields P else_)
      → Yields P (if test then then_ else else_)
  Yields-if true then_ else_ y n = y refl
  Yields-if false then_ else_ y n = n refl

pub set_row-IsAt :
    (row col : ℕ) (wordwrap : Bool) (line : List ℕ) (s : Screen)
    → IsAt col wordwrap s
    → row < 24
    → IsLine line
    → IsAt col wordwrap (record s { rows = set s.rows row line })
set_row-IsAt row col wordwrap line s a inside l = record {
  shown = record {
    grid = set-IsGrid s.rows row line a.shown.grid inside l;
    top = a.shown.top;
    row = a.shown.row;
  };
  same_col = a.same_col;
  same_wordwrap = a.same_wordwrap;
}

-- Writing a cell leaves the cursor.
pub put_cell-IsAt :
    (row col char cursor : ℕ) (wordwrap : Bool) (s : Screen)
    → IsAt cursor wordwrap s
    → row < 24
    → col < 80
    → IsPrintable char
    → Yields (IsAt cursor wordwrap) (put_cell row col char s)
put_cell-IsAt row col char cursor wordwrap s a inside in_line p =
    let (rows, e, g) = put_cell-IsGrid row col char s a.shown.grid inside in_line p in
    record {
      final = record s { rows = rows };
      reached = e;
      holds = record {
        shown = record { grid = g; top = a.shown.top; row = a.shown.row };
        same_col = a.same_col;
        same_wordwrap = a.same_wordwrap;
      };
    }

pub IsAt-IsValid :
    (col : ℕ) (wordwrap : Bool) (s : Screen)
    → IsAt col wordwrap s
    → col < 80
    → (wordwrap ≡ true → col ≡ 0)
    → IsValid s
IsAt-IsValid col wordwrap s a inside wrap = record {
  shown = a.shown;
  col = omega (arith, a.same_col);
  wrap = λ e. a.same_col ∙ wrap (sym a.same_wordwrap ∙ e);
}

pub IsValid-IsAt : (s : Screen) → IsValid s → IsAt s.cursor_col s.wordwrap s
IsValid-IsAt s v = record { shown = v.shown; same_col = refl; same_wordwrap = refl }

-- A valid screen is valid by its rows and its cursor.
pub IsValid-same :
    (s t : Screen)
    → IsValid s
    → s.rows ≡ t.rows
    → s.top_line ≡ t.top_line
    → s.cursor_row ≡ t.cursor_row
    → s.cursor_col ≡ t.cursor_col
    → s.wordwrap ≡ t.wordwrap
    → IsValid t
IsValid-same s t v rows top row col wordwrap = record {
  shown = record {
    grid = subst IsGrid rows v.shown.grid;
    top = omega (arith, v.shown.top, top);
    row = omega (arith, v.shown.row, row);
  };
  col = omega (arith, v.col, col);
  wrap = λ e. sym col ∙ v.wrap (wordwrap ∙ e);
}

pub clear-IsValid : (s : Screen) → s.top_line < 24 → IsValid (clear s)
unfolding clear set_cursor_position
clear-IsValid s top = record {
  shown = record { grid = blank_rows-IsGrid; top = top; row = ground (arith, top) };
  col = omega arith;
  wrap = λ e. refl;
}

pub process_3270_reply-IsValid :
    (value : List ℕ) (s : Screen) → IsValid s → IsValid (process_3270_reply value s)
unfolding process_3270_reply
process_3270_reply-IsValid value s v =
    IsValid-same s (process_3270_reply value s) v refl refl refl refl refl
