-- ===== src/Screen/Grid.antt =====
-- About the rows of Firmware/main/Screen.cpp: their sizes and the characters in them.
use zmachine.Base.{
  ℕ, zero, suc, ◌<◌, ◌≡◌, refl, ◌∙◌, arith, some, List, subst, Bool-cases, inl, inr, ◌==◌,
  get_elem?, get_elem?-some, get_elem?-set, set, length, length-set, replicate, length-replicate,
}
use zmachine.CharTables.RoundTrip.{IsPrintable}
use zmachine.Screen.{Screen, put_cell, get_cell, blank_line}

-- A line of printable characters, and a screen of such lines.
pub record IsLine (line : List ℕ) : Type 0 where
  pub size : length line ≡ 80
  pub printable : (j c : ℕ) → get_elem? line j ≡ some c → IsPrintable c

pub record IsGrid (rows : List (List ℕ)) : Type 0 where
  pub size : length rows ≡ 24
  pub lines : (i : ℕ) (line : List ℕ) → get_elem? rows i ≡ some line → IsLine line

pub set-IsLine :
    (line : List ℕ) (col c : ℕ) → IsLine line → col < 80 → IsPrintable c → IsLine (set line col c)
set-IsLine line col c l inside p = record {
  size = length-set line col c ∙ l.size;
  printable = λ j d e.
      let old = l.printable j d in
      let split = get_elem?-set line col j c (omega (arith, l.size)) in
      ground (arith, old, split, p);
}

pub set-IsGrid :
    (rows : List (List ℕ)) (row : ℕ) (line : List ℕ)
    → IsGrid rows
    → row < 24
    → IsLine line
    → IsGrid (set rows row line)
set-IsGrid rows row line g inside l = record {
  size = length-set rows row line ∙ g.size;
  lines = λ i other e.
      let at = get_elem?-set rows row i line (omega (arith, g.size)) in
      elim (Bool-cases (row == i)) [
        | inl same ↦ let found : line ≡ other = ground (arith, at) in subst IsLine found l
        | inr differs ↦ g.lines i other (ground (arith, at))
      ];
}

-- Inside the screen, a cell can be written and read.
pub put_cell-IsGrid :
    (row col char : ℕ) (s : Screen)
    → IsGrid s.rows
    → row < 24
    → col < 80
    → IsPrintable char
    → (rows : List (List ℕ)) × (put_cell row col char s ≡ some (record s { rows = rows }))
      × IsGrid rows
unfolding put_cell
put_cell-IsGrid row col char s g inside in_line p =
    let (line, e) = get_elem?-some s.rows row (omega (arith, g.size)) in
    let l = g.lines row line e in
    (
      set s.rows row (set line col char),
      ground (arith, e, l.size),
      set-IsGrid s.rows row (set line col char) g inside (set-IsLine line col char l in_line p),
    )

pub get_cell-IsPrintable :
    (row col : ℕ) (s : Screen)
    → IsGrid s.rows
    → row < 24
    → col < 80
    → (char : ℕ) × (get_cell row col s ≡ some char) × IsPrintable char
unfolding get_cell
get_cell-IsPrintable row col s g inside in_line =
    let (line, e) = get_elem?-some s.rows row (omega (arith, g.size)) in
    let l = g.lines row line e in
    let (char, e') = get_elem?-some line col (omega (arith, l.size)) in
    (char, ground (arith, e, e'), l.printable col char e')

get_elem?-replicate :
    {A : Type 0} (n : ℕ) (v : A) (j : ℕ) (c : A) → get_elem? (replicate n v) j ≡ some c → v ≡ c
get_elem?-replicate zero v j c e = ground arith
get_elem?-replicate (suc n) v zero c e = ground arith
get_elem?-replicate (suc n) v (suc j) c e = get_elem?-replicate n v j c e

pub blank_line-IsLine : IsLine blank_line
blank_line-IsLine = record {
  size = refl;
  printable = λ j c e. let same = get_elem?-replicate 80 b' ' j c e in omega arith;
}

pub blank_rows-IsGrid : IsGrid (replicate 24 blank_line)
blank_rows-IsGrid = record {
  size = length-replicate 24 blank_line;
  lines = λ i line e. subst IsLine (get_elem?-replicate 24 blank_line i line e) blank_line-IsLine;
}
