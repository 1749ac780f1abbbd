-- ===== src/ScreenData/Length.antt =====
-- About the number of bytes that `WriteScreenData` of Firmware/main/Screen.cpp writes.
use zmachine.Base.{
  ℕ, ◌+◌, ◌≤◌, arith, Bool-cases, inl, inr, leb, ◌==◌, List, [], ◌∷◌, length, length-append,
  length-replicate,
}
use zmachine.CharTables.{to_ebcdic}
use zmachine.ScreenData.{add_screen_address, write_multiple, write_runs, write_screen_data}

length-write_multiple : (col row ebcdic run : ℕ) → length (write_multiple col row ebcdic run) ≤ run
unfolding write_multiple add_screen_address
length-write_multiple col row ebcdic run = elim (Bool-cases (leb run 4)) [
  | inl short ↦ rw short (omega (arith, length-replicate run ebcdic))
  | inr long ↦ rw long (ground arith)
]

length-write_runs :
    (row : ℕ) (value : List ℕ) (col run last_char : ℕ)
    → length (write_runs row value col run last_char) ≤ run + length value
unfolding write_runs
length-write_runs row [] col run last_char =
    omega (arith, length-write_multiple col row last_char run)
length-write_runs row (c ∷ value) col run last_char =
    let e = to_ebcdic c in
    elim (Bool-cases (e == last_char)) [
      | inl same ↦ rw same (omega (arith, length-write_runs row value col (run + 1) e))
      | inr other ↦ rw other (
          omega (
            arith,
            length-append (write_multiple col row last_char run)
                (write_runs row value (col + run) 1 e),
            length-write_multiple col row last_char run,
            length-write_runs row value (col + run) 1 e,
          ))
    ]

pub length-write_screen_data :
    (col row : ℕ) (value : List ℕ) → length (write_screen_data col row value) ≤ length value
unfolding write_screen_data
length-write_screen_data col row value = omega (arith, length-write_runs row value col 0 0)
