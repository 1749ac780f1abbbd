-- ===== src/Status.antt =====
-- `updateStatus` of zops.c, and the decimal output of `sprintf`.
use zmachine.Base.{
  ℕ, zero, suc, ◌+◌, ◌-◌, ◌/◌, ◌%◌, Bool, true, false, not, List, [], ◌∷◌, ◌++◌, ltb, leb,
  if◌then◌else◌, length, replicate,
}
use Prim.Native.Char.{code}
use Prim.Native.String.{String}
use zmachine.Base.Int.{ℤ, pos, negsuc, ltb_ℤ, ◌-ℤ◌}
use zmachine.Base.Bits.{test_bit}
use zmachine.Effects.{Done, get, skip, for_each, ◌>>=◌, ◌>>◌}
use zmachine.Memory.{read_memory}
use zmachine.Variables.{read_variable}
use zmachine.Objects.{get_object}
use zmachine.Text.{print_text}
use zmachine.Windows.{io_set_window, io_erase_window, io_print_char, io_get_cursor, print_blanks}

abbrev pub codes : String → List ℕ
codes String.[] = []
codes (String.◌∷◌ c s) = code c ∷ codes s

-- The decimal digits of a number, in front of what is there already; a number has fewer digits
-- than one more than its value.
unfoldable pub decimal_digits : ℕ → ℕ → List ℕ → List ℕ
decimal_digits zero n rest = rest
decimal_digits (suc fuel) n rest =
    let here = (b'0' + n % 10) ∷ rest in
    let more = decimal_digits fuel (n / 10) here in if ltb n 10 then here else more

unfoldable pub decimal : ℕ → List ℕ
decimal n = decimal_digits (n + 1) n []

-- `%0<width>d`; `%d` is width 0.
unfoldable pub format_int : ℕ → ℤ → List ℕ
format_int width (pos n) = let d = decimal n in replicate (width - length d) b'0' ++ d
format_int width (negsuc n) =
    let d = decimal (suc n) in b'-' ∷ (replicate (width - 1 - length d) b'0' ++ d)

unfoldable pub status_text : Bool → ℤ → ℤ → List ℕ
status_text is_time score turns =
    if is_time
    then codes "Time: " ++ (format_int 2 score ++ (codes ":" ++ format_int 2 turns))
    else if not (ltb_ℤ score (pos 0))
    then codes "Score: " ++ format_int 4 score
    else codes "Score: " ++ format_int 3 score

unfoldable pub update_status : Done
update_status = do
  version ← get (λ s. s.version)
  if leb version 3
      then (do
        flags ← read_memory 1
        if test_bit flags 4 then skip else (do
          object_id ← read_variable (pos 16)
          score ← read_variable (pos 17)
          turns ← read_variable (pos 18)
          room ← get_object object_id
          old_window ← io_set_window (pos 2) true
          io_erase_window (pos 2)
          io_print_char b' '
          _ ← print_text (room.prop_table + 1)
          (status_x, _) ← io_get_cursor
          (elim (pos 68 -ℤ status_x) [ pos n ↦ print_blanks n | negsuc _ ↦ skip ])
          flags' ← read_memory 1
          for_each (status_text (test_bit flags' 1) score turns) io_print_char
          io_print_char b' '
          _ ← io_set_window (pos old_window) false
          skip))
      else skip
