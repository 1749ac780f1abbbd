-- ===== src/Text.antt =====
-- Printing of zops.c: the two output streams, and the packed text of five-bit codes.
use zmachine.Base.{
  ℕ, zero, suc, ◌+◌, ◌-◌, ◌*◌, ◌/◌, ◌%◌, Bool, true, false, not, ◌&&◌, List, [], ◌∷◌, ltb, leb,
  ◌==◌, if◌then◌else◌, get_elem?,
}
use zmachine.Effects.{M, Done, out_of_fuel, pure, valid, stop, get, when, ◌>>=◌, ◌>>◌}
use zmachine.Memory.{read_byte, read_u16, set_memory}
use zmachine.Windows.{io_print_char}

-- With stream 3 on, a character goes to the table in memory behind its length; else to the screen.
unfoldable pub print_to_stream : ℕ → Done
print_to_stream value = do
  ptr ← get (λ s. s.mem_stream_ptr)
  on ← get (λ s. s.output_stream)
  if not (ptr == 0) && not (value == 0)
      then (do
        old ← read_u16 ptr
        let len = old + 1
        set_memory ptr (len / 256)
        set_memory (ptr + 1) (len % 256)
        set_memory (ptr + 1 + len) (if value == 10 then 13 else value))
      else when on (io_print_char value)

-- The local variables of `printText`.
pub record TextState : Type 0 where
  pub alphabet : ℕ
  pub abbr_next : Bool
  pub abbr_char : ℕ
  pub long_next : ℕ
  pub long_char : ℕ

abbrev pub text_start : TextState
text_start = record { alphabet = 0; abbr_next = false; abbr_char = 0; long_next = 0; long_char = 0 }

-- The text's characters of two bytes: three codes.
abbrev pub codes_of : ℕ → ℕ → List ℕ
codes_of pair1 pair2 = pair1 / 4 % 32 ∷ (pair1 % 4 * 8 + pair2 / 32 % 8) ∷ pair2 % 32 ∷ []

-- A code that neither continues a ten-bit character nor selects an abbreviation.
unfoldable pub plain_code : TextState → ℕ → M TextState
plain_code t c =
    if (c == 6) && (t.alphabet == 2)
    then pure (record t { long_next = 2; alphabet = 0 })
    else if leb 6 c
    then (do
      rows ← get (λ s. s.alphabet_lookup)
      row ← valid (get_elem? rows t.alphabet)
      char ← valid (get_elem? row (c - 6))
      print_to_stream char
      pure (record t { alphabet = 0 }))
    else if c == 4
    then pure (record t { alphabet = 1 })
    else if c == 5
    then pure (record t { alphabet = 2 })
    else if c == 0
    then print_to_stream b' ' >> pure t
    else pure (record t { abbr_char = c; abbr_next = true })

-- One code; `expand` prints the text of an abbreviation.
unfoldable pub text_code : (ℕ → M ℕ) → TextState → ℕ → M TextState
text_code expand t c =
    if ltb 0 t.long_next
    then (do
      let char = t.long_char * 32 % 0x400 + c
      when (t.long_next == 1) (print_to_stream (char % 256))
      pure (record t { long_char = char; long_next = t.long_next - 1 }))
    else if not t.abbr_next
    then plain_code t c
    else do
      table ← get (λ s. s.abbrev_table)
      address ← read_u16 (table + 2 * (32 * (t.abbr_char - 1) + c))
      _ ← expand (2 * address)
      pure (record t { abbr_next = false })

unfoldable pub text_codes : (ℕ → M ℕ) → TextState → List ℕ → M TextState
text_codes expand t [] = pure t
text_codes expand t (c ∷ cs) = do t' ← text_code expand t c; text_codes expand t' cs

-- The loop of `printText`, to the address behind the text. An abbreviation is the same loop, from
-- a state of its own.
unfoldable pub print_pairs : ℕ → TextState → ℕ → M ℕ
print_pairs zero t address = stop out_of_fuel
print_pairs (suc fuel) t address = do
  pair1 ← read_byte address
  pair2 ← read_byte (address + 1)
  t' ← text_codes (print_pairs fuel text_start) t (codes_of pair1 pair2)
  if leb 128 pair1 then pure (address + 2) else print_pairs fuel t' (address + 2)

-- A text of one memory's length that names abbreviations of the same length.
abbrev pub text_fuel : ℕ
text_fuel = 2_000_000

unfoldable pub print_text : ℕ → M ℕ
print_text address = print_pairs text_fuel text_start address
