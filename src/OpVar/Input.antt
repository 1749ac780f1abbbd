-- ===== src/OpVar/Input.antt =====
-- `sread`, `read_char`, `tokenise` and `encode_text`.
use zmachine.Base.{
  ℕ, zero, suc, ◌+◌, ◌-◌, Bool, true, false, not, ◌&&◌, ◌||◌, List, [], ◌∷◌, ltb, leb, ◌==◌,
  if◌then◌else◌, length, get_elem?, get_or, set, take, min,
}
use zmachine.Base.Int.{pos, negsuc, eq_ℤ, ◌+ℤ◌}
use zmachine.Effects.{
  M, Done, undefined, illegal_instruction, pure, valid, stop, skip, get, modify, index, when, ◌>>=◌,
  ◌>>◌,
}
use zmachine.Memory.{read_byte, read_memory, set_memory}
use zmachine.Routine.{operand}
use zmachine.Dictionary.{encode_token}
use zmachine.Lexer.{lexical_analysis}
use zmachine.Status.{update_status}
use zmachine.Windows.{io_read_input, io_set_window, io_set_cursor, num_cols, num_rows}
use zmachine.Operands.{operand_u16, store_result}

abbrev pub input_size : ℕ
input_size = 128

-- `tolower` in the C locale
abbrev pub tolower : ℕ → ℕ
tolower c = if leb b'A' c && leb c b'Z' then c + 32 else c

abbrev pub is_line_end : ℕ → Bool
is_line_end c = (c == 13) || (c == 10)

-- The loop over `m_input`, which it rewrites in place: the lower-case character goes to index
-- `kept`, and what stands at index `i` then goes to the game's buffer. The result is the string.
unfoldable pub accept_input : ℕ → ℕ → ℕ → ℕ → List ℕ → M (ℕ × List ℕ)
accept_input zero i kept addr input = pure (addr, take kept input)
accept_input (suc n) i kept addr input = do
  c ← valid (get_elem? input i)
  if is_line_end c then accept_input n (i + 1) kept addr input else (do
    let input' = set input kept (tolower c)
    set_memory addr (get_or input' i 0)
    accept_input n (i + 1) (kept + 1) (addr + 1) input')

abbrev pub set_input : List ℕ → Done
set_input text = modify (λ s. record s { input = text })

unfoldable pub sread : Done
sread = do
  buffer ← operand_u16 0
  parse ← operand_u16 1
  max_length ← read_byte buffer
  num_ops ← get (λ s. s.ins.num_ops)
  version ← get (λ s. s.version)
  (if ltb 2 num_ops then stop illegal_instruction else skip)
  update_status
  line ← io_read_input input_size false
  let start = buffer + (if leb 5 version then 2 else 1)
  (end, text) ← accept_input (min (length line) max_length) 0 0 start line
  set_input text
  (if ltb version 5 then set_memory end 0 else set_memory (buffer + 1) (length text))
  dictionary ← get (λ s. s.dictionary_table)
  when (ltb version 5 || not (parse == 0)) (lexical_analysis text parse dictionary false)
  when (leb 5 version) (store_result (pos 13))

unfoldable pub read_char : Done
read_char = do
  old_window ← io_set_window (pos 2) false
  io_set_cursor (pos (num_cols - 3)) (pos (num_rows - 1))
  line ← io_read_input input_size true
  set_input line
  _ ← io_set_window (pos old_window) false
  let first = get_or line 0 0
  store_result (if first == 0 then pos 13 else pos first)

-- At most `n` bytes, up to a zero.
unfoldable pub read_string : ℕ → ℕ → M (List ℕ)
read_string zero addr = pure []
read_string (suc n) addr = do
  b ← read_memory addr
  if b == 0 then pure [] else (do rest ← read_string n (addr + 1); pure (b ∷ rest))

-- A text that does not fit `m_input` with its terminator is written past its end.
unfoldable pub tokenise : Done
tokenise = do
  buffer ← operand_u16 0
  parse ← operand_u16 1
  num_ops ← get (λ s. s.ins.num_ops)
  own ← if ltb 2 num_ops then operand 2 else pure (pos 0)
  table ← if eq_ℤ own (pos 0) then get (λ s. s.dictionary_table) else operand_u16 2
  ignore ← if ltb 3 num_ops then operand 3 else pure (pos 0)
  count ← read_memory (buffer + 1)
  text ← read_string count (buffer + 2)
  (if leb input_size (length text) then stop undefined else skip)
  set_input text
  lexical_analysis text parse table (not (eq_ℤ ignore (pos 0)))

unfoldable pub write_coded : List ℕ → ℕ → Done
write_coded [] addr = skip
write_coded (c ∷ cs) addr = do set_memory addr c; write_coded cs (addr + 1)

-- At most nine characters are encoded.
unfoldable pub encode_text : Done
encode_text = do
  base ← operand_u16 0
  count ← operand 1
  from ← operand 2
  output ← operand_u16 3
  version ← get (λ s. s.version)
  rows ← get (λ s. s.alphabet_lookup)
  token ← elim count [
    | negsuc _ ↦ pure []
    | pos n ↦ if n == 0 then pure [] else (do a ← index (pos base +ℤ from); read_string (min 9 n) a)
  ]
  write_coded (encode_token version rows token).coded output
