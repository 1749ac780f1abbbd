-- ===== src/Lexer.antt =====
-- `lexicalAnalysis` of zops.c: the input is cut at spaces and separators, and each word is looked up.
-- `current` is the rest of the input that is not cut yet.
pub mod Words
use zmachine.Base.{
  ℕ, zero, suc, ◌+◌, ◌-◌, ◌/◌, ◌%◌, Bool, true, false, not, ◌||◌, Option, none, some, List, [], ◌∷◌,
  ltb, leb, ◌==◌, if◌then◌else◌, length, take, drop, min,
}
use zmachine.Machine.{Token}
use zmachine.Effects.{M, Done, undefined, out_of_fuel, pure, stop, skip, get, ◌>>=◌, ◌>>◌}
use zmachine.Memory.{read_memory, read_byte, set_memory}
use zmachine.Dictionary.{get_dictionary_address}

abbrev pub max_token_len : ℕ
max_token_len = 24

abbrev pub max_tokens : ℕ
max_tokens = 64

abbrev pub max_separators : ℕ
max_separators = 32

abbrev pub next_index : Option ℕ → Option ℕ
next_index none = none
next_index (some i) = some (suc i)

-- `strchr` as an index
unfoldable pub strchr : List ℕ → ℕ → Option ℕ
strchr [] c = none
strchr (x ∷ xs) c = if x == c then some 0 else next_index (strchr xs c)

-- The loop over the separators: `none` if one stands first, else where the word ends.
unfoldable pub word_end : List ℕ → List ℕ → ℕ → Option ℕ
word_end [] current best = some best
word_end (sep ∷ seps) current best = elim (strchr current sep) [
  | none ↦ word_end seps current best
  | some zero ↦ none
  | some (suc i) ↦ word_end seps current (if ltb (suc i) best then suc i else best)
]

unfoldable pub or_length : Option ℕ → List ℕ → ℕ
or_length none current = length current
or_length (some i) current = i

-- How far the next word reaches, and how many of its characters are kept.
unfoldable pub next_cut : List ℕ → List ℕ → ℕ × ℕ
next_cut seps text = elim (word_end seps text (or_length (strchr text b' ') text)) [
  | none ↦ (1, 1)
  | some n ↦ (n, min n (max_token_len - 1))
]

abbrev pub cons_token : Token → Option (List Token) → Option (List Token)
cons_token t none = none
cons_token t (some ts) = some (t ∷ ts)

-- The `while` loop. Every round takes a character at least, so the length of the input is fuel
-- enough; `none` means that it was not.
unfoldable pub split : ℕ → List ℕ → ℕ → List ℕ → Option (List Token)
split fuel seps start [] = some []
split zero seps start (c ∷ current) = none
split (suc fuel) seps start (c ∷ current) = elim (c == b' ') [
  | true ↦ split fuel seps (start + 1) current
  | false ↦
      let (n, len) = next_cut seps (c ∷ current) in
      cons_token (record { text = take len (c ∷ current); start = start })
        (split fuel seps (start + n) (drop n (c ∷ current)))
]

unfoldable pub read_bytes : ℕ → ℕ → M (List ℕ)
read_bytes zero addr = pure []
read_bytes (suc n) addr = do b ← read_memory addr; rest ← read_bytes n (addr + 1); pure (b ∷ rest)

-- Four bytes for each word, left alone when unknown words are to be ignored.
unfoldable pub write_tokens : List Token → ℕ → ℕ → Bool → Done
write_tokens [] parse_buffer dictionary ignore_unknown = skip
write_tokens (t ∷ ts) parse_buffer dictionary ignore_unknown = do
  found ← get_dictionary_address t.text dictionary
  version ← get (λ s. s.version)
  (if not ignore_unknown || not (found == 0)
      then (do
        set_memory parse_buffer (found / 256 % 256)
        set_memory (parse_buffer + 1) (found % 256)
        set_memory (parse_buffer + 2) (length t.text)
        set_memory (parse_buffer + 3) (t.start + (if leb 5 version then 2 else 1)))
      else skip)
  write_tokens ts (parse_buffer + 4) dictionary ignore_unknown

-- The ASSERTs only print: more separators or words than the arrays hold are written past their end.
unfoldable pub lexical_analysis : List ℕ → ℕ → ℕ → Bool → Done
lexical_analysis input parse_buffer dictionary ignore_unknown = do
  num_seps ← read_memory dictionary
  max_entries ← read_byte parse_buffer
  (if ltb max_separators num_seps then stop undefined else skip)
  seps ← read_bytes num_seps (dictionary + 1)
  elim (split (length input) seps 0 input) [
    | none ↦ stop out_of_fuel
    | some tokens ↦ do
      (if ltb max_tokens (length tokens) then stop undefined else skip)
      write_tokens (take max_entries tokens) (parse_buffer + 2) (dictionary + 1 + num_seps)
          ignore_unknown
      set_memory (parse_buffer + 1) (min max_entries (length tokens))
  ]
