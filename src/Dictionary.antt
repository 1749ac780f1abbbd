-- ===== src/Dictionary.antt =====
-- Dictionary words of zops.c: packing a word into `coded`, and the search of the dictionary.
pub mod Packing
use zmachine.Base.{
  ℕ, zero, suc, ◌+◌, ◌*◌, ◌/◌, ◌%◌, Bool, true, false, Option, none, some, List, [], ◌∷◌, ltb, leb,
  ◌==◌, if◌then◌else◌, get_or, set, bit_or, replicate,
}
use zmachine.Base.Int.{abs}
use zmachine.Machine.{DictEntry}
use zmachine.Effects.{M, pure, get, ◌>>=◌}
use zmachine.Memory.{read_byte, read_s16}

unfoldable pub z_dict_init : ℕ → DictEntry
z_dict_init version =
    let old = leb version 3 in
    record {
      coded = 0 ∷ 0 ∷ (if old then 0x80 else 0) ∷ 0 ∷ (if old then 0 else 0x80) ∷ 0 ∷ [];
      current = 0;
    }

-- `coded[i] |= v`
abbrev pub or_coded : ℕ → ℕ → List ℕ → List ℕ
or_coded i v coded = set coded i (bit_or (get_or coded i 0) v)

-- The switch over `current`: three codes of five bits fill two bytes; codes past the ninth are lost.
unfoldable pub place_code : ℕ → ℕ → List ℕ → List ℕ
place_code current code coded =
    if current == 0
    then or_coded 0 (code * 4) coded
    else if current == 1
    then or_coded 1 (code * 32 % 256) (or_coded 0 (code / 8) coded)
    else if current == 2
    then or_coded 1 code coded
    else if current == 3
    then or_coded 2 (code * 4) coded
    else if current == 4
    then or_coded 3 (code * 32 % 256) (or_coded 2 (code / 8) coded)
    else if current == 5
    then or_coded 3 code coded
    else if current == 6
    then or_coded 4 (code * 4) coded
    else if current == 7
    then or_coded 5 (code * 32 % 256) (or_coded 4 (code / 8) coded)
    else if current == 8
    then or_coded 5 code coded
    else coded

unfoldable pub z_dict_add_character : DictEntry → ℕ → DictEntry
z_dict_add_character entry code = record {
  coded = place_code entry.current (code % 32) entry.coded;
  current = entry.current + 1;
}

unfoldable pub add_codes : DictEntry → List ℕ → DictEntry
add_codes entry [] = entry
add_codes entry (c ∷ cs) = add_codes (z_dict_add_character entry c) cs

-- The first index below 27 at which a row holds the character.
unfoldable pub code_in : List ℕ → ℕ → ℕ → ℕ → Option ℕ
code_in row char zero i = none
code_in [] char (suc n) i = none
code_in (x ∷ row) char (suc n) i =
    let rest = code_in row char n (i + 1) in if char == x then some i else rest

-- The alphabet and the code of a character, the first of the rows that has it.
unfoldable pub find_alphabet : List (List ℕ) → ℕ → ℕ → Option (ℕ × ℕ)
find_alphabet [] char a = none
find_alphabet (row ∷ rows) char a = elim (code_in row char 27 0) [
  | some i ↦ some (a, i)
  | none ↦ find_alphabet rows char (a + 1)
]

-- The codes that one character adds: a shift if it is needed, or the ten-bit escape.
unfoldable pub char_codes : List (List ℕ) → ℕ → List ℕ
char_codes rows char = elim (find_alphabet rows char 0) [
  | none ↦ 5 ∷ 6 ∷ (char / 32) ∷ (char % 32) ∷ []
  | some (alphabet, code) ↦
      if ltb 0 alphabet then (alphabet + 3) ∷ (code + 6) ∷ [] else (code + 6) ∷ []
]

unfoldable pub add_token : List (List ℕ) → DictEntry → List ℕ → DictEntry
add_token rows entry [] = entry
add_token rows entry (char ∷ token) = add_token rows (add_codes entry (char_codes rows char)) token

-- The word is padded by nine codes 5.
unfoldable pub encode_token : ℕ → List (List ℕ) → List ℕ → DictEntry
encode_token version rows token =
    add_codes (add_token rows (z_dict_init version) token) (replicate 9 5)

-- Whether the bytes from `addr` are `coded[from]` to `coded[from + n - 1]`; a byte is read only if
-- those before it agree.
unfoldable pub bytes_match : ℕ → ℕ → List ℕ → ℕ → M Bool
bytes_match zero i coded addr = pure true
bytes_match (suc n) i coded addr = do
  b ← read_byte (addr + i)
  if get_or coded i 0 == b then bytes_match n (i + 1) coded addr else pure false

-- Four bytes up to version 3, six from 4 on.
unfoldable pub search_dictionary : ℕ → ℕ → List ℕ → ℕ → M ℕ
search_dictionary zero entry_length coded addr = pure 0
search_dictionary (suc n) entry_length coded addr = do
  version ← get (λ s. s.version)
  found ← bytes_match (if leb version 3 then 4 else 6) 0 coded addr
  if found then pure addr else search_dictionary n entry_length coded (addr + entry_length)

unfoldable pub get_dictionary_address : List ℕ → ℕ → M ℕ
get_dictionary_address token dictionary = do
  entry_length ← read_byte dictionary
  count ← read_s16 (dictionary + 1)
  version ← get (λ s. s.version)
  rows ← get (λ s. s.alphabet_lookup)
  search_dictionary (abs count) entry_length (encode_token version rows token).coded
      (dictionary + 3)
