-- ===== src/Lexer/Words.antt =====
-- About the loop of `lexicalAnalysis` in Firmware/main/zops.c that cuts words, against the notion of
-- pieces of the input.
use zmachine.Base.{ℕ, ◌+◌, ◌<◌, ◌≤◌, ◌≡◌, List, [], ◌∷◌, length, take, drop}
use zmachine.Machine.{Token}

-- The words are taken from `current`, which starts at index `start` of the input: each is a piece of
-- 1 to 23 characters that begins where the one before it ends, or later.
abbrev pub Pieces : ℕ → List ℕ → List Token → Type 0
Pieces start current [] = Unit {0}
Pieces start current (t ∷ ts) =
    (skipped : ℕ) × (t.start ≡ start + skipped)
    × (t.text ≡ take (length t.text) (drop skipped current))
    × (0 < length t.text)
    × (length t.text ≤ 23)
    × Pieces (t.start + length t.text) (drop (skipped + length t.text) current) ts
