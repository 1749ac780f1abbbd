-- ===== src/Crc/Step.antt =====
-- About one step of the check register of Firmware/main/crc.cpp, as a linear map.
use zmachine.Base.{
  ℕ, ◌+◌, ◌*◌, ◌/◌, ◌%◌, ◌<◌, ◌≡◌, refl, sym, ap, ◌∙◌, arith, ◌==◌, if◌then◌else◌, bit_xor,
  Bool-cases, inl, inr,
}
use zmachine.Base.XorLaws.{bit_xor_split, bit_xor_double, bit_xor_assoc}
use zmachine.Crc.{crc_step}

-- What is left of a step when its data bit `x` is known and the top bit is shifted out.
abbrev feed : ℕ → ℕ → ℕ
feed x c = if x == 0 then c * 2 else bit_xor (c * 2 + 1) 0x1020

-- A number from its top bit and the fifteen below it.
abbrev word : ℕ → ℕ → ℕ
word top low = top * 0x8000 + low

crc_step-feed :
    (top low b : ℕ)
    → b < 2
    → top < 2
    → low < 0x8000
    → crc_step (word top low) b ≡ feed (bit_xor b top) low
unfolding crc_step
crc_step-feed top low b hb ht hl =
    let e : word top low / 0x8000 ≡ top = omega arith in
    let x = bit_xor b top in
    let (_, bit) = bit_xor_split 1 0 0 b top hb ht in
    elim (Bool-cases (x == 0)) [
      | inl same ↦
          let none_in : (x + word top low * 2) % 0x10000 ≡ low * 2 = ground arith in
          rw (e, same, none_in) refl
      | inr differ ↦
          let one_in : (x + word top low * 2) % 0x10000 ≡ low * 2 + 1 = ground arith in
          rw (e, differ, one_in) refl
    ]

double-bit_xor : (c d y : ℕ) → y < 2 → bit_xor (c * 2) (d * 2 + y) ≡ bit_xor c d * 2 + y
double-bit_xor c d y hy =
    let e : c * 2 + 0 ≡ c * 2 = omega arith in
    ap (λ n. bit_xor n (d * 2 + y)) (sym e) ∙ omega (arith, bit_xor_double c d 0 y (omega arith) hy)

feed-bit_xor : (x c d : ℕ) → feed x (bit_xor c d) ≡ bit_xor (c * 2) (feed x d)
feed-bit_xor x c d = elim (Bool-cases (x == 0)) [
  | inl e ↦
      let zero_added : d * 2 + 0 ≡ d * 2 = omega arith in
      rw e
        (omega (arith, double-bit_xor c d 0 (omega arith), ap (λ n. bit_xor (c * 2) n) zero_added))
  | inr e ↦ rw e (
      ap (λ n. bit_xor n 0x1020) (sym (double-bit_xor c d 1 (omega arith)))
      ∙ bit_xor_assoc (c * 2) (d * 2 + 1) 0x1020)
]

-- A step of an exclusive or is a step of one part, which the other part joins behind it.
pub crc_step-bit_xor :
    (c d b : ℕ)
    → c < 0x10000
    → d < 0x10000
    → b < 2
    → crc_step (bit_xor c d) b ≡ bit_xor (c * 2 % 0x10000) (crc_step d (bit_xor b (c / 0x8000)))
crc_step-bit_xor c d b hc hd hb =
    let tc = c / 0x8000 in
    let td = d / 0x8000 in
    let lc = c % 0x8000 in
    let ld = d % 0x8000 in
    let ec : word tc lc ≡ c = omega arith in
    let ed : word td ld ≡ d = omega arith in
    let (whole, low) = bit_xor_split 15 tc td lc ld (omega arith) (omega arith) in
    let (_, top) = bit_xor_split 1 0 0 tc td (omega arith) (omega arith) in
    let (_, joined) = bit_xor_split 1 0 0 b tc hb (omega arith) in
    let doubled : lc * 2 ≡ c * 2 % 0x10000 = omega arith in
    let parts : bit_xor c d ≡ word (bit_xor tc td) (bit_xor lc ld) =
      ap (λ n. bit_xor n d) (sym ec) ∙ ap (λ n. bit_xor (word tc lc) n) (sym ed) ∙ whole in
    ap (λ n. crc_step n b) parts
    ∙ crc_step-feed (bit_xor tc td) (bit_xor lc ld) b hb top low
    ∙ feed-bit_xor (bit_xor b (bit_xor tc td)) lc ld
    ∙ ap (λ n. bit_xor (lc * 2) (feed n ld)) (sym (bit_xor_assoc b tc td))
    ∙ ap (λ n. bit_xor (lc * 2) n)
        (sym (crc_step-feed td ld (bit_xor b tc) joined (omega arith) (omega arith)))
    ∙ ap (λ n. bit_xor (lc * 2) (crc_step n (bit_xor b tc))) ed
    ∙ ap (λ n. bit_xor n (crc_step d (bit_xor b tc))) doubled

-- The register stays a word.
pub crc_step-lt : (c b : ℕ) → crc_step c b < 0x10000
unfolding crc_step
crc_step-lt c b =
    let x = bit_xor b (c / 0x8000) in
    elim (Bool-cases (x == 0)) [
      | inl e ↦ rw e (omega arith)
      | inr e ↦
          let (_, h) =
            bit_xor_split 16 0 0 ((x + c * 2) % 0x10000) 0x1020 (omega arith) (omega arith) in
          rw e h
    ]
