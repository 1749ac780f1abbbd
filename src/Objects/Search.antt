-- ===== src/Objects/Search.antt =====
-- About the loop of `getProperty` in Firmware/main/zops.c and its fuel.
use zmachine.Base.{
  ℕ, zero, suc, ◌+◌, ◌*◌, ◌/◌, ◌%◌, ◌<◌, ◌≡◌, refl, false, some, arith, leb, ltb, ◌==◌,
  if◌then◌else◌, length, get_elem?, Bool-cases, Option-cases, inl, inr, get_elem?-lt, ◌⊎◌,
}
use zmachine.Base.Int.{ℤ, pos, eq_ℤ}
use zmachine.Base.Bits.{test_bit}
use zmachine.Machine.{Machine, Property, ZObject}
use zmachine.Effects.{Run, ok, stopped, undefined}
use zmachine.Memory.{read_byte}
use zmachine.Memory.Flat.{byte_at, read_memory-byte_at, read_memory_lem}
use zmachine.Objects.{find_property, property_head, default_property, get_property}

read_byte-cases :
    (s : Machine) (a : ℕ)
    → ((b : ℕ) × (read_byte a s ≡ ok b s)) ⊎ (read_byte a s ≡ stopped undefined s)
unfolding read_byte
read_byte-cases s a = elim (Option-cases (byte_at s a)) [
  | inl e ↦ inr (ground (arith, read_memory-byte_at s a))
  | inr (b, e) ↦ inl (b % 256, ground (arith, read_memory-byte_at s a))
]

-- Behind a size byte the data starts further on; nothing is changed.
property_head-cases :
    (s : Machine) (a : ℕ)
    → ((id size at : ℕ) × (property_head a s ≡ ok (id, size, at) s) × (a < at))
      ⊎ (property_head a s ≡ stopped undefined s)
unfolding property_head
property_head-cases s a = elim (read_byte-cases s a) [
  | inr e ↦ inr (rw (e, property_head))
  | inl (b, e) ↦ elim (Bool-cases (leb s.version 3)) [
    | inl old ↦ inl (b % 32, 1 + b / 32, a + 1, rw (e, property_head, old), omega arith)
    | inr new ↦ elim (Bool-cases (test_bit b 7)) [
      | inl two ↦ elim (read_byte-cases s (a + 1)) [
        | inr e' ↦ inr (rw (e, property_head, new, two, e') refl)
        | inl (c, e') ↦ inl (
          b % 64,
          (if c % 64 == 0 then 64 else c % 64),
          a + 2,
          rw (e, property_head, new, two, e') refl,
          omega arith,
        )
      ]
      | inr one ↦ inl (
        b % 64,
        (if test_bit b 6 then 2 else 1),
        a + 1,
        rw (e, property_head, new, one) refl,
        omega arith,
      )
    ]
  ]
]

-- A byte that is there lies within the memory.
byte_at-lt :
    (s : Machine) (a : ℕ) {b : ℕ} → byte_at s a ≡ some b → a < length s.memory + s.end_of_dynamic
byte_at-lt s a {b} e = elim (Bool-cases (ltb a s.end_of_dynamic)) [
  | inl low ↦ ground arith
  | inr high ↦
      let there : get_elem? s.memory a ≡ some b = ground arith in
      let inside = get_elem?-lt s.memory a there in omega (arith, inside)
]

-- The outcome of a search in the state `s`, which it leaves as it is.
abbrev pub Ends : Run Property → Machine → Type 0
Ends run s = ((p : Property) × (run ≡ ok p s)) ⊎ (run ≡ stopped undefined s)

default_property-some : (id : ℤ) (s : Machine) → (p : Property) × (default_property id s ≡ ok p s)
unfolding default_property
default_property-some id s = (_, refl)

find_property-Ends :
    (fuel : ℕ) (id : ℤ) (a : ℕ) (s : Machine)
    → 0 < fuel
    → length s.memory + s.end_of_dynamic < a + fuel
    → Ends (find_property fuel id a s) s
unfolding find_property
find_property-Ends zero id a s some_fuel h = absurd (omega arith)
find_property-Ends (suc fuel) id a s some_fuel h = elim (Option-cases (byte_at s a)) [
  | inl none_there ↦ inr (ground (arith, read_memory-byte_at s a))
  | inr (b, there) ↦
      let read = read_memory_lem s a there in
      let inside = byte_at-lt s a there in
      elim (Bool-cases (b == 0)) [
        | inl end ↦ let (p, done) = default_property-some id s in inl (p, rw (read, end) done)
        | inr more ↦ elim (property_head-cases s a) [
          | inr e ↦ inr (rw (read, more, e) refl)
          | inl (found, size, at, e, further) ↦ elim (Bool-cases (eq_ℤ (pos found) id)) [
            | inl same ↦ inl (
              record { addr = at; size = size; is_default = false },
              rw (read, more, e, same) refl,
            )
            | inr other ↦
                let later = find_property-Ends fuel id (at + size) s (omega arith) (omega arith) in
                elim later [
                  | inl (p, done) ↦ inl (p, rw (read, more, e, other) done)
                  | inr out ↦ inr (rw (read, more, e, other) out)
                ]
          ]
        ]
      ]
]

-- For every object, property number and state, `getProperty` ends within its fuel: it gives a
-- property and leaves the state as it is, or it stops at a byte outside of memory.
pub get_property-Ends : (obj : ZObject) (id : ℤ) (s : Machine) → Ends (get_property obj id s) s
unfolding get_property
get_property-Ends obj id s = elim (read_byte-cases s obj.prop_table) [
  | inr e ↦ inr (rw (e, get_property) refl)
  | inl (n, e) ↦
      elim (find_property-Ends (length s.memory + s.end_of_dynamic + 1) id
        (obj.prop_table + 1 + n * 2) s (omega arith) (omega arith)) [
          | inl (p, done) ↦ inl (p, rw (e, get_property) done)
          | inr out ↦ inr (rw (e, get_property) out)
        ]
]
