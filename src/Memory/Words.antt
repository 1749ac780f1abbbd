-- ===== src/Memory/Words.antt =====
-- Words of two bytes: the conversions between a C `int` and the bytes that hold it.
use zmachine.Base.{ℕ, ◌+◌, ◌/◌, ◌%◌, ◌<◌, ◌≡◌, arith, ◌==◌, if◌then◌else◌, some, List}
use zmachine.Base.Int.{ℤ, pos, negsuc, low_bits, signed}
use zmachine.Machine.{Machine}
use zmachine.Effects.{ok, ◌>>◌}
use zmachine.Memory.{make_s16, read_s16, set_memory}
use zmachine.Memory.Flat.{byte_at, with_chunks, IsMapped, set_memory_lem, read_byte_lem}

-- The sixteen-bit reading of a pattern, as `makeS16` makes it from its two bytes.
pub make_s16-signed : (w : ℕ) → w < 0x10000 → make_s16 (w / 256) (w % 256) ≡ signed 0x8000 0x10000 w
unfolding make_s16
make_s16-signed w h = ground arith

-- The pattern of what a pattern stands for is that pattern.
pub low_bits-signed : (w : ℕ) → w < 0x10000 → low_bits (signed 0x8000 0x10000 w) 0x10000 ≡ w
low_bits-signed w h = ground arith

pub low_bits-lt : (v : ℤ) → low_bits v 0x10000 < 0x10000
low_bits-lt (pos n) = omega arith
low_bits-lt (negsuc n) = omega arith

pub low_byte : (v : ℤ) → low_bits v 256 ≡ low_bits v 0x10000 % 256
low_byte (pos n) = omega arith
low_byte (negsuc n) = omega arith

pub read_s16_lem :
    (s : Machine) (a : ℕ) {b c : ℕ}
    → byte_at s a ≡ some b
    → byte_at s (a + 1) ≡ some c
    → read_s16 a s ≡ ok (make_s16 (b % 256) (c % 256)) s
unfolding read_s16
read_s16_lem s a h k = rw (read_byte_lem s a h, read_byte_lem s (a + 1) k)

module _ (s : Machine) (m : IsMapped s) (a u v : ℕ) where
  -- Two bytes written one after the other.
  pub set_two_lem :
      a + 1 < s.end_of_dynamic
      → (chunks : List (List ℕ)) × ((set_memory a u >> set_memory (a + 1) v) s
          ≡ ok tt (with_chunks s chunks))
        × ((j : ℕ)
            → byte_at (with_chunks s chunks) j ≡ (
                if a + 1 == j
                then some (v % 256)
                else if a == j
                then some (u % 256)
                else byte_at s j))
        × IsMapped (with_chunks s chunks)
  set_two_lem h =
      let (chunks, done, bytes, m') = set_memory_lem s m a u (omega arith) in
      let (chunks', done', bytes', m'') =
        set_memory_lem (with_chunks s chunks) m' (a + 1) v (omega arith) in
      (chunks', rw (done, done'), (λ j. ground (arith, bytes j, bytes' j)), m'')
