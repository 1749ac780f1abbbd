-- ===== src/Objects.antt =====
-- The object table of zops.c: objects, their parent, sibling and child, and their properties.
-- Three layouts differ by version: up to 3, entries of 9 bytes with byte links; from 4 on, entries
-- of 14 bytes with links of two bytes. Object numbers come from operands, so they are `int`s.
pub mod Links
pub mod Search
use zmachine.Base.{ℕ, zero, suc, ◌+◌, ◌*◌, ◌/◌, ◌%◌, true, false, leb, ◌==◌, if◌then◌else◌, length}
use zmachine.Base.Int.{ℤ, pos, negsuc, sub_ℕ, offset, eq_ℤ, quot, low_bits, ◌+ℤ◌, ◌*ℤ◌}
use zmachine.Base.Bits.{test_bit}
use zmachine.Machine.{ZObject, Property}
use zmachine.Effects.{M, Done, out_of_fuel, pure, stop, index, get, ◌>>=◌, ◌>>◌}
use zmachine.Memory.{read_memory, read_byte, set_memory, read_u16}

-- `ReadMemory(a)&0xFF`, a word, and `SetMemory(a, v)` at an `int` address
unfoldable pub read_byte_at : ℤ → M ℕ
read_byte_at a = do n ← index a; read_byte n

unfoldable pub read_u16_at : ℤ → M ℕ
read_u16_at a = do n ← index a; read_u16 n

unfoldable pub set_memory_at : ℤ → ℕ → Done
set_memory_at a v = do n ← index a; set_memory n v

-- `base + size * (id - 1)`
abbrev pub entry_addr : ℕ → ℕ → ℤ → ℤ
entry_addr base size (pos n) = sub_ℕ (base + size * n) size
entry_addr base size (negsuc n) = sub_ℕ base (size * (n + 2))

unfoldable pub get_object : ℤ → M ZObject
get_object id = do
  version ← get (λ s. s.version)
  table ← get (λ s. s.object_table)
  if leb version 3
      then (do
        let addr = entry_addr (table + 2 * 31) 9 id
        props ← read_u16_at (offset addr 7)
        pure (record { addr = addr; prop_table = props }))
      else (do
        let addr = entry_addr (table + 2 * 63) 14 id
        props ← read_u16_at (offset addr 12)
        pure (record { addr = addr; prop_table = props }))

-- A link at one offset up to version 3, at another from 4 on.
unfoldable pub get_link : ℕ → ℕ → ZObject → M ℕ
get_link small large obj = do
  version ← get (λ s. s.version)
  if leb version 3
      then read_byte_at (offset obj.addr small)
      else read_u16_at (offset obj.addr large)

unfoldable pub set_link : ℕ → ℕ → ZObject → ℤ → Done
set_link small large obj id = do
  version ← get (λ s. s.version)
  if leb version 3 then set_memory_at (offset obj.addr small) (low_bits id 256) else (do
    set_memory_at (offset obj.addr large) (low_bits (quot id (pos 256)) 256)
    set_memory_at (offset obj.addr (large + 1)) (low_bits id 256))

unfoldable pub zobject_get_parent : ZObject → M ℕ
zobject_get_parent = get_link 4 6

unfoldable pub zobject_get_sibling : ZObject → M ℕ
zobject_get_sibling = get_link 5 8

unfoldable pub zobject_get_child : ZObject → M ℕ
zobject_get_child = get_link 6 10

unfoldable pub zobject_set_parent : ZObject → ℤ → Done
zobject_set_parent = set_link 4 6

unfoldable pub zobject_set_sibling : ZObject → ℤ → Done
zobject_set_sibling = set_link 5 8

unfoldable pub zobject_set_child : ZObject → ℤ → Done
zobject_set_child = set_link 6 10

-- The size and number of the property whose first size byte is at `addr`, and where its data starts.
unfoldable pub property_head : ℕ → M (ℕ × ℕ × ℕ)
property_head addr = do
  version ← get (λ s. s.version)
  size_id ← read_byte addr
  if leb version 3
      then pure (size_id % 32, 1 + size_id / 32, addr + 1)
      else if test_bit size_id 7
      then (do
        second ← read_byte (addr + 1)
        let size = second % 64
        pure (size_id % 64, (if size == 0 then 64 else size), addr + 2))
      else pure (size_id % 64, (if test_bit size_id 6 then 2 else 1), addr + 1)

-- The address of the default value of a property.
unfoldable pub default_property : ℤ → M Property
default_property id = do
  table ← get (λ s. s.object_table)
  let addr = low_bits (pos table +ℤ (id +ℤ negsuc 0) *ℤ pos 2) 0x10000
  pure (record { addr = addr; size = 2; is_default = true })

-- The loop of `getProperty` over the object's list, which a size byte 0 ends.
unfoldable pub find_property : ℕ → ℤ → ℕ → M Property
find_property zero id addr = stop out_of_fuel
find_property (suc fuel) id addr = do
  b ← read_memory addr
  if b == 0 then default_property id else (do
    (prop_id, size, at) ← property_head addr
    if eq_ℤ (pos prop_id) id
        then pure (record { addr = at; size = size; is_default = false })
        else find_property fuel id (at + size))

-- Every round moves forward and reads, so the length of the memory is fuel enough.
unfoldable pub get_property : ZObject → ℤ → M Property
get_property obj id = do
  text_len ← read_byte obj.prop_table
  fuel ← get (λ s. length s.memory + s.end_of_dynamic + 1)
  find_property fuel id (obj.prop_table + 1 + text_len * 2)
