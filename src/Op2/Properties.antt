-- ===== src/Op2/Properties.antt =====
-- The instructions `get_prop`, `get_prop_addr` and `get_next_prop` of Firmware/main/zops.c.
use zmachine.Base.{ℕ, ◌+◌, ◌*◌, ◌%◌, leb, ◌==◌, if◌then◌else◌}
use zmachine.Base.Int.{pos, eq_ℤ}
use zmachine.Effects.{Done, illegal_instruction, stop, get, ◌>>=◌}
use zmachine.Memory.{read_byte, read_s16}
use zmachine.Objects.{get_object, get_property}
use zmachine.Routine.{operand}
use zmachine.Operands.{store_result}

unfoldable pub get_prop : Done
get_prop = do
  id ← operand 0
  if eq_ℤ id (pos 0) then store_result (pos 0) else (do
    obj ← get_object id
    number ← operand 1
    prop ← get_property obj number
    if prop.size == 1
        then (do b ← read_byte prop.addr; store_result (pos b))
        else if prop.size == 2
        then (do v ← read_s16 prop.addr; store_result v)
        else stop illegal_instruction)

unfoldable pub get_prop_addr : Done
get_prop_addr = do
  id ← operand 0
  if eq_ℤ id (pos 0) then store_result (pos 0) else (do
    obj ← get_object id
    number ← operand 1
    prop ← get_property obj number
    store_result (if prop.is_default then pos 0 else pos prop.addr))

-- The property number in a size byte.
abbrev pub prop_number : ℕ → ℕ → ℕ
prop_number version size_id = if leb version 3 then size_id % 32 else size_id % 64

unfoldable pub get_next_prop : Done
get_next_prop = do
  id ← operand 0
  if eq_ℤ id (pos 0) then store_result (pos 0) else (do
    obj ← get_object id
    version ← get (λ s. s.version)
    number ← operand 1
    if eq_ℤ number (pos 0)
        then (do
          text_len ← read_byte obj.prop_table
          size_id ← read_byte (obj.prop_table + 1 + text_len * 2)
          store_result (pos (prop_number version size_id)))
        else (do
          prop ← get_property obj number
          if prop.is_default then stop illegal_instruction else (do
            size_id ← read_byte (prop.addr + prop.size)
            store_result (pos (prop_number version size_id)))))
