-- ===== src/Tree.antt =====
-- The object tree of zops.c: `removeObject` and `addChild`.
use zmachine.Base.{ℕ, zero, suc, ◌==◌, if◌then◌else◌}
use zmachine.Base.Int.{ℤ, pos, eq_ℤ}
use zmachine.Effects.{M, Done, out_of_fuel, illegal_instruction, stop, skip, pure, ◌>>=◌, ◌>>◌}
use zmachine.Objects.{
  get_object, zobject_get_parent, zobject_get_sibling, zobject_get_child, zobject_set_parent,
  zobject_set_sibling, zobject_set_child,
}

-- The loop over the siblings; its result is the last value of `siblingId`. More rounds than there
-- are object numbers mean that the links form a cycle, in which the C code runs for ever.
unfoldable pub unlink_sibling : ℕ → ℤ → ℕ → ℕ → M ℕ
unlink_sibling zero child_id next_of_child sibling_id = stop out_of_fuel
unlink_sibling (suc fuel) child_id next_of_child sibling_id = if sibling_id == 0 then pure 0 else do
  sibling ← get_object (pos sibling_id)
  next ← zobject_get_sibling sibling
  if eq_ℤ (pos next) child_id
      then zobject_set_sibling sibling (pos next_of_child) >> pure sibling_id
      else unlink_sibling fuel child_id next_of_child next

abbrev pub max_objects : ℕ
max_objects = 65536

-- The child's sibling is read once, before the branches that use it.
unfoldable pub remove_object : ℤ → Done
remove_object child_id = do
  child ← get_object child_id
  parent_id ← zobject_get_parent child
  if parent_id == 0 then skip else (do
    parent ← get_object (pos parent_id)
    first ← zobject_get_child parent
    next_of_child ← zobject_get_sibling child
    (if eq_ℤ (pos first) child_id then zobject_set_child parent (pos next_of_child) else (do
      last ← unlink_sibling max_objects child_id next_of_child first
      if last == 0 then stop illegal_instruction else skip))
    zobject_set_parent child (pos 0)
    zobject_set_sibling child (pos 0))

unfoldable pub add_child : ℤ → ℤ → Done
add_child parent_id child_id = do
  child ← get_object child_id
  parent ← get_object parent_id
  first ← zobject_get_child parent
  zobject_set_sibling child (pos first)
  zobject_set_parent child parent_id
  zobject_set_child parent child_id
