-- ===== src/Btree/Internal.antt =====
-- learndb/btree.py: the fields of an internal node.
use learndb_py.Prelude.{
  ℕ, zero, suc, ◌+◌, ◌-◌, ◌*◌, ◌%◌, ◌==◌, ltb, length, Bool, true, false, not, Result, ok, assert,
  ◌>>=◌, ◌>>◌, if◌then◌else◌,
}
use learndb_py.Bytes.Slices.{Bytes, slice, splice}
use learndb_py.Constants.InternalNode
use learndb_py.Btree.Words.{get_word, set_word}
use learndb_py.Btree.Node.{
  node_internal, to_bool, of_bool, set_node_type, set_node_is_root, set_parent_page_num,
}

unfoldable pub internal_node_cell_offset : ℕ → ℕ
internal_node_cell_offset cell_num = InternalNode.header_size + cell_num * InternalNode.cell_size

unfoldable pub internal_node_key_offset : ℕ → ℕ
internal_node_key_offset cell_num = internal_node_cell_offset cell_num + InternalNode.child_size

unfoldable pub internal_node_child_offset : ℕ → ℕ
internal_node_child_offset cell_num = internal_node_cell_offset cell_num

unfoldable pub internal_node_num_keys : Bytes → ℕ
internal_node_num_keys node = get_word node InternalNode.num_keys_offset

unfoldable pub internal_node_has_right_child : Bytes → Bool
internal_node_has_right_child node = to_bool (get_word node InternalNode.has_right_child_offset)

unfoldable pub internal_node_num_children : Bytes → ℕ
internal_node_num_children node =
    internal_node_num_keys node + (if internal_node_has_right_child node then 1 else 0)

unfoldable pub internal_node_child : Bytes → ℕ → ℕ
internal_node_child node child_num = get_word node (internal_node_child_offset child_num)

unfoldable pub internal_node_right_child : Bytes → ℕ
internal_node_right_child node = get_word node InternalNode.right_child_offset

unfoldable pub internal_node_cell : Bytes → ℕ → Result Bytes
internal_node_cell node key_num = do
  assert (not (key_num == InternalNode.max_cells))
  let offset = internal_node_cell_offset key_num
  ok (slice node offset (offset + InternalNode.cell_size))

unfoldable pub internal_node_key : Bytes → ℕ → ℕ
internal_node_key node key_num = get_word node (internal_node_key_offset key_num)

-- Where `child_num` is behind the last key, the slice ends before it starts, and is empty.
unfoldable pub internal_node_children_starting_at : Bytes → ℕ → Bytes
internal_node_children_starting_at node child_num =
    let offset = internal_node_cell_offset child_num in
    slice node offset (offset + (internal_node_num_keys node - child_num) * InternalNode.cell_size)

unfoldable pub set_internal_node_has_right_child : Bytes → Bool → Result Bytes
set_internal_node_has_right_child node has =
    set_word node InternalNode.has_right_child_offset (of_bool has)

unfoldable pub set_internal_node_cell : Bytes → ℕ → Bytes → Result Bytes
set_internal_node_cell node key_num cell = do
  assert (length cell == InternalNode.cell_size)
  let offset = internal_node_cell_offset key_num
  ok (splice node offset (offset + length cell) cell)

unfoldable pub set_internal_node_child : Bytes → ℕ → ℕ → Result Bytes
set_internal_node_child node child_num child_page_num = do
  assert (ltb child_page_num 100)
  set_word node (internal_node_child_offset child_num) child_page_num

unfoldable pub set_internal_node_children_starting_at : Bytes → Bytes → ℕ → Result Bytes
set_internal_node_children_starting_at node children child_num = do
  assert (length children % InternalNode.cell_size == 0)
  let offset = internal_node_cell_offset child_num
  ok (splice node offset (offset + length children) children)

unfoldable pub set_internal_node_key : Bytes → ℕ → ℕ → Result Bytes
set_internal_node_key node child_num key = set_word node (internal_node_key_offset child_num) key

unfoldable pub set_internal_node_num_keys : Bytes → ℕ → Result Bytes
set_internal_node_num_keys node num_keys = set_word node InternalNode.num_keys_offset num_keys

-- No child leaves the flag of the right child as it was.
unfoldable pub set_internal_children_count : Bytes → ℕ → Result Bytes
set_internal_children_count node zero = set_internal_node_num_keys node 0
set_internal_children_count node (suc inner) = do
  node' ← set_internal_node_has_right_child node true
  set_internal_node_num_keys node' inner

unfoldable pub set_internal_node_right_child : Bytes → ℕ → Result Bytes
set_internal_node_right_child node page_num = do
  node' ← set_internal_node_has_right_child node true
  assert (ltb page_num 100)
  set_word node' InternalNode.right_child_offset page_num

unfoldable pub initialize_internal_node : Bytes → Bool → ℕ → Result Bytes
initialize_internal_node node is_root parent = do
  node₁ ← set_node_type node node_internal
  node₂ ← set_internal_node_num_keys node₁ 0
  node₃ ← set_node_is_root node₂ is_root
  node₄ ← set_parent_page_num node₃ parent
  node₅ ← set_internal_node_num_keys node₄ 0
  set_internal_node_has_right_child node₅ false
