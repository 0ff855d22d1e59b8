-- ===== src/Btree/Deletion.antt =====
-- learndb/btree.py: the deletion of a cell from a leaf that is not compacted.
pub mod Freed
pub mod Closed
pub mod Removed
pub mod Order
use learndb_py.Prelude.{ℕ, ◌+◌, ◌-◌, ◌==◌, ltb, length, Result, ok, ◌>>=◌, if◌then◌else◌}
use learndb_py.Bytes.Slices.{Bytes}
use learndb_py.Constants.{null_ptr}
use learndb_py.Constants.FreeBlock
use learndb_py.Btree.Words.{set_word}
use learndb_py.Btree.Leaf.{
  leaf_node_num_cells, leaf_node_cellptr, leaf_node_cell, leaf_node_key, leaf_node_alloc_ptr,
  leaf_node_free_list_head, leaf_node_total_free_list_space, leaf_node_cellptrs_starting_at,
  set_leaf_node_alloc_ptr, set_leaf_node_free_list_head, set_leaf_node_total_free_list_space,
  set_leaf_node_cellptrs_starting_at, set_leaf_node_num_cells,
}

-- The block at `cellptr` becomes the head of the free list.
unfoldable pub link_block : Bytes → ℕ → Result Bytes
link_block node cellptr =
    let head = leaf_node_free_list_head node in
    if head == null_ptr
    then (do
      node' ← set_leaf_node_free_list_head node cellptr
      set_word node' (cellptr + FreeBlock.next_block_offset) null_ptr)
    else (do
      node' ← set_word node (cellptr + FreeBlock.next_block_offset) head
      set_leaf_node_free_list_head node' cellptr)

-- The cell at `cellptr`, which is not the last one that was allocated, becomes a free block.
unfoldable pub free_cell : Bytes → ℕ → Bytes → Result Bytes
free_cell node cellptr cell = do
  node₁ ← set_word node (cellptr + FreeBlock.size_offset) (length cell)
  node₂ ← link_block node₁ cellptr
  set_leaf_node_total_free_list_space node₂ (leaf_node_total_free_list_space node₂ + length cell)

-- `leaf_node_deallocate_cell`
unfoldable pub leaf_node_deallocate_cell : Bytes → ℕ → Result Bytes
leaf_node_deallocate_cell node cell_num =
    let cellptr = leaf_node_cellptr node cell_num in
    let cell = leaf_node_cell node cell_num in
    let alloc_ptr = leaf_node_alloc_ptr node in
    if cellptr == alloc_ptr
    then set_leaf_node_alloc_ptr node (alloc_ptr + length cell)
    else free_cell node cellptr cell

-- The cell pointers behind `cell_num` move one position to the left, where there are any.
unfoldable pub close_gap : Bytes → ℕ → ℕ → Result Bytes
close_gap node cell_num num_cells =
    if ltb cell_num (num_cells - 1)
    then (do
      cellptrs ← leaf_node_cellptrs_starting_at node (cell_num + 1)
      ok (set_leaf_node_cellptrs_starting_at node cell_num cellptrs))
    else ok node

-- What `leaf_node_delete` does to the leaf where no compaction is possible: the read of the key, which
-- checks the position, and its third step.
unfoldable pub delete_in_leaf : Bytes → ℕ → Result Bytes
delete_in_leaf node cell_num = do
  let num_cells = leaf_node_num_cells node
  del_key ← leaf_node_key node cell_num
  node₁ ← leaf_node_deallocate_cell node cell_num
  node₂ ← close_gap node₁ cell_num num_cells
  set_leaf_node_num_cells node₂ (num_cells - 1)
