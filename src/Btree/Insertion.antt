-- ===== src/Btree/Insertion.antt =====
-- learndb/btree.py: the insertion of a cell into a leaf that has room for it.
pub mod Room
pub mod Shifted
pub mod Placed
pub mod Cells
pub mod Order
use learndb_py.Prelude.{ℕ, ◌+◌, ltb, Result, ok, ◌>>=◌, if◌then◌else◌}
use learndb_py.Bytes.Slices.{Bytes}
use learndb_py.Btree.Leaf.{
  leaf_node_num_cells, leaf_node_cellptrs_starting_at, set_leaf_node_cellptrs_starting_at,
  leaf_node_allocate_alloc_block_cell,
}

-- The cell pointers from `cell_num` on move one position to the right, where there are any.
unfoldable pub shift_cellptrs : Bytes → ℕ → Result Bytes
shift_cellptrs node cell_num =
    if ltb cell_num (leaf_node_num_cells node)
    then (do
      cellptrs ← leaf_node_cellptrs_starting_at node cell_num
      ok (set_leaf_node_cellptrs_starting_at node (cell_num + 1) cellptrs))
    else ok node

-- What `leaf_node_insert` does to a leaf whose allocation block has room.
unfoldable pub insert_in_leaf : Bytes → ℕ → Bytes → Result Bytes
insert_in_leaf node cell_num cell = do
  shifted ← shift_cellptrs node cell_num
  leaf_node_allocate_alloc_block_cell shifted cell_num cell
