-- ===== src/Tests/Leaves.antt =====
-- A leaf with two cells.
use learndb_py.Prelude.{
  pos, ◌≢◌, ℕ, zero, suc, ◌+◌, ◌≤◌, ◌<◌, ◌≡◌, refl, inr, [], ◌∷◌, ◌++◌, length, arith, ok, take,
  drop, replicate,
}
use learndb_py.Bytes.Slices.{splice, Bytes, slice}
use learndb_py.Bytes.Numbers.{to_bytes, digits, from_bytes}
use learndb_py.Constants.{page_size}
use learndb_py.Pager.{zeros}
use learndb_py.Serde.{get_cell_size, get_cell_key, get_cell_key_in_page}
use learndb_py.Btree.Words.{set_word, get_word}
use learndb_py.Btree.Leaf.{
  leaf_node_alloc_block_space, leaf_node_unallocated_offset, leaf_node_allocate_alloc_block_cell,
  set_leaf_node_cellptr, set_leaf_node_cell, set_leaf_node_alloc_ptr, set_leaf_node_num_cells,
  leaf_node_num_cells, leaf_node_alloc_ptr, leaf_node_cellptr, leaf_node_cell_ptr_offset,
  leaf_node_cell_offset, leaf_node_cell_size, leaf_node_free_list_head,
  leaf_node_total_free_list_space,
}
use learndb_py.Btree.Shape.{IsLeaf, Off}
use learndb_py.Btree.Search.{find_in_leaf}
use learndb_py.Btree.Search.Halving.{Position}
use learndb_py.Btree.Search.Position.{cell_key, find_in_leaf-Position}
use learndb_py.Btree.Insertion.{shift_cellptrs, insert_in_leaf}
use learndb_py.Btree.Insertion.Order.{Increasing, Holds, find_in_leaf-insert_in_leaf}
use learndb_py.Btree.Deletion.{delete_in_leaf}
use learndb_py.Btree.Deletion.Freed.{FreeSpace}
use learndb_py.Btree.Deletion.Order.{Gone, delete_in_leaf-Gone}

-- The leaf has the cell with the key 7 at the end of the page, and that with the key 9 before it.
abbrev pub leaf_7_9 : Bytes
leaf_7_9 =
    (2 ∷ 0 ∷ 0 ∷ 0 ∷ 1 ∷ 0 ∷ 0 ∷ 0 ∷ 0 ∷ 0 ∷ 0 ∷ 0 ∷ 2 ∷ 0 ∷ 0 ∷ 0 ∷ 224 ∷ 15 ∷ 0 ∷ 0 ∷ [])
    ++ ((0 ∷ 0 ∷ 0 ∷ 0 ∷ 0 ∷ 0 ∷ 0 ∷ 0 ∷ 240 ∷ 15 ∷ 0 ∷ 0 ∷ 224 ∷ 15 ∷ 0 ∷ 0 ∷ [])
        ++ (zeros 4028
            ++ ((4 ∷ 0 ∷ 0 ∷ 0 ∷ 4 ∷ 0 ∷ 0 ∷ 0 ∷ 9 ∷ 0 ∷ 0 ∷ 0 ∷ 4 ∷ 0 ∷ 0 ∷ 0 ∷ [])
                ++ (4 ∷ 0 ∷ 0 ∷ 0 ∷ 4 ∷ 0 ∷ 0 ∷ 0 ∷ 7 ∷ 0 ∷ 0 ∷ 0 ∷ 4 ∷ 0 ∷ 0 ∷ 0 ∷ []))))

pub header_7_9 :
    (leaf_node_num_cells leaf_7_9 ≡ 2)
    × (leaf_node_alloc_ptr leaf_7_9 ≡ 4064)
    × (leaf_node_free_list_head leaf_7_9 ≡ 0)
    × (leaf_node_total_free_list_space leaf_7_9 ≡ 0)
unfolding leaf_node_num_cells leaf_node_alloc_ptr leaf_node_free_list_head
    leaf_node_total_free_list_space get_word slice take drop from_bytes
header_7_9 = (refl, refl, refl, refl)

pub pointers_7_9 : (leaf_node_cellptr leaf_7_9 0 ≡ 4080) × (leaf_node_cellptr leaf_7_9 1 ≡ 4064)
unfolding leaf_node_cellptr leaf_node_cell_ptr_offset get_word slice take drop from_bytes
pointers_7_9 = (refl, refl)

cells_7_9 :
    (get_cell_size leaf_7_9 4080 ≡ 16)
    × (get_cell_size leaf_7_9 4064 ≡ 16)
    × (get_cell_key_in_page leaf_7_9 4080 ≡ 7)
    × (get_cell_key_in_page leaf_7_9 4064 ≡ 9)
unfolding get_cell_size get_cell_key_in_page slice take drop from_bytes zeros replicate
cells_7_9 = (refl, refl, refl, refl)

length_7_9 : length leaf_7_9 ≡ page_size
unfolding zeros replicate
length_7_9 = refl

sizes_7_9 : (leaf_node_cell_size leaf_7_9 0 ≡ 16) × (leaf_node_cell_size leaf_7_9 1 ≡ 16)
unfolding leaf_node_cell_size
sizes_7_9 = (rw (pointers_7_9.0) (cells_7_9.0), rw (pointers_7_9.1) (cells_7_9.1))

keys_7_9 : (cell_key leaf_7_9 0 ≡ 7) × (cell_key leaf_7_9 1 ≡ 9)
unfolding leaf_node_cell_offset
keys_7_9 = (rw (pointers_7_9.0) (cells_7_9.2), rw (pointers_7_9.1) (cells_7_9.3))

leaf_7_9-cells :
    (j : ℕ)
    → j < leaf_node_num_cells leaf_7_9
    → (leaf_node_alloc_ptr leaf_7_9 ≤ leaf_node_cellptr leaf_7_9 j)
      × (leaf_node_cellptr leaf_7_9 j + leaf_node_cell_size leaf_7_9 j ≤ page_size)
leaf_7_9-cells zero h = omega (arith, header_7_9.1, pointers_7_9.0, sizes_7_9.0)
leaf_7_9-cells (suc zero) h = omega (arith, header_7_9.1, pointers_7_9.1, sizes_7_9.1)
leaf_7_9-cells (suc (suc j)) h = absurd (omega (arith, header_7_9.0))

leaf_7_9-apart : (j k : ℕ) → j < k → k < leaf_node_num_cells leaf_7_9 → Off leaf_7_9 j k
leaf_7_9-apart zero (suc zero) p h =
    inr (omega (arith, pointers_7_9.0, pointers_7_9.1, sizes_7_9.1))
leaf_7_9-apart j zero p h = absurd (omega arith)
leaf_7_9-apart (suc j) (suc zero) p h = absurd (omega arith)
leaf_7_9-apart j (suc (suc k)) p h = absurd (omega (arith, header_7_9.0))

leaf_7_9-IsLeaf : IsLeaf leaf_7_9
leaf_7_9-IsLeaf = record {
  page = length_7_9;
  room = omega (arith, header_7_9.0, header_7_9.1);
  bound = omega (arith, header_7_9.1);
  cells = leaf_7_9-cells;
  apart = leaf_7_9-apart;
}

pub leaf_7_9-Increasing : Increasing leaf_7_9
leaf_7_9-Increasing zero (suc zero) p h = omega (arith, keys_7_9.0, keys_7_9.1)
leaf_7_9-Increasing j zero p h = absurd (omega arith)
leaf_7_9-Increasing (suc j) (suc zero) p h = absurd (omega arith)
leaf_7_9-Increasing j (suc (suc k)) p h = absurd (omega (arith, header_7_9.0))

leaf_7_9-FreeSpace : FreeSpace leaf_7_9
leaf_7_9-FreeSpace = record {
  head = omega (arith, header_7_9.2);
  total = omega (arith, header_7_9.3);
}

-- The cell with the key 7 is not the last one that was allocated, and becomes a free block.
delete_in_leaf-Gone_example :
    (node' : Bytes) × (delete_in_leaf leaf_7_9 0 ≡ ok node') × Gone leaf_7_9 0 node'
delete_in_leaf-Gone_example =
    delete_in_leaf-Gone leaf_7_9 0 leaf_7_9-IsLeaf leaf_7_9-FreeSpace leaf_7_9-Increasing
      (omega (arith, header_7_9.0))

-- A cell with the key 8 comes between the two.
abbrev cell_8 : Bytes
cell_8 = 4 ∷ 0 ∷ 0 ∷ 0 ∷ 4 ∷ 0 ∷ 0 ∷ 0 ∷ 8 ∷ 0 ∷ 0 ∷ 0 ∷ 4 ∷ 0 ∷ 0 ∷ 0 ∷ []

cell_8_reads : (get_cell_size cell_8 0 ≡ 16) × (get_cell_key cell_8 ≡ 8)
unfolding get_cell_size get_cell_key get_cell_key_in_page slice take drop from_bytes
cell_8_reads = (refl, refl)

no_8 : (i : ℕ) → i < leaf_node_num_cells leaf_7_9 → cell_key leaf_7_9 i ≢ get_cell_key cell_8
no_8 zero h = omega (arith, keys_7_9.0, cell_8_reads.1)
no_8 (suc zero) h = omega (arith, keys_7_9.1, cell_8_reads.1)
no_8 (suc (suc j)) h = absurd (omega (arith, header_7_9.0))

find_in_leaf-insert_in_leaf_example :
    (c : ℕ) × (find_in_leaf leaf_7_9 (get_cell_key cell_8) ≡ ok c)
    × (node' : Bytes) × (insert_in_leaf leaf_7_9 c cell_8 ≡ ok node')
    × Holds leaf_7_9 cell_8 c node'
find_in_leaf-insert_in_leaf_example =
    find_in_leaf-insert_in_leaf leaf_7_9 cell_8 leaf_7_9-IsLeaf leaf_7_9-Increasing no_8
      (cell_8_reads.0) (omega (arith, header_7_9.0, header_7_9.1))

find_in_leaf-Position_example :
    (c : ℕ) × (find_in_leaf leaf_7_9 8 ≡ ok c)
    × Position (cell_key leaf_7_9) (leaf_node_num_cells leaf_7_9) 8 c
find_in_leaf-Position_example = find_in_leaf-Position leaf_7_9 8 leaf_7_9-Increasing

-- An empty leaf with room for the cell, but not for its pointer.
abbrev tight_leaf : Bytes
tight_leaf =
    (2 ∷ 0 ∷ 0 ∷ 0 ∷ 1 ∷ 0 ∷ 0 ∷ 0 ∷ 0 ∷ 0 ∷ 0 ∷ 0 ∷ 0 ∷ 0 ∷ 0 ∷ 0 ∷ 44 ∷ 0 ∷ 0 ∷ 0 ∷ [])
    ++ ((0 ∷ 0 ∷ 0 ∷ 0 ∷ 0 ∷ 0 ∷ 0 ∷ 0 ∷ [])
        ++ (0 ∷ 0 ∷ 0 ∷ 0 ∷ 0 ∷ 0 ∷ 0 ∷ 0 ∷ 0 ∷ 0 ∷ 0 ∷ 0 ∷ 0 ∷ 0 ∷ 0 ∷ 0 ∷ []))

abbrev tight_leaf_8 : Bytes
tight_leaf_8 =
    (2 ∷ 0 ∷ 0 ∷ 0 ∷ 1 ∷ 0 ∷ 0 ∷ 0 ∷ 0 ∷ 0 ∷ 0 ∷ 0 ∷ 1 ∷ 0 ∷ 0 ∷ 0 ∷ 28 ∷ 0 ∷ 0 ∷ 0 ∷ [])
    ++ ((0 ∷ 0 ∷ 0 ∷ 0 ∷ 0 ∷ 0 ∷ 0 ∷ 0 ∷ []) ++ cell_8)

-- The cell is written over its own pointer, which then points at byte 4.
tight_insert :
    (leaf_node_alloc_block_space tight_leaf ≡ pos 16)
    × (insert_in_leaf tight_leaf 0 cell_8 ≡ ok tight_leaf_8)
    × (leaf_node_cellptr tight_leaf_8 0 ≡ 4)
unfolding leaf_node_alloc_block_space leaf_node_unallocated_offset insert_in_leaf shift_cellptrs
    leaf_node_allocate_alloc_block_cell set_leaf_node_cellptr set_leaf_node_cell
    set_leaf_node_alloc_ptr set_leaf_node_num_cells leaf_node_num_cells leaf_node_alloc_ptr
    leaf_node_cellptr leaf_node_cell_ptr_offset get_word set_word slice splice take drop from_bytes
    to_bytes digits
tight_insert = (refl, refl, refl)
