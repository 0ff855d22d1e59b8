-- ===== src/Btree/Leaf.antt =====
-- learndb/btree.py: the fields of a leaf node, and the cells in it.
use learndb_py.Prelude.{
  ℕ, zero, suc, ◌+◌, ◌-◌, ◌*◌, ltb, leb, length, Bool, Result, ok, assert, ◌>>=◌, ◌>>◌,
  if◌then◌else◌, ℤ, pos, negsuc,
}
use learndb_py.Bytes.Slices.{Bytes, slice, splice}
use learndb_py.Constants.{page_size, word, null_ptr}
use learndb_py.Constants.LeafNode
use learndb_py.Constants.FreeBlock
use learndb_py.Serde.{get_cell_key_in_page, get_cell_size}
use learndb_py.Btree.Words.{get_word, set_word}
use learndb_py.Btree.Node.{node_leaf, set_node_type, set_node_is_root, set_parent_page_num}

unfoldable pub leaf_node_cell_ptr_offset : ℕ → ℕ
leaf_node_cell_ptr_offset cell_num = LeafNode.header_size + cell_num * word

unfoldable pub leaf_node_cellptr : Bytes → ℕ → ℕ
leaf_node_cellptr node cell_num = get_word node (leaf_node_cell_ptr_offset cell_num)

unfoldable pub leaf_node_cell_offset : Bytes → ℕ → ℕ
leaf_node_cell_offset node cell_num = leaf_node_cellptr node cell_num

unfoldable pub leaf_node_num_cells : Bytes → ℕ
leaf_node_num_cells node = get_word node LeafNode.num_cells_offset

unfoldable pub leaf_node_cell_size : Bytes → ℕ → ℕ
leaf_node_cell_size node cell_num = get_cell_size node (leaf_node_cellptr node cell_num)

unfoldable pub leaf_node_cell : Bytes → ℕ → Bytes
leaf_node_cell node cell_num =
    let cellptr = leaf_node_cellptr node cell_num in
    slice node cellptr (cellptr + get_cell_size node cellptr)

-- The loop over the cells, with the number of rounds left.
unfoldable pub cell_space : Bytes → ℕ → ℕ → ℕ
cell_space node zero cell_num = 0
cell_space node (suc left) cell_num =
    leaf_node_cell_size node cell_num + word + cell_space node left (cell_num + 1)

unfoldable pub leaf_node_cell_cellptr_space : Bytes → ℕ
leaf_node_cell_cellptr_space node = cell_space node (leaf_node_num_cells node) 0

unfoldable pub leaf_node_key : Bytes → ℕ → Result ℕ
leaf_node_key node cell_num = do
  assert (ltb cell_num (leaf_node_num_cells node))
  ok (get_cell_key_in_page node (leaf_node_cell_offset node cell_num))

unfoldable pub leaf_node_cellptrs_starting_at : Bytes → ℕ → Result Bytes
leaf_node_cellptrs_starting_at node cell_num = do
  assert (ltb cell_num (leaf_node_num_cells node))
  let start = leaf_node_cell_ptr_offset cell_num
  ok (slice node start (start + (leaf_node_num_cells node - cell_num) * word))

unfoldable pub leaf_node_alloc_ptr : Bytes → ℕ
leaf_node_alloc_ptr node = get_word node LeafNode.alloc_pointer_offset

unfoldable pub leaf_node_unallocated_offset : Bytes → ℕ
leaf_node_unallocated_offset node = LeafNode.header_size + leaf_node_num_cells node * word

-- The difference of two numbers, which may be negative.
abbrev pub difference : ℕ → ℕ → ℤ
difference a b = if leb b a then pos (a - b) else negsuc (b - a - 1)

unfoldable pub leaf_node_alloc_block_space : Bytes → ℤ
leaf_node_alloc_block_space node =
    difference (leaf_node_alloc_ptr node) (leaf_node_unallocated_offset node)

unfoldable pub leaf_node_total_free_list_space : Bytes → ℕ
leaf_node_total_free_list_space node = get_word node LeafNode.total_free_list_space_offset

unfoldable pub leaf_node_free_list_head : Bytes → ℕ
leaf_node_free_list_head node = get_word node LeafNode.free_list_head_offset

unfoldable pub free_block_size : Bytes → ℕ → ℕ
free_block_size node offset = get_word node (offset + FreeBlock.size_offset)

unfoldable pub free_block_next_free : Bytes → ℕ → ℕ
free_block_next_free node offset = get_word node (offset + FreeBlock.next_block_offset)

unfoldable pub set_leaf_node_alloc_ptr : Bytes → ℕ → Result Bytes
set_leaf_node_alloc_ptr node ptr = set_word node LeafNode.alloc_pointer_offset ptr

unfoldable pub set_leaf_node_cellptr : Bytes → ℕ → ℕ → Result Bytes
set_leaf_node_cellptr node cell_num cellptr = do
  assert (ltb 0 cellptr)
  set_word node (leaf_node_cell_ptr_offset cell_num) cellptr

unfoldable pub set_leaf_node_cellptrs_starting_at : Bytes → ℕ → Bytes → Bytes
set_leaf_node_cellptrs_starting_at node cell_num cellptrs =
    let offset = leaf_node_cell_ptr_offset cell_num in
    splice node offset (offset + length cellptrs) cellptrs

unfoldable pub set_leaf_node_num_cells : Bytes → ℕ → Result Bytes
set_leaf_node_num_cells node n = set_word node LeafNode.num_cells_offset n

unfoldable pub set_leaf_node_cell : Bytes → ℕ → Bytes → Bytes
set_leaf_node_cell node cell_offset cell = splice node cell_offset (cell_offset + length cell) cell

unfoldable pub set_leaf_node_free_list_head : Bytes → ℕ → Result Bytes
set_leaf_node_free_list_head node head = set_word node LeafNode.free_list_head_offset head

unfoldable pub set_leaf_node_total_free_list_space : Bytes → ℕ → Result Bytes
set_leaf_node_total_free_list_space node n = set_word node LeafNode.total_free_list_space_offset n

unfoldable pub initialize_leaf_node : Bytes → Bool → ℕ → Result Bytes
initialize_leaf_node node is_root parent = do
  node₁ ← set_node_type node node_leaf
  node₂ ← set_leaf_node_num_cells node₁ 0
  node₃ ← set_leaf_node_alloc_ptr node₂ page_size
  node₄ ← set_leaf_node_free_list_head node₃ null_ptr
  node₅ ← set_leaf_node_total_free_list_space node₄ 0
  node₆ ← set_node_is_root node₅ is_root
  set_parent_page_num node₆ parent

-- `leaf_node_allocate_alloc_block_cell`. Where the cell does not fit below the allocation pointer, the
-- new pointer is not positive and `set_leaf_node_cellptr` raises.
unfoldable pub leaf_node_allocate_alloc_block_cell : Bytes → ℕ → Bytes → Result Bytes
leaf_node_allocate_alloc_block_cell node cell_num cell = do
  let new_alloc_ptr = leaf_node_alloc_ptr node - length cell
  node₁ ← set_leaf_node_cellptr node cell_num new_alloc_ptr
  node₂ ← set_leaf_node_alloc_ptr (set_leaf_node_cell node₁ new_alloc_ptr cell) new_alloc_ptr
  set_leaf_node_num_cells node₂ (leaf_node_num_cells node₂ + 1)
