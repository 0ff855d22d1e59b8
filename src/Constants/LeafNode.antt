-- ===== src/Constants/LeafNode.antt =====
-- The layout of a leaf node in learndb/constants.py. Its cell pointers start behind the header.
use learndb_py.Prelude.{ℕ}

abbrev pub num_cells_offset : ℕ
num_cells_offset = 12

abbrev pub alloc_pointer_offset : ℕ
alloc_pointer_offset = 16

abbrev pub free_list_head_offset : ℕ
free_list_head_offset = 20

abbrev pub total_free_list_space_offset : ℕ
total_free_list_space_offset = 24

abbrev pub header_size : ℕ
header_size = 28

abbrev pub max_cell_size : ℕ
max_cell_size = 4064

abbrev pub non_header_space : ℕ
non_header_space = 4068

abbrev pub max_cells : ℕ
max_cells = 3
