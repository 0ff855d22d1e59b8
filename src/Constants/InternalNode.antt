-- ===== src/Constants/InternalNode.antt =====
-- The layout of an internal node in learndb/constants.py.
use learndb_py.Prelude.{ℕ}

abbrev pub num_keys_offset : ℕ
num_keys_offset = 12

abbrev pub right_child_offset : ℕ
right_child_offset = 16

abbrev pub has_right_child_offset : ℕ
has_right_child_offset = 20

abbrev pub header_size : ℕ
header_size = 24

abbrev pub child_size : ℕ
child_size = 4

abbrev pub cell_size : ℕ
cell_size = 8

abbrev pub max_cells : ℕ
max_cells = 3
