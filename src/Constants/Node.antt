-- ===== src/Constants/Node.antt =====
-- The header that all nodes of the tree have, in learndb/constants.py.
use learndb_py.Prelude.{ℕ}

abbrev pub node_type_offset : ℕ
node_type_offset = 0

abbrev pub is_root_offset : ℕ
is_root_offset = 4

abbrev pub parent_pointer_offset : ℕ
parent_pointer_offset = 8
