-- ===== src/Btree/Node.antt =====
-- learndb/btree.py: the fields that all nodes have.
use learndb_py.Prelude.{ℕ, ◌==◌, Bool, true, false, not, Result, ok, err, value, if◌then◌else◌}
use learndb_py.Bytes.Slices.{Bytes}
use learndb_py.Constants.Node
use learndb_py.Btree.Words.{get_word, set_word}

pub data NodeType : Type 0 where
  node_internal node_leaf : NodeType

abbrev pub type_value : NodeType → ℕ
type_value node_internal = 1
type_value node_leaf = 2

-- `NodeType(value)`
unfoldable pub node_type : ℕ → Result NodeType
node_type n = if n == 1 then ok node_internal else if n == 2 then ok node_leaf else err value

-- `bool(int_val)`, `bool.from_bytes` and `bool.to_bytes`, through the number.
abbrev pub to_bool : ℕ → Bool
to_bool n = not (n == 0)

abbrev pub of_bool : Bool → ℕ
of_bool false = 0
of_bool true = 1

unfoldable pub get_parent_page_num : Bytes → ℕ
get_parent_page_num node = get_word node Node.parent_pointer_offset

unfoldable pub get_node_type : Bytes → Result NodeType
get_node_type node = node_type (get_word node Node.node_type_offset)

unfoldable pub is_node_root : Bytes → Bool
is_node_root node = to_bool (get_word node Node.is_root_offset)

unfoldable pub set_parent_page_num : Bytes → ℕ → Result Bytes
set_parent_page_num node page_num = set_word node Node.parent_pointer_offset page_num

unfoldable pub set_node_is_root : Bytes → Bool → Result Bytes
set_node_is_root node is_root = set_word node Node.is_root_offset (of_bool is_root)

unfoldable pub set_node_type : Bytes → NodeType → Result Bytes
set_node_type node t = set_word node Node.node_type_offset (type_value t)
