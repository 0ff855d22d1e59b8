-- ===== src/Btree/Search.antt =====
-- learndb/btree.py: the search for a key in a node, and from the root down to a leaf.
pub mod Halving
pub mod Position
pub mod Descent
use learndb_py.Prelude.{
  ℕ, zero, suc, ◌+◌, ◌-◌, ◌/◌, ◌==◌, ltb, leb, Bool, true, false, not, Option, none, some, Result,
  ok, err, stuck, ◌>>=◌, if◌then◌else◌,
}
use learndb_py.Bytes.Slices.{Bytes}
use learndb_py.Constants.InternalNode
use learndb_py.Pager.{Pager, get_page}
use learndb_py.Btree.Node.{NodeType, node_internal, node_leaf, get_node_type}
use learndb_py.Btree.Internal.{
  internal_node_num_keys, internal_node_has_right_child, internal_node_key, internal_node_child,
  internal_node_right_child,
}
use learndb_py.Btree.Leaf.{leaf_node_num_cells, leaf_node_key}

-- What a round of the loop finds: the index of the key, or a shorter interval.
pub data Round : Type 0 where
  found : ℕ → Round
  narrower : ℕ → ℕ → Round

abbrev pub search_round : ℕ → ℕ → ℕ → ℕ → ℕ → Round
search_round key key_at_index index left right =
    if key == key_at_index
    then found index
    else if ltb key key_at_index
    then narrower left index
    else narrower (index + 1) right

abbrev pub continue : (ℕ → ℕ → Result ℕ) → Round → Result ℕ
continue loop (found index) = ok index
continue loop (narrower left right) = loop left right

-- The loop of the two binary searches, over a way to read the key at an index. The interval is one
-- shorter at least after each round, so that its length is enough fuel.
unfoldable pub binary_search : (ℕ → Result ℕ) → ℕ → ℕ → ℕ → ℕ → Result ℕ
binary_search key_at key zero left right = if left == right then ok left else err stuck
binary_search key_at key (suc fuel) left right = if left == right then ok left else (do
  let index = left + (right - left) / 2
  key_at_index ← key_at index
  continue (binary_search key_at key fuel) (search_round key key_at_index index left right))

-- The search of `leaf_node_find` in the page that it got.
unfoldable pub find_in_leaf : Bytes → ℕ → Result ℕ
find_in_leaf node key =
    let num_cells = leaf_node_num_cells node in
    binary_search (leaf_node_key node) key num_cells 0 num_cells

-- `leaf_node_find`
unfoldable pub leaf_node_find : Pager → ℕ → ℕ → Result (ℕ × Pager)
leaf_node_find p page_num key = do
  (node, p') ← get_page p page_num
  cell_num ← find_in_leaf node key
  ok (cell_num, p')

-- `get_node_max_key`: the fuel is the number of internal nodes on the way to the rightmost leaf, and one
-- more.
unfoldable pub get_node_max_key : ℕ → Pager → Bytes → Result (Option ℕ × Pager)
get_node_max_key zero p node = err stuck
get_node_max_key (suc fuel) p node = do
  t ← get_node_type node
  elim t [
    | node_internal ↦ if not (internal_node_has_right_child node) then ok (none, p) else (do
      (right_child, p') ← get_page p (internal_node_right_child node)
      get_node_max_key fuel p' right_child)
    | node_leaf ↦
        if leaf_node_num_cells node == 0
        then ok (none, p)
        else (do key ← leaf_node_key node (leaf_node_num_cells node - 1); ok (some key, p))
  ]

-- The search of `internal_node_find` in the page that it got, with the node's greatest key.
unfoldable pub find_in_internal : Bytes → Option ℕ → ℕ → Result ℕ
find_in_internal node none key =
    if not (internal_node_has_right_child node) then ok 0 else ok InternalNode.max_cells
find_in_internal node (some node_max_key) key =
    let num_cells = internal_node_num_keys node in
    if leb node_max_key key
    then ok InternalNode.max_cells
    else if num_cells == 0
    then ok 0
    else binary_search (λ i. ok (internal_node_key node i)) key num_cells 0 num_cells

-- `internal_node_find`
unfoldable pub internal_node_find : ℕ → Pager → ℕ → ℕ → Result (ℕ × Pager)
internal_node_find fuel p page_num key = do
  (node, p₁) ← get_page p page_num
  (node_max_key, p₂) ← get_node_max_key fuel p₁ node
  child_num ← find_in_internal node node_max_key key
  ok (child_num, p₂)

-- The child at a position: a position behind the last key is the right child's. With no key,
-- `internal_node_num_keys(node) - 1` is negative, and every position is the right child's.
unfoldable pub child_at : Bytes → ℕ → ℕ
child_at node child_num =
    if ltb child_num (internal_node_num_keys node)
    then internal_node_child node child_num
    else internal_node_right_child node

-- `find`, from a page on: the leaf's page, and the position in it. The fuel is the height of the tree
-- below the page.
unfoldable pub find : ℕ → Pager → ℕ → ℕ → Result ((ℕ × ℕ) × Pager)
find zero p key page_num = err stuck
find (suc fuel) p key page_num = do
  (node, p₁) ← get_page p page_num
  t ← get_node_type node
  elim t [
    | node_internal ↦ (do
      (child_num, p₂) ← internal_node_find (suc fuel) p₁ page_num key
      find fuel p₂ key (child_at node child_num))
    | node_leaf ↦ (do
      (cell_num, p₂) ← leaf_node_find p₁ page_num key
      ok ((page_num, cell_num), p₂))
  ]
