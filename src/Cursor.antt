-- ===== src/Cursor.antt =====
-- learndb/cursor.py: the cursor that runs over the cells of a tree. A tree is its root page. `height` is the
-- fuel of the ways down to a leaf and up from one, the number of nodes between the root and a leaf.
pub mod Order
pub mod Entries
pub mod Bounds
pub mod Lookup
pub mod Traversal
pub mod Increase
use learndb_py.Prelude.{
  ℕ, zero, suc, ◌+◌, ◌==◌, leb, Bool, true, Option, none, some, Result, ok, err, Error, stuck,
  assert, ◌>>=◌, ◌>>◌, if◌then◌else◌,
}
use learndb_py.Bytes.Slices.{Bytes}
use learndb_py.Constants.InternalNode
use learndb_py.Pager.{Pager, get_page}
use learndb_py.Btree.Node.{
  node_internal, node_leaf, get_node_type, is_node_root, get_parent_page_num,
}
use learndb_py.Btree.Internal.{
  internal_node_num_keys, internal_node_has_right_child, internal_node_child,
  internal_node_right_child,
}
use learndb_py.Btree.Leaf.{leaf_node_num_cells, leaf_node_cell}
use learndb_py.Btree.Search.{get_node_max_key, internal_node_find}

pub record Cursor : Type 0 where
  pub page_num : ℕ
  pub cell_num : ℕ
  pub end_of_table : Bool

-- The child that `first_leaf` goes down to: the right one, where there is no other.
unfoldable pub first_child : Bytes → ℕ
first_child node =
    if internal_node_num_keys node == 0
    then internal_node_right_child node
    else internal_node_child node 0

-- `first_leaf`, from the cursor's page on.
unfoldable pub first_leaf : ℕ → Pager → ℕ → Result (Cursor × Pager)
unfolding first_child
first_leaf zero p page_num = err stuck
first_leaf (suc fuel) p page_num = do
  (node, p') ← get_page p page_num
  t ← get_node_type node
  elim t [
    | node_internal ↦ (do
      assert (internal_node_has_right_child node)
      first_leaf fuel p' (first_child node))
    | node_leaf ↦ ok (
      record { page_num = page_num; cell_num = 0; end_of_table = leaf_node_num_cells node == 0 },
      p',
    )
  ]

-- `Cursor.__init__`
unfoldable pub open_cursor : ℕ → Pager → ℕ → Result (Cursor × Pager)
open_cursor height p root_page_num = first_leaf height p root_page_num

unfoldable pub get_cell : Pager → Cursor → Result (Bytes × Pager)
get_cell p c = do (node, p') ← get_page p c.page_num; ok (leaf_node_cell node c.cell_num, p')

-- The child behind the one at a position.
unfoldable pub next_child : Bytes → ℕ → ℕ
next_child parent child_num =
    if child_num + 1 == internal_node_num_keys parent
    then internal_node_right_child parent
    else internal_node_child parent (child_num + 1)

-- `assert node_max_value is not None`
abbrev some_key : Option ℕ → Result ℕ
some_key none = err Error.assertion
some_key (some key) = ok key

-- `next_leaf`
unfoldable pub next_leaf : ℕ → ℕ → Pager → Cursor → Result (Cursor × Pager)
unfolding next_child
next_leaf height zero p c = err stuck
next_leaf height (suc fuel) p c = do
  (node, p₁) ← get_page p c.page_num
  if is_node_root node then ok (record c { end_of_table = true }, p₁) else (do
    (max, p₂) ← get_node_max_key height p₁ node
    node_max_value ← some_key max
    let parent_page_num = get_parent_page_num node
    (parent, p₃) ← get_page p₂ parent_page_num
    (child_num, p₄) ← internal_node_find height p₃ parent_page_num node_max_value
    if child_num == InternalNode.max_cells
        then next_leaf height fuel p₄ (record c { page_num = parent_page_num })
        else first_leaf height p₄ (next_child parent child_num))

-- `advance`, where `cell_num >= num_cells - 1` is written without the difference.
unfoldable pub advance : ℕ → Pager → Cursor → Result (Cursor × Pager)
unfolding next_leaf
advance height p c = do
  (node, p') ← get_page p c.page_num
  if leb (leaf_node_num_cells node) (c.cell_num + 1)
      then next_leaf height height p' c
      else ok (record c { cell_num = c.cell_num + 1 }, p')
