-- ===== src/Btree/Shape.antt =====
-- The shape of a leaf of learndb/btree.py: where its cells are.
use learndb_py.Prelude.{◌⊎◌, inl, inr, ℕ, ◌+◌, ◌*◌, ◌≤◌, ◌<◌, ◌≡◌, ap, arith, length}
use learndb_py.Bytes.Slices.{Bytes, slice}
use learndb_py.Bytes.Numbers.{from_bytes}
use learndb_py.Constants.{page_size}
use learndb_py.Serde.{get_cell_size}
use learndb_py.Btree.Leaf.{
  leaf_node_num_cells, leaf_node_alloc_ptr, leaf_node_cellptr, leaf_node_cell, leaf_node_cell_size,
}

-- Two cells do not overlap.
abbrev pub Off : Bytes → ℕ → ℕ → Type 0
Off node j k =
    (leaf_node_cellptr node j + leaf_node_cell_size node j ≤ leaf_node_cellptr node k)
    ⊎ (leaf_node_cellptr node k + leaf_node_cell_size node k ≤ leaf_node_cellptr node j)

-- A leaf: the cell pointers end before the cells start, each cell lies between the allocation pointer and
-- the end of the page, and no two cells overlap.
pub record IsLeaf (node : Bytes) : Type 0 where
  pub page : length node ≡ page_size
  pub room : 28 + 4 * leaf_node_num_cells node ≤ leaf_node_alloc_ptr node
  pub bound : leaf_node_alloc_ptr node ≤ page_size
  pub cells :
      (j : ℕ)
      → j < leaf_node_num_cells node
      → (leaf_node_alloc_ptr node ≤ leaf_node_cellptr node j)
        × (leaf_node_cellptr node j + leaf_node_cell_size node j ≤ page_size)
  pub apart : (j k : ℕ) → j < k → k < leaf_node_num_cells node → Off node j k

-- Two pages with the same bytes from `a` on.
abbrev pub SameFrom : ℕ → Bytes → Bytes → Type 0
SameFrom a node node' = (c d : ℕ) → a ≤ c → slice node' c d ≡ slice node c d

pub get_cell_size-same :
    (node node' : Bytes) (a p : ℕ)
    → SameFrom a node node'
    → a ≤ p
    → get_cell_size node' p ≡ get_cell_size node p
unfolding get_cell_size
get_cell_size-same node node' a p s h =
    let k : from_bytes (slice node' p (p + 4)) ≡ from_bytes (slice node p (p + 4)) =
      ap from_bytes (s p (p + 4) h) in
    let d : from_bytes (slice node' (p + 4) (p + 4 + 4))
        ≡ from_bytes (slice node (p + 4) (p + 4 + 4)) =
      ap from_bytes (s (p + 4) (p + 4 + 4) (omega arith)) in
    omega (arith, k, d)

-- A cell whose pointer is the same, in a page with the same bytes there.
pub leaf_node_cell-same :
    (node node' : Bytes) (a i j : ℕ)
    → SameFrom a node node'
    → leaf_node_cellptr node' i ≡ leaf_node_cellptr node j
    → a ≤ leaf_node_cellptr node j
    → (leaf_node_cell node' i ≡ leaf_node_cell node j)
      × (leaf_node_cell_size node' i ≡ leaf_node_cell_size node j)
unfolding leaf_node_cell leaf_node_cell_size
leaf_node_cell-same node node' a i j s e h =
    let p = leaf_node_cellptr node j in
    let size : get_cell_size node' p ≡ get_cell_size node p =
      get_cell_size-same node node' a p s h in
    (rw (e, size) (s p _ h), rw e size)

-- Two cells that are where two cells of another page are.
pub Off-same :
    (node node' : Bytes) (j k a b : ℕ)
    → leaf_node_cellptr node' j ≡ leaf_node_cellptr node a
    → leaf_node_cell_size node' j ≡ leaf_node_cell_size node a
    → leaf_node_cellptr node' k ≡ leaf_node_cellptr node b
    → leaf_node_cell_size node' k ≡ leaf_node_cell_size node b
    → Off node a b
    → Off node' j k
Off-same node node' j k a b pj sj pk sk (inl h) = inl (omega arith)
Off-same node node' j k a b pj sj pk sk (inr h) = inr (omega arith)
