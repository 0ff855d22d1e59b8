-- ===== src/Btree/Insertion/Cells.antt =====
-- The cells of a leaf of learndb/btree.py behind an insertion that has room.
use learndb_py.Prelude.{ℕ, ◌+◌, ◌-◌, ◌*◌, ◌≤◌, ◌<◌, ◌≡◌, refl, ap, ◌∙◌, arith, length, ok}
use learndb_py.Bytes.Slices.{Bytes}
use learndb_py.Serde.{get_cell_size}
use learndb_py.Btree.Leaf.{
  leaf_node_num_cells, leaf_node_alloc_ptr, leaf_node_cellptr, leaf_node_cell,
}
use learndb_py.Btree.Insertion.{insert_in_leaf}
use learndb_py.Btree.Insertion.Shifted.{shift_cellptrs-Shifted}
use learndb_py.Btree.Insertion.Room.{allocate-Allocated}
use learndb_py.Btree.Shape.{IsLeaf, leaf_node_cell-same}
use learndb_py.Btree.Insertion.Placed.{
  Placed, Placed-cells, Placed-apart, both-Placed, new_cell, Shifted-fields,
}

-- What an insertion of `cell` at position `i` leaves: a leaf with one cell more, in which `cell` is at
-- `i`, the cells before it are where they were, and those from `i` on are one position further.
pub record Inserted (node : Bytes) (i : ℕ) (cell node' : Bytes) : Type 0 where
  pub is_leaf : IsLeaf node'
  pub num : leaf_node_num_cells node' ≡ leaf_node_num_cells node + 1
  pub here : leaf_node_cell node' i ≡ cell
  pub before : (j : ℕ) → j < i → leaf_node_cell node' j ≡ leaf_node_cell node j
  pub behind :
      (j : ℕ)
      → i ≤ j
      → j < leaf_node_num_cells node
      → leaf_node_cell node' (j + 1) ≡ leaf_node_cell node j
  pub space : leaf_node_alloc_ptr node' + length cell ≡ leaf_node_alloc_ptr node

Placed-Inserted :
    (node node' cell : Bytes) (i at : ℕ)
    → IsLeaf node
    → get_cell_size cell 0 ≡ length cell
    → 8 ≤ length cell
    → at + length cell ≡ leaf_node_alloc_ptr node
    → 28 + 4 * (leaf_node_num_cells node + 1) ≤ at
    → i ≤ leaf_node_num_cells node
    → Placed node i cell at node'
    → Inserted node i cell node'
Placed-Inserted node node' cell i at leaf size big e room le pl =
    let a = leaf_node_alloc_ptr node in
    let keep : (k j : ℕ)
        → j < leaf_node_num_cells node
        → leaf_node_cellptr node' k ≡ leaf_node_cellptr node j
        → leaf_node_cell node' k ≡ leaf_node_cell node j =
      λ k j p q. (leaf_node_cell-same node node' a k j pl.same q (leaf.cells j p).0).0 in
    record {
      is_leaf = record {
        page = pl.size ∙ leaf.page;
        room = omega (arith, pl.num, pl.ptr);
        bound = omega (arith, pl.ptr, leaf.bound);
        cells = λ k lt.
            rw (pl.ptr)
              (Placed-cells node node' cell i at leaf size big e pl k (omega (arith, pl.num)) le);
        apart = λ j k lt b.
            Placed-apart node node' cell i at leaf size big e pl le j k lt (omega (arith, pl.num));
      };
      num = pl.num;
      here = (new_cell node' cell at i size big (omega (arith, leaf.bound)) pl.written pl.own).1;
      before = λ j p. keep j j (omega arith) (pl.before j p);
      behind = λ j p q. keep (j + 1) j q (pl.behind j p q);
      space = ap (λ (x : ℕ). x + length cell) pl.ptr ∙ e;
    }

-- A cell that fits with its pointer is inserted into a leaf at any position up to the number of its
-- cells: the insertion returns, the result is a leaf with one cell more, the cell is at the position, and
-- the other cells are unchanged and in their order.
pub insert_in_leaf-Inserted :
    (node : Bytes) (i : ℕ) (cell : Bytes)
    → IsLeaf node
    → i ≤ leaf_node_num_cells node
    → get_cell_size cell 0 ≡ length cell
    → 28 + 4 * (leaf_node_num_cells node + 1) + length cell ≤ leaf_node_alloc_ptr node
    → (node' : Bytes) × (insert_in_leaf node i cell ≡ ok node') × Inserted node i cell node'
unfolding insert_in_leaf
insert_in_leaf-Inserted node i cell leaf le size room =
    let at = leaf_node_alloc_ptr node - length cell in
    let big : 8 ≤ length cell = unfold get_cell_size in omega (arith, size) in
    let (shifted, e₁, sh) =
      shift_cellptrs-Shifted node i le (omega (arith, leaf.bound, leaf.page)) in
    let (num, alloc, _) = Shifted-fields node shifted i _ sh in
    let (node', e₂, al) =
      allocate-Allocated shifted i cell at (omega arith) (omega arith) (omega arith)
        (omega (arith, sh.size, leaf.page, leaf.bound)) (omega (arith, sh.size, leaf.page)) in
    let pl = both-Placed node shifted node' cell i at le (omega arith) (omega arith) sh al in
    (
      node',
      rw (e₁, e₂) refl,
      Placed-Inserted node node' cell i at leaf size big (omega arith) (omega arith) le pl,
    )
