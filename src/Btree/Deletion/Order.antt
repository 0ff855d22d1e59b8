-- ===== src/Btree/Deletion/Order.antt =====
-- The keys of a leaf of learndb/btree.py behind a deletion.
use learndb_py.Prelude.{ℕ, ◌+◌, ◌≤◌, ◌<◌, ◌≡◌, ◌≢◌, arith, ltb, Bool-cases, inl, inr, ok}
use native.Mathlib.Decide.{dec_lt}
use learndb_py.Bytes.Slices.{Bytes}
use learndb_py.Btree.Leaf.{leaf_node_num_cells}
use learndb_py.Btree.Shape.{IsLeaf}
use learndb_py.Btree.Search.Position.{cell_key}
use learndb_py.Btree.Insertion.Order.{Increasing, cell_key-same}
use learndb_py.Btree.Deletion.{delete_in_leaf}
use learndb_py.Btree.Deletion.Freed.{FreeSpace}
use learndb_py.Btree.Deletion.Removed.{Removed, delete_in_leaf-Removed, origin, origin-increases}

-- The key at a position is that of a cell that stays.
key-origin :
    (node node' : Bytes) (c j : ℕ)
    → Removed node c node'
    → j < leaf_node_num_cells node'
    → (cell_key node' j ≡ cell_key node (origin c j))
      × (origin c j < leaf_node_num_cells node)
      × (origin c j ≢ c)
key-origin node node' c j r h = elim (Bool-cases (ltb j c)) [
  | inl e ↦
      let less : j < c = ground (arith, e) in
      (
        rw e (cell_key-same node node' j j (r.before j less)),
        rw e (omega (arith, r.num)),
        rw e (omega arith),
      )
  | inr e ↦
      let more : c ≤ j = ground (arith, e) in
      (
        rw e (cell_key-same node node' j (j + 1) (r.behind j more (omega (arith, r.num)))),
        rw e (omega (arith, r.num)),
        rw e (omega arith),
      )
]

other_key :
    (node : Bytes) (c i : ℕ)
    → Increasing node
    → c < leaf_node_num_cells node
    → i < leaf_node_num_cells node
    → i ≢ c
    → cell_key node i ≢ cell_key node c
other_key node c i inc hc hi ne = elim (dec_lt i c) [
  | yes p ↦ omega (arith, inc i c p hc)
  | no p ↦ omega (arith, inc c i (omega arith) hi)
]

-- A leaf with increasing keys, and the leaf behind the deletion of its cell at `c`: the keys increase
-- again, and the key of the cell is gone.
pub record Gone (node : Bytes) (c : ℕ) (node' : Bytes) : Type 0 where
  pub removed : Removed node c node'
  pub increasing : Increasing node'
  pub absent : (j : ℕ) → j < leaf_node_num_cells node' → cell_key node' j ≢ cell_key node c

-- From a leaf with increasing keys, the deletion of a cell returns a leaf with one cell less, in which the
-- other cells are unchanged and in their order, the keys increase, and none is that of the deleted cell.
pub delete_in_leaf-Gone :
    (node : Bytes) (c : ℕ)
    → IsLeaf node
    → FreeSpace node
    → Increasing node
    → c < leaf_node_num_cells node
    → (node' : Bytes) × (delete_in_leaf node c ≡ ok node') × Gone node c node'
delete_in_leaf-Gone node c leaf free inc hc =
    let (node', e, r) = delete_in_leaf-Removed node c leaf free hc in
    (
      node',
      e,
      record {
        removed = r;
        increasing = λ i j lt h.
            let (ki, _, _) = key-origin node node' c i r (omega arith) in
            let (kj, bj, _) = key-origin node node' c j r h in
            omega (arith, ki, kj, inc (origin c i) (origin c j) (origin-increases c i j lt) bj);
        absent = λ j h.
            let (k, b, ne) = key-origin node node' c j r h in
            rw k (other_key node c (origin c j) inc hc b ne);
      },
    )
