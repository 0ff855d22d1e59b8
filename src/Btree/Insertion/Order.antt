-- ===== src/Btree/Insertion/Order.antt =====
-- The order of the keys of a leaf of learndb/btree.py: what is found, inserted and found again.
use learndb_py.Prelude.{ℕ, ◌+◌, ◌-◌, ◌*◌, ◌≤◌, ◌<◌, ◌≡◌, ◌≢◌, refl, sym, ap, ◌∙◌, arith, length, ok}
use native.Mathlib.Decide.{dec_lt}
use learndb_py.Bytes.Slices.{Bytes, slice}
use learndb_py.Bytes.Parts.{slice-slice, slice-same}
use learndb_py.Bytes.Numbers.{from_bytes}
use learndb_py.Serde.{get_cell_size, get_cell_key, get_cell_key_in_page}
use learndb_py.Btree.Leaf.{
  leaf_node_num_cells, leaf_node_alloc_ptr, leaf_node_cell, leaf_node_cellptr,
  leaf_node_cell_offset, leaf_node_key,
}
use learndb_py.Btree.Insertion.{insert_in_leaf}
use learndb_py.Btree.Shape.{IsLeaf}
use learndb_py.Btree.Insertion.Cells.{Inserted, insert_in_leaf-Inserted}
use learndb_py.Btree.Search.{find_in_leaf}
use learndb_py.Btree.Search.Halving.{Position}
use learndb_py.Btree.Search.Position.{cell_key, leaf_node_key-reads, find_in_leaf-Position}

-- The keys of the cells increase.
abbrev pub Increasing : Bytes → Type 0
Increasing node =
    (i j : ℕ) → i < j → j < leaf_node_num_cells node → cell_key node i < cell_key node j

-- The key that is read in the page is the key of the cell.
get_cell_key_in_page-cell :
    (node : Bytes) (p : ℕ)
    → get_cell_key_in_page node p ≡ get_cell_key (slice node p (p + get_cell_size node p))
unfolding get_cell_key get_cell_key_in_page get_cell_size
get_cell_key_in_page-cell node p =
    let ks = from_bytes (slice node p (p + 4)) in
    let ds = from_bytes (slice node (p + 4) (p + 4 + 4)) in
    let cell = slice node p (p + (4 + 4 + ks + ds)) in
    let same : from_bytes (slice cell 0 4) ≡ ks = ap from_bytes (
      slice-slice node p (p + (4 + 4 + ks + ds)) 0 4 (omega arith) (omega arith)
      ∙ slice-same node (omega arith) refl) in
    ap from_bytes (
      slice-same node (omega arith) (omega (arith, same))
      ∙ sym (
          slice-slice node p (p + (4 + 4 + ks + ds)) 8 (8 + from_bytes (slice cell 0 4))
            (omega arith) (omega (arith, same))))

cell_key-cell : (node : Bytes) (j : ℕ) → cell_key node j ≡ get_cell_key (leaf_node_cell node j)
unfolding leaf_node_cell leaf_node_cell_offset
cell_key-cell node j = get_cell_key_in_page-cell node (leaf_node_cellptr node j)

pub cell_key-same :
    (node node' : Bytes) (i j : ℕ)
    → leaf_node_cell node' i ≡ leaf_node_cell node j
    → cell_key node' i ≡ cell_key node j
cell_key-same node node' i j e =
    cell_key-cell node' i ∙ ap get_cell_key e ∙ sym (cell_key-cell node j)

-- A key that no cell has is greater than the keys before its position and smaller than those behind it.
Inserted-Increasing :
    (node cell node' : Bytes) (c : ℕ)
    → Increasing node
    → ((i : ℕ) → i < leaf_node_num_cells node → cell_key node i ≢ get_cell_key cell)
    → Position (cell_key node) (leaf_node_num_cells node) (get_cell_key cell) c
    → Inserted node c cell node'
    → Increasing node'
Inserted-Increasing node cell node' c inc absent pos ins i j lt bound = elim (dec_lt j c) [
  | yes p ↦ omega (arith, low i (omega arith), low j p, inc i j lt (omega (arith, pos.within)))
  | no p ↦ elim (dec_lt c j) [
    | no q ↦
        let here : j ≡ c = omega (arith, p, q) in
        omega (
          arith,
          own,
          ap (cell_key node') here,
          low i (omega (arith, here)),
          pos.smaller i (omega (arith, here)),
        )
    | yes q ↦
        let k = j - 1 in
        let high_j : cell_key node' j ≡ cell_key node k =
          ap (cell_key node') (omega arith) ∙ high k (omega arith) (omega (arith, ins.num)) in
        let k_in : k < leaf_node_num_cells node = omega (arith, ins.num) in
        elim (dec_lt i c) [
          | yes r ↦
              omega (arith, high_j, low i r, pos.smaller i r, pos.not_smaller k (omega arith) k_in)
          | no r ↦ elim (dec_lt c i) [
            | no s ↦
                let here : i ≡ c = omega (arith, r, s) in
                omega (
                  arith,
                  own,
                  ap (cell_key node') here,
                  high_j,
                  pos.not_smaller k (omega arith) k_in,
                  absent k k_in,
                )
            | yes s ↦
                let m = i - 1 in
                let high_i : cell_key node' i ≡ cell_key node m =
                  ap (cell_key node') (omega arith) ∙ high m (omega arith) (omega arith) in
                omega (arith, high_i, high_j, inc m k (omega arith) k_in)
          ]
        ]
  ]
]
  where
    own : cell_key node' c ≡ get_cell_key cell
    own = cell_key-cell node' c ∙ ap get_cell_key ins.here

    low : (k : ℕ) → k < c → cell_key node' k ≡ cell_key node k
    low k p = cell_key-same node node' k k (ins.before k p)

    high : (k : ℕ) → c ≤ k → k < leaf_node_num_cells node → cell_key node' (k + 1) ≡ cell_key node k
    high k p q = cell_key-same node node' (k + 1) k (ins.behind k p q)

-- A key has one position.
Position-own :
    (node : Bytes) (key c d : ℕ)
    → Increasing node
    → c < leaf_node_num_cells node
    → cell_key node c ≡ key
    → Position (cell_key node) (leaf_node_num_cells node) key d
    → d ≡ c
Position-own node key c d inc lt e pos = elim (dec_lt c d) [
  | yes p ↦ absurd (omega (arith, pos.smaller c p))
  | no p ↦ elim (dec_lt d c) [
    | yes q ↦ absurd (omega (arith, inc d c q lt, pos.not_smaller d (omega arith) (omega arith)))
    | no q ↦ omega (arith, p, q)
  ]
]

-- The leaf `node'` behind the insertion of a cell into `node`: it is a leaf with one cell more and
-- increasing keys, the search for the key of the cell finds position `c`, and there are the key and the
-- cell. The allocation pointer moved down by the length of the cell.
pub record Holds (node cell : Bytes) (c : ℕ) (node' : Bytes) : Type 0 where
  pub num : leaf_node_num_cells node' ≡ leaf_node_num_cells node + 1
  pub space : leaf_node_alloc_ptr node' + length cell ≡ leaf_node_alloc_ptr node
  pub is_leaf : IsLeaf node'
  pub increasing : Increasing node'
  pub search : find_in_leaf node' (get_cell_key cell) ≡ ok c
  pub key : leaf_node_key node' c ≡ ok (get_cell_key cell)
  pub cell_there : leaf_node_cell node' c ≡ cell

Inserted-Holds :
    (node cell node' : Bytes) (c : ℕ)
    → Increasing node
    → ((i : ℕ) → i < leaf_node_num_cells node → cell_key node i ≢ get_cell_key cell)
    → Position (cell_key node) (leaf_node_num_cells node) (get_cell_key cell) c
    → Inserted node c cell node'
    → Holds node cell c node'
Inserted-Holds node cell node' c inc absent pos ins =
    let inc' = Inserted-Increasing node cell node' c inc absent pos ins in
    let lt : c < leaf_node_num_cells node' = omega (arith, ins.num, pos.within) in
    let own : cell_key node' c ≡ get_cell_key cell =
      cell_key-cell node' c ∙ ap get_cell_key ins.here in
    let (d, runs, pos') = find_in_leaf-Position node' (get_cell_key cell) inc' in
    record {
      num = ins.num;
      space = ins.space;
      is_leaf = ins.is_leaf;
      increasing = inc';
      search =
          runs ∙ ap (λ (x : ℕ). ok x) (Position-own node' (get_cell_key cell) c d inc' lt own pos');
      key = leaf_node_key-reads node' c lt ∙ ap (λ (x : ℕ). ok x) own;
      cell_there = ins.here;
    }

-- On a leaf with increasing keys, none of which is that of the cell, and with room for the cell and its
-- pointer: the search returns a position, the insertion there returns a leaf whose keys increase again,
-- and the search in that leaf finds the key at the position, where the cell is.
pub find_in_leaf-insert_in_leaf :
    (node cell : Bytes)
    → IsLeaf node
    → Increasing node
    → ((i : ℕ) → i < leaf_node_num_cells node → cell_key node i ≢ get_cell_key cell)
    → get_cell_size cell 0 ≡ length cell
    → 28 + 4 * (leaf_node_num_cells node + 1) + length cell ≤ leaf_node_alloc_ptr node
    → (c : ℕ) × (find_in_leaf node (get_cell_key cell) ≡ ok c)
      × (node' : Bytes) × (insert_in_leaf node c cell ≡ ok node')
      × Holds node cell c node'
find_in_leaf-insert_in_leaf node cell leaf inc absent size room =
    let (c, runs, pos) = find_in_leaf-Position node (get_cell_key cell) inc in
    let (node', e, ins) = insert_in_leaf-Inserted node c cell leaf pos.within size room in
    (c, runs, node', e, Inserted-Holds node cell node' c inc absent pos ins)
