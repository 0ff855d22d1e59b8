-- ===== src/Btree/Insertion/Placed.antt =====
-- Where the cells of a leaf of learndb/btree.py are, behind an insertion that has room.
use learndb_py.Prelude.{
  inl, inr, ℕ, ◌+◌, ◌-◌, ◌*◌, ◌≤◌, ◌<◌, ◌≡◌, refl, sym, ap, ◌∙◌, arith, length,
}
use native.Mathlib.Decide.{dec_lt}
use learndb_py.Bytes.Slices.{Bytes, slice}
use learndb_py.Bytes.Parts.{slice-slice, slice-same}
use learndb_py.Bytes.Numbers.{from_bytes}
use learndb_py.Constants.{page_size}
use learndb_py.Serde.{get_cell_size}
use learndb_py.Btree.Words.{get_word}
use learndb_py.Btree.Leaf.{
  leaf_node_num_cells, leaf_node_alloc_ptr, leaf_node_cellptr, leaf_node_cell_ptr_offset,
  leaf_node_cell, leaf_node_cell_size,
}
use learndb_py.Btree.Insertion.Shifted.{Shifted}
use learndb_py.Btree.Insertion.Room.{Allocated}
use learndb_py.Btree.Shape.{IsLeaf, SameFrom, Off, Off-same, leaf_node_cell-same}

-- The size of a cell that was written at `at`.
get_cell_size-written :
    (node cell : Bytes) (at : ℕ)
    → slice node at (at + length cell) ≡ cell
    → 8 ≤ length cell
    → get_cell_size node at ≡ get_cell_size cell 0
unfolding get_cell_size
get_cell_size-written node cell at e h =
    let part : (c d : ℕ) → c ≤ d → d ≤ 8 → slice node (at + c) (at + d) ≡ slice cell c d =
      λ c d p q.
        sym (slice-slice node at (at + length cell) c d p (omega arith))
        ∙ ap (λ (x : Bytes). slice x c d) e in
    let k : from_bytes (slice node at (at + 4)) ≡ from_bytes (slice cell 0 4) =
      ap from_bytes (slice-same node (omega arith) refl ∙ part 0 4 (omega arith) (omega arith)) in
    let d : from_bytes (slice node (at + 4) (at + 4 + 4)) ≡ from_bytes (slice cell 4 8) =
      ap from_bytes (slice-same node refl (omega arith) ∙ part 4 8 (omega arith) (omega arith)) in
    omega (arith, k, d)

-- The fields of a node behind a shift of its cell pointers.
pub Shifted-fields :
    (node shifted : Bytes) (i n : ℕ)
    → Shifted node i n shifted
    → (leaf_node_num_cells shifted ≡ leaf_node_num_cells node)
      × (leaf_node_alloc_ptr shifted ≡ leaf_node_alloc_ptr node)
      × ((j : ℕ) → j < i → leaf_node_cellptr shifted j ≡ leaf_node_cellptr node j)
unfolding leaf_node_num_cells leaf_node_alloc_ptr leaf_node_cellptr leaf_node_cell_ptr_offset
    get_word
Shifted-fields node shifted i n sh = (
  ap from_bytes (sh.below 12 16 (omega arith)),
  ap from_bytes (sh.below 16 20 (omega arith)),
  λ j p. ap from_bytes (sh.below (28 + j * 4) (28 + j * 4 + 4) (omega arith)),
)

-- Where the cells are, behind a shift and an allocation.
pub record Placed (node : Bytes) (i : ℕ) (cell : Bytes) (at : ℕ) (node' : Bytes) : Type 0 where
  pub same : SameFrom (leaf_node_alloc_ptr node) node node'
  pub own : leaf_node_cellptr node' i ≡ at
  pub before : (j : ℕ) → j < i → leaf_node_cellptr node' j ≡ leaf_node_cellptr node j
  pub behind :
      (j : ℕ)
      → i ≤ j
      → j < leaf_node_num_cells node
      → leaf_node_cellptr node' (j + 1) ≡ leaf_node_cellptr node j
  pub num : leaf_node_num_cells node' ≡ leaf_node_num_cells node + 1
  pub ptr : leaf_node_alloc_ptr node' ≡ at
  pub size : length node' ≡ length node
  pub written : slice node' at (at + length cell) ≡ cell

pub both-Placed :
    (node shifted node' cell : Bytes) (i at : ℕ)
    → i ≤ leaf_node_num_cells node
    → at + length cell ≡ leaf_node_alloc_ptr node
    → 28 + 4 * (leaf_node_num_cells node + 1) ≤ at
    → Shifted node i (leaf_node_num_cells node) shifted
    → Allocated shifted i cell at node'
    → Placed node i cell at node'
both-Placed node shifted node' cell i at h e room sh al =
    let (num, alloc, before) = Shifted-fields node shifted i _ sh in
    record {
      same = λ c d p. al.above c d (omega arith) ∙ sh.above c d (omega arith);
      own = al.own;
      before = λ j p. al.others j (omega (arith, num)) (omega arith) ∙ before j p;
      behind = λ j p q. al.others (j + 1) (omega (arith, num)) (omega arith) ∙ sh.moved j p q;
      num = al.num ∙ ap (λ (x : ℕ). x + 1) num;
      ptr = al.ptr;
      size = al.size ∙ sh.size;
      written = al.written;
    }

-- A cell lies between the allocation pointer and the end of the page.
abbrev Lies : Bytes → ℕ → ℕ → Type 0
Lies node at k =
    (at ≤ leaf_node_cellptr node k)
    × (leaf_node_cellptr node k + leaf_node_cell_size node k ≤ page_size)

kept_cell :
    (node node' : Bytes) (at k j : ℕ)
    → IsLeaf node
    → at ≤ leaf_node_alloc_ptr node
    → SameFrom (leaf_node_alloc_ptr node) node node'
    → j < leaf_node_num_cells node
    → leaf_node_cellptr node' k ≡ leaf_node_cellptr node j
    → Lies node' at k
kept_cell node node' at k j leaf h same lt e =
    let (low, high) = leaf.cells j lt in
    let (_, size) = leaf_node_cell-same node node' (leaf_node_alloc_ptr node) k j same e low in
    (omega arith, omega arith)

pub new_cell :
    (node' cell : Bytes) (at k : ℕ)
    → get_cell_size cell 0 ≡ length cell
    → 8 ≤ length cell
    → at + length cell ≤ page_size
    → slice node' at (at + length cell) ≡ cell
    → leaf_node_cellptr node' k ≡ at
    → (leaf_node_cell_size node' k ≡ length cell) × (leaf_node_cell node' k ≡ cell)
unfolding leaf_node_cell_size leaf_node_cell
new_cell node' cell at k size big h w e =
    let s : get_cell_size node' at ≡ length cell =
      get_cell_size-written node' cell at w big ∙ size in
    (rw e s, rw (e, s) w)

pub Placed-cells :
    (node node' cell : Bytes) (i at : ℕ)
    → IsLeaf node
    → get_cell_size cell 0 ≡ length cell
    → 8 ≤ length cell
    → at + length cell ≡ leaf_node_alloc_ptr node
    → Placed node i cell at node'
    → (k : ℕ) → k < leaf_node_num_cells node + 1
    → i ≤ leaf_node_num_cells node
    → Lies node' at k
Placed-cells node node' cell i at leaf size big e pl k lt le = elim (dec_lt k i) [
  | yes b ↦ kept_cell node node' at k k leaf (omega arith) pl.same (omega arith) (pl.before k b)
  | no b ↦ later k lt (omega (arith, b))
]
  where
    later : (m : ℕ) → m < leaf_node_num_cells node + 1 → i ≤ m → Lies node' at m
    later m l h = elim (dec_lt i m) [
      | no q ↦
          let here : m ≡ i = omega (arith, q) in
          let own : leaf_node_cellptr node' m ≡ at = ap (leaf_node_cellptr node') here ∙ pl.own in
          let (s, _) =
            new_cell node' cell at m size big (omega (arith, leaf.bound)) pl.written own in
          (omega arith, omega (arith, leaf.bound))
      | yes q ↦
          let j = m - 1 in
          let next : m ≡ j + 1 = omega arith in
          kept_cell node node' at m j leaf (omega arith) pl.same (omega arith)
            (ap (leaf_node_cellptr node') next ∙ pl.behind j (omega arith) (omega arith))
    ]

-- No two cells of the new leaf overlap.
pub Placed-apart :
    (node node' cell : Bytes) (i at : ℕ)
    → IsLeaf node
    → get_cell_size cell 0 ≡ length cell
    → 8 ≤ length cell
    → at + length cell ≡ leaf_node_alloc_ptr node
    → Placed node i cell at node'
    → i ≤ leaf_node_num_cells node
    → (j k : ℕ) → j < k
    → k < leaf_node_num_cells node + 1
    → Off node' j k
Placed-apart node node' cell i at leaf size big e pl le j k lt bound = elim (dec_lt k i) [
  | yes p ↦ old j k j k (pl.before j (omega arith)) (pl.before k p) lt (omega arith)
  | no p ↦ elim (dec_lt i k) [
    | no q ↦
        let (pk, sk) = own k (omega (arith, p, q)) in
        let pj = pl.before j (omega (arith, p, q)) in
        inr (omega (arith, pk, sk, pj, (leaf.cells j (omega (arith, p, q))).0))
    | yes q ↦
        let pk = shifted k q (omega arith) in
        elim (dec_lt j i) [
          | yes r ↦ old j k j (k - 1) (pl.before j r) pk (omega arith) (omega arith)
          | no r ↦ elim (dec_lt i j) [
            | yes t ↦
                old j k (j - 1) (k - 1) (shifted j t (omega arith)) pk (omega arith) (omega arith)
            | no t ↦
                let (pj, sj) = own j (omega (arith, r, t)) in
                inl (omega (arith, pj, sj, pk, (leaf.cells (k - 1) (omega arith)).0))
          ]
        ]
  ]
]
  where
    own :
        (m : ℕ)
        → m ≡ i
        → (leaf_node_cellptr node' m ≡ at) × (leaf_node_cell_size node' m ≡ length cell)
    own m q =
        let h : leaf_node_cellptr node' m ≡ at = ap (leaf_node_cellptr node') q ∙ pl.own in
        (h, (new_cell node' cell at m size big (omega (arith, leaf.bound)) pl.written h).0)

    shifted :
        (m : ℕ)
        → i < m
        → m < leaf_node_num_cells node + 1
        → leaf_node_cellptr node' m ≡ leaf_node_cellptr node (m - 1)
    shifted m q h =
        let next : m ≡ m - 1 + 1 = omega arith in
        ap (leaf_node_cellptr node') next ∙ pl.behind (m - 1) (omega arith) (omega arith)

    sized :
        (x m : ℕ)
        → m < leaf_node_num_cells node
        → leaf_node_cellptr node' x ≡ leaf_node_cellptr node m
        → leaf_node_cell_size node' x ≡ leaf_node_cell_size node m
    sized x m h q =
        (leaf_node_cell-same node node' (leaf_node_alloc_ptr node) x m pl.same q
          (leaf.cells m h).0).1

    old :
        (x y m n : ℕ)
        → leaf_node_cellptr node' x ≡ leaf_node_cellptr node m
        → leaf_node_cellptr node' y ≡ leaf_node_cellptr node n
        → m < n
        → n < leaf_node_num_cells node
        → Off node' x y
    old x y m n q r l h =
        Off-same node node' x y m n q (sized x m (omega arith) q) r (sized y n h r)
          (leaf.apart m n l h)
