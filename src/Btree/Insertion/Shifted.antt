-- ===== src/Btree/Insertion/Shifted.antt =====
-- The cell pointers of a leaf of learndb/btree.py behind a shift.
use learndb_py.Prelude.{
  ℕ, ◌+◌, ◌-◌, ◌*◌, ◌≤◌, ◌<◌, ◌≡◌, refl, ap, ◌∙◌, Bool-cases, inl, inr, arith, length, ltb, true,
  false, ok,
}
use learndb_py.Bytes.Slices.{
  Bytes, slice, splice, length-splice, length-slice, slice-splice_below, slice-splice_above,
}
use learndb_py.Bytes.Parts.{slice-slice, slice-splice_within, slice-same, splice-same}
use learndb_py.Bytes.Numbers.{from_bytes}
use learndb_py.Btree.Words.{get_word}
use learndb_py.Btree.Leaf.{
  leaf_node_num_cells, leaf_node_cellptr, leaf_node_cell_ptr_offset, leaf_node_cellptrs_starting_at,
  set_leaf_node_cellptrs_starting_at,
}
use learndb_py.Btree.Insertion.{shift_cellptrs}

-- What a shift of the pointers from `i` on leaves of a node with `n` cells.
pub record Shifted (node : Bytes) (i n : ℕ) (node' : Bytes) : Type 0 where
  pub size : length node' ≡ length node
  pub below : (c d : ℕ) → d ≤ 28 + 4 * i → slice node' c d ≡ slice node c d
  pub above : (c d : ℕ) → 28 + 4 * (n + 1) ≤ c → slice node' c d ≡ slice node c d
  pub moved : (j : ℕ) → i ≤ j → j < n → leaf_node_cellptr node' (j + 1) ≡ leaf_node_cellptr node j

-- The node behind a shift of the pointers from `i` on.
abbrev pub moved_node : Bytes → ℕ → ℕ → Bytes
moved_node node i n =
    splice node (28 + 4 * (i + 1)) (28 + 4 * (n + 1)) (slice node (28 + 4 * i) (28 + 4 * n))

moved_node-moved :
    (node : Bytes) (i n j : ℕ)
    → i ≤ j
    → j < n
    → 28 + 4 * (n + 1) ≤ length node
    → leaf_node_cellptr (moved_node node i n) (j + 1) ≡ leaf_node_cellptr node j
unfolding leaf_node_cellptr leaf_node_cell_ptr_offset get_word
moved_node-moved node i n j p q l =
    let v = slice node (28 + 4 * i) (28 + 4 * n) in
    let lv : length v ≡ 28 + 4 * n - (28 + 4 * i) =
      length-slice node (28 + 4 * i) (28 + 4 * n) (omega arith) in
    ap from_bytes (
      slice-splice_within node v (28 + 4 * (i + 1)) (28 + 4 * (n + 1)) (28 + (j + 1) * 4)
        (28 + (j + 1) * 4 + 4) (omega arith) (omega arith) (omega arith) (omega arith) (omega arith)
      ∙ slice-slice node (28 + 4 * i) (28 + 4 * n) _ _ (omega arith) (omega arith)
      ∙ slice-same node (omega arith) (omega arith))

moved_node-Shifted :
    (node : Bytes) (i n : ℕ)
    → i ≤ n
    → 28 + 4 * (n + 1) ≤ length node
    → Shifted node i n (moved_node node i n)
moved_node-Shifted node i n h l =
    let v = slice node (28 + 4 * i) (28 + 4 * n) in
    let lv : length v ≡ 28 + 4 * n - (28 + 4 * i) =
      length-slice node (28 + 4 * i) (28 + 4 * n) (omega arith) in
    record {
      size = length-splice node v (28 + 4 * (i + 1)) (28 + 4 * (n + 1)) (omega arith) l;
      below = λ c d p.
          slice-splice_below node v (28 + 4 * (i + 1)) (28 + 4 * (n + 1)) c d (omega arith)
            (omega arith);
      above = λ c d p.
          slice-splice_above node v (28 + 4 * (i + 1)) (28 + 4 * (n + 1)) c d (omega arith) p l;
      moved = λ j p q. moved_node-moved node i n j p q l;
    }

shift_cellptrs-none :
    (node : Bytes) (i : ℕ)
    → ltb i (leaf_node_num_cells node) ≡ false
    → shift_cellptrs node i ≡ ok node
unfolding shift_cellptrs
shift_cellptrs-none node i e = rw e refl

shift_cellptrs-some :
    (node : Bytes) (i : ℕ)
    → ltb i (leaf_node_num_cells node) ≡ true
    → i ≤ leaf_node_num_cells node
    → 28 + 4 * (leaf_node_num_cells node + 1) ≤ length node
    → shift_cellptrs node i ≡ ok (moved_node node i (leaf_node_num_cells node))
unfolding shift_cellptrs leaf_node_cellptrs_starting_at set_leaf_node_cellptrs_starting_at
    leaf_node_cell_ptr_offset
shift_cellptrs-some node i e h l =
    let n = leaf_node_num_cells node in
    let v = slice node (28 + i * 4) (28 + i * 4 + (n - i) * 4) in
    let lv : length v ≡ 28 + i * 4 + (n - i) * 4 - (28 + i * 4) =
      length-slice node _ _ (omega arith) in
    rw e (
      ap (λ (x : Bytes). ok x)
        (splice-same node v (omega arith) (omega arith)
          ∙ ap (splice node (28 + 4 * (i + 1)) (28 + 4 * (n + 1)))
              (slice-same node (omega arith) (omega arith))))

pub shift_cellptrs-Shifted :
    (node : Bytes) (i : ℕ)
    → i ≤ leaf_node_num_cells node
    → 28 + 4 * (leaf_node_num_cells node + 1) ≤ length node
    → (node' : Bytes) × (shift_cellptrs node i ≡ ok node')
      × Shifted node i (leaf_node_num_cells node) node'
shift_cellptrs-Shifted node i h l = elim (Bool-cases (ltb i (leaf_node_num_cells node))) [
  | inl e ↦ (moved_node node i _, shift_cellptrs-some node i e h l, moved_node-Shifted node i _ h l)
  | inr e ↦ (
    node,
    shift_cellptrs-none node i e,
    record {
      size = refl;
      below = λ c d p. refl;
      above = λ c d p. refl;
      moved = λ j p q. absurd (ground (arith, e));
    },
  )
]
