-- ===== src/Btree/Deletion/Closed.antt =====
-- The cell pointers of a leaf of learndb/btree.py behind the gap of a deleted cell is closed.
use learndb_py.Prelude.{
  ℕ, ◌+◌, ◌-◌, ◌*◌, ◌≤◌, ◌<◌, ◌≡◌, refl, ap, ◌∙◌, Bool-cases, inl, inr, arith, length, ltb, lt→ltb,
  ok,
}
use learndb_py.Bytes.Slices.{
  Bytes, slice, splice, length-splice, length-slice, slice-splice_below, slice-splice_above,
}
use learndb_py.Bytes.Parts.{slice-slice, slice-splice_within, slice-same, splice-same}
use learndb_py.Bytes.Numbers.{from_bytes}
use learndb_py.Btree.Words.{get_word}
use learndb_py.Btree.Leaf.{
  leaf_node_num_cells, leaf_node_cellptr, leaf_node_cell_ptr_offset, leaf_node_cellptrs_starting_at,
  set_leaf_node_cellptrs_starting_at,
}
use learndb_py.Btree.Deletion.{close_gap}

-- What closing the gap at `c` leaves of a node with `n` cells.
pub record Closed (node : Bytes) (c n : ℕ) (node' : Bytes) : Type 0 where
  pub size : length node' ≡ length node
  pub below : (x y : ℕ) → y ≤ 28 + 4 * c → slice node' x y ≡ slice node x y
  pub above : (x y : ℕ) → 28 + 4 * n ≤ x → slice node' x y ≡ slice node x y
  pub moved :
      (j : ℕ) → c ≤ j → j + 1 < n → leaf_node_cellptr node' j ≡ leaf_node_cellptr node (j + 1)

abbrev closed_node : Bytes → ℕ → ℕ → Bytes
closed_node node c n =
    splice node (28 + 4 * c) (28 + 4 * (n - 1)) (slice node (28 + 4 * (c + 1)) (28 + 4 * n))

closed_node-moved :
    (node : Bytes) (c n j : ℕ)
    → c ≤ j
    → j + 1 < n
    → 28 + 4 * n ≤ length node
    → leaf_node_cellptr (closed_node node c n) j ≡ leaf_node_cellptr node (j + 1)
unfolding leaf_node_cellptr leaf_node_cell_ptr_offset get_word
closed_node-moved node c n j p q l =
    let v = slice node (28 + 4 * (c + 1)) (28 + 4 * n) in
    let lv : length v ≡ 28 + 4 * n - (28 + 4 * (c + 1)) = length-slice node _ _ l in
    ap from_bytes (
      slice-splice_within node v (28 + 4 * c) (28 + 4 * (n - 1)) (28 + j * 4) (28 + j * 4 + 4)
        (omega arith) (omega arith) (omega arith) (omega arith) (omega arith)
      ∙ slice-slice node (28 + 4 * (c + 1)) (28 + 4 * n) _ _ (omega arith) (omega arith)
      ∙ slice-same node (omega arith) (omega arith))

closed_node-Closed :
    (node : Bytes) (c n : ℕ)
    → c + 1 < n
    → 28 + 4 * n ≤ length node
    → Closed node c n (closed_node node c n)
closed_node-Closed node c n h l =
    let v = slice node (28 + 4 * (c + 1)) (28 + 4 * n) in
    let lv : length v ≡ 28 + 4 * n - (28 + 4 * (c + 1)) = length-slice node _ _ l in
    record {
      size = length-splice node v (28 + 4 * c) (28 + 4 * (n - 1)) (omega arith) (omega arith);
      below =
          λ x y p. slice-splice_below node v (28 + 4 * c) (28 + 4 * (n - 1)) x y p (omega arith);
      above = λ x y p.
          slice-splice_above node v (28 + 4 * c) (28 + 4 * (n - 1)) x y (omega arith) (omega arith)
            (omega arith);
      moved = λ j p q. closed_node-moved node c n j p q l;
    }

close_gap-some :
    (node : Bytes) (c n : ℕ)
    → leaf_node_num_cells node ≡ n
    → c + 1 < n
    → 28 + 4 * n ≤ length node
    → close_gap node c n ≡ ok (closed_node node c n)
unfolding close_gap leaf_node_cellptrs_starting_at set_leaf_node_cellptrs_starting_at
    leaf_node_cell_ptr_offset
close_gap-some node c n e h l =
    let v =
      slice node (28 + (c + 1) * 4) (28 + (c + 1) * 4 + (leaf_node_num_cells node - (c + 1)) * 4) in
    let lv : length v
        ≡ 28 + (c + 1) * 4 + (leaf_node_num_cells node - (c + 1)) * 4 - (28 + (c + 1) * 4) =
      length-slice node _ _ (omega arith) in
    rw (lt→ltb c (n - 1) (omega arith), lt→ltb (c + 1) (leaf_node_num_cells node) (omega arith))
      (ap (λ (x : Bytes). ok x)
        (splice-same node v (omega arith) (omega arith)
          ∙ ap (splice node (28 + 4 * c) (28 + 4 * (n - 1)))
              (slice-same node (omega arith) (omega arith))))

pub close_gap-Closed :
    (node : Bytes) (c n : ℕ)
    → leaf_node_num_cells node ≡ n
    → c < n
    → 28 + 4 * n ≤ length node
    → (node' : Bytes) × (close_gap node c n ≡ ok node') × Closed node c n node'
close_gap-Closed node c n e h l = elim (Bool-cases (ltb c (n - 1))) [
  | inl b ↦
      let more : c + 1 < n = ground (arith, b) in
      (closed_node node c n, close_gap-some node c n e more l, closed_node-Closed node c n more l)
  | inr b ↦ (
    node,
    unfold close_gap in rw b refl,
    record {
      size = refl;
      below = λ x y p. refl;
      above = λ x y p. refl;
      moved = λ j p q. absurd (ground (arith, b));
    },
  )
]
