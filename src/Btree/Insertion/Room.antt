-- ===== src/Btree/Insertion/Room.antt =====
-- The allocation of a cell on the allocation block of a leaf of learndb/btree.py.
use learndb_py.Prelude.{
  ℕ, ◌+◌, ◌-◌, ◌*◌, ◌^◌, ◌≤◌, ◌<◌, ◌≡◌, ◌≢◌, ◌⊎◌, inl, inr, refl, ap, ◌∙◌, arith, length, ltb,
  lt→ltb, ok, Bool-cases,
}
use learndb_py.Bytes.Slices.{
  Bytes, slice, splice, length-splice, slice-splice_self, slice-splice_below, slice-splice_above,
}
use learndb_py.Bytes.Numbers.{from_bytes}
use learndb_py.Btree.Words.{get_word, set_word, Set, set_word_ok, Set-other}
use learndb_py.Btree.Leaf.{
  leaf_node_num_cells, leaf_node_alloc_ptr, leaf_node_cellptr, leaf_node_cell_ptr_offset,
  set_leaf_node_cellptr, set_leaf_node_cell, set_leaf_node_alloc_ptr, set_leaf_node_num_cells,
  leaf_node_allocate_alloc_block_cell,
}

-- What the allocation of `cell` at `at`, with its pointer at position `i`, leaves.
pub record Allocated (node : Bytes) (i : ℕ) (cell : Bytes) (at : ℕ) (node' : Bytes) : Type 0 where
  pub size : length node' ≡ length node
  pub num : leaf_node_num_cells node' ≡ leaf_node_num_cells node + 1
  pub ptr : leaf_node_alloc_ptr node' ≡ at
  pub own : leaf_node_cellptr node' i ≡ at
  pub others :
      (j : ℕ)
      → j ≤ leaf_node_num_cells node
      → j ≢ i
      → leaf_node_cellptr node' j ≡ leaf_node_cellptr node j
  pub written : slice node' at (at + length cell) ≡ cell
  pub above : (c d : ℕ) → at + length cell ≤ c → slice node' c d ≡ slice node c d

-- The node with the cell in its place.
abbrev placed : Bytes → ℕ → Bytes → Bytes
placed node at cell = splice node at (at + length cell) cell

placed-off :
    (node : Bytes) (at : ℕ) (cell : Bytes) (o : ℕ)
    → at + length cell ≤ length node
    → o + 4 ≤ at
    → get_word (placed node at cell) o ≡ get_word node o
unfolding get_word
placed-off node at cell o l p =
    ap from_bytes (slice-splice_below node cell at (at + length cell) o (o + 4) p (omega arith))

-- The three fields that are set, and the cell between them.
steps-Allocated :
    (node node₁ node₂ node₃ cell : Bytes) (i at : ℕ)
    → i ≤ leaf_node_num_cells node
    → 28 + 4 * (leaf_node_num_cells node + 1) ≤ at
    → at + length cell ≤ length node
    → Set node (28 + i * 4) at node₁
    → Set (placed node₁ at cell) 16 at node₂
    → Set node₂ 12 (get_word node₂ 12 + 1) node₃
    → Allocated node i cell at node₃
unfolding leaf_node_num_cells leaf_node_alloc_ptr leaf_node_cellptr leaf_node_cell_ptr_offset
steps-Allocated node node₁ node₂ node₃ cell i at h room bound s₁ s₂ s₃ =
    let fit : at + length cell ≤ length node₁ = omega (arith, s₁.size) in
    let lp : length (placed node₁ at cell) ≡ length node₁ =
      length-splice node₁ cell at (at + length cell) refl fit in
    let count : get_word node₂ 12 ≡ get_word node 12 =
      Set-other _ 16 at node₂ 12 s₂ (inl (omega arith))
      ∙ placed-off node₁ at cell 12 fit (omega arith)
      ∙ Set-other node (28 + i * 4) at node₁ 12 s₁ (inl (omega arith)) in
    let ptrs : (j : ℕ)
        → j ≤ get_word node 12
        → get_word node₃ (28 + j * 4) ≡ get_word node₁ (28 + j * 4) =
      λ j p.
        Set-other node₂ 12 _ node₃ (28 + j * 4) s₃ (inr (omega arith))
        ∙ Set-other _ 16 at node₂ (28 + j * 4) s₂ (inr (omega arith))
        ∙ placed-off node₁ at cell (28 + j * 4) fit (omega arith) in
    record {
      size = s₃.size ∙ s₂.size ∙ lp ∙ s₁.size;
      num = s₃.here ∙ ap (λ (x : ℕ). x + 1) count;
      ptr = Set-other node₂ 12 _ node₃ 16 s₃ (inr (omega arith)) ∙ s₂.here;
      own = ptrs i h ∙ s₁.here;
      others =
          λ j p ne. ptrs j p ∙ Set-other node (28 + i * 4) at node₁ (28 + j * 4) s₁ (apart i j ne);
      written =
          s₃.above at (at + length cell) (omega arith)
          ∙ s₂.above at (at + length cell) (omega arith)
          ∙ slice-splice_self node₁ cell at (at + length cell) refl (omega arith);
      above = λ c d p.
          s₃.above c d (omega arith)
          ∙ s₂.above c d (omega arith)
          ∙ slice-splice_above node₁ cell at (at + length cell) c d refl p fit
          ∙ s₁.above c d (omega arith);
    }
  where
    apart : (i j : ℕ) → j ≢ i → (28 + j * 4 + 4 ≤ 28 + i * 4) ⊎ (28 + i * 4 + 4 ≤ 28 + j * 4)
    apart i j ne = elim (Bool-cases (ltb j i)) [
      | inl e ↦ inl (ground (arith, e))
      | inr e ↦ inr (ground (arith, e, ne))
    ]

allocate-runs :
    (node node₁ node₂ node₃ cell : Bytes) (i at : ℕ)
    → 0 < at
    → leaf_node_alloc_ptr node - length cell ≡ at
    → set_word node (28 + i * 4) at ≡ ok node₁
    → set_word (placed node₁ at cell) 16 at ≡ ok node₂
    → set_word node₂ 12 (get_word node₂ 12 + 1) ≡ ok node₃
    → leaf_node_allocate_alloc_block_cell node i cell ≡ ok node₃
unfolding leaf_node_allocate_alloc_block_cell set_leaf_node_cellptr set_leaf_node_cell
    set_leaf_node_alloc_ptr set_leaf_node_num_cells leaf_node_num_cells leaf_node_cell_ptr_offset
allocate-runs node node₁ node₂ node₃ cell i at p q e₁ e₂ e₃ = rw (q, lt→ltb 0 at p, e₁, e₂, e₃) refl

-- The last two fields can be set.
allocate-second :
    (node node₁ : Bytes) (i : ℕ) (cell : Bytes) (at : ℕ)
    → i ≤ leaf_node_num_cells node
    → 28 + 4 * (leaf_node_num_cells node + 1) ≤ at
    → at + length cell ≡ leaf_node_alloc_ptr node
    → at + length cell ≤ length node
    → length node < 256 ^ 4
    → set_word node (28 + i * 4) at ≡ ok node₁
    → Set node (28 + i * 4) at node₁
    → (node' : Bytes) × (leaf_node_allocate_alloc_block_cell node i cell ≡ ok node')
      × Allocated node i cell at node'
unfolding leaf_node_num_cells
allocate-second node node₁ i cell at h room e bound small e₁ s₁ =
    let fit : at + length cell ≤ length node₁ = omega (arith, s₁.size) in
    let lp : length (placed node₁ at cell) ≡ length node₁ =
      length-splice node₁ cell at (at + length cell) refl fit in
    let (node₂, e₂, s₂) = set_word_ok (placed node₁ at cell) 16 at (omega arith) (omega arith) in
    let count : get_word node₂ 12 ≡ get_word node 12 =
      Set-other _ 16 at node₂ 12 s₂ (inl (omega arith))
      ∙ placed-off node₁ at cell 12 fit (omega arith)
      ∙ Set-other node (28 + i * 4) at node₁ 12 s₁ (inl (omega arith)) in
    let (node₃, e₃, s₃) =
      set_word_ok node₂ 12 (get_word node₂ 12 + 1) (omega (arith, count))
        (omega (arith, s₂.size, s₁.size)) in
    (
      node₃,
      allocate-runs node node₁ node₂ node₃ cell i at (omega arith) (omega arith) e₁ e₂ e₃,
      steps-Allocated node node₁ node₂ node₃ cell i at h room bound s₁ s₂ s₃,
    )

-- Where there is room for the cell and its pointer, the allocation returns.
pub allocate-Allocated :
    (node : Bytes) (i : ℕ) (cell : Bytes) (at : ℕ)
    → i ≤ leaf_node_num_cells node
    → 28 + 4 * (leaf_node_num_cells node + 1) ≤ at
    → at + length cell ≡ leaf_node_alloc_ptr node
    → at + length cell ≤ length node
    → length node < 256 ^ 4
    → (node' : Bytes) × (leaf_node_allocate_alloc_block_cell node i cell ≡ ok node')
      × Allocated node i cell at node'
allocate-Allocated node i cell at h room e bound small =
    let (node₁, e₁, s₁) = set_word_ok node (28 + i * 4) at (omega arith) (omega arith) in
    allocate-second node node₁ i cell at h room e bound small e₁ s₁
