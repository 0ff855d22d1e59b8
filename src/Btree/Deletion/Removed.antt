-- ===== src/Btree/Deletion/Removed.antt =====
-- The cells of a leaf of learndb/btree.py behind a deletion.
use learndb_py.Prelude.{
  ℕ, ◌+◌, ◌-◌, ◌*◌, ◌≤◌, ◌<◌, ◌≡◌, ◌≢◌, ◌⊎◌, inl, inr, refl, ap, ◌∙◌, arith, length, ok, ltb,
  if◌then◌else◌, Bool-cases,
}
use learndb_py.Bytes.Slices.{Bytes, slice}
use learndb_py.Bytes.Numbers.{from_bytes}
use learndb_py.Constants.{page_size}
use learndb_py.Serde.{get_cell_size}
use learndb_py.Btree.Words.{get_word, set_word, Set, set_word_ok, Set-other}
use learndb_py.Btree.Leaf.{
  leaf_node_num_cells, leaf_node_alloc_ptr, leaf_node_cellptr, leaf_node_cell_ptr_offset,
  leaf_node_cell, leaf_node_cell_size, set_leaf_node_num_cells,
}
use learndb_py.Btree.Shape.{IsLeaf, Off, Off-same}
use learndb_py.Btree.Search.Position.{leaf_node_key-reads}
use learndb_py.Btree.Deletion.{delete_in_leaf, close_gap, leaf_node_deallocate_cell}
use learndb_py.Btree.Deletion.Freed.{Freed, FreeSpace, deallocate-Freed, Off-any, size_big}
use learndb_py.Btree.Deletion.Closed.{Closed, close_gap-Closed}

-- Where the cells are behind a deletion at `c`.
record Left (node : Bytes) (c : ℕ) (node' : Bytes) : Type 0 where
  size : length node' ≡ length node
  num : leaf_node_num_cells node' + 1 ≡ leaf_node_num_cells node
  ptr :
      (leaf_node_alloc_ptr node' ≡ leaf_node_alloc_ptr node)
      ⊎ ((leaf_node_cellptr node c ≡ leaf_node_alloc_ptr node)
          × (leaf_node_alloc_ptr node' ≡ leaf_node_alloc_ptr node + leaf_node_cell_size node c))
  before : (j : ℕ) → j < c → leaf_node_cellptr node' j ≡ leaf_node_cellptr node j
  behind :
      (j : ℕ)
      → c ≤ j
      → j + 1 < leaf_node_num_cells node
      → leaf_node_cellptr node' j ≡ leaf_node_cellptr node (j + 1)
  others :
      (j x y : ℕ)
      → j < leaf_node_num_cells node
      → j ≢ c
      → leaf_node_cellptr node j ≤ x
      → y ≤ leaf_node_cellptr node j + leaf_node_cell_size node j
      → slice node' x y ≡ slice node x y

-- The three steps of a deletion.
steps-Left :
    (node m₁ m₂ m₃ : Bytes) (c : ℕ)
    → IsLeaf node
    → c < leaf_node_num_cells node
    → Freed node c m₁
    → Closed m₁ c (leaf_node_num_cells node) m₂
    → Set m₂ 12 (leaf_node_num_cells node - 1) m₃
    → Left node c m₃
unfolding leaf_node_num_cells leaf_node_alloc_ptr leaf_node_cellptr leaf_node_cell_ptr_offset
    get_word
steps-Left node m₁ m₂ m₃ c leaf hc f cl s = record {
  size = s.size ∙ cl.size ∙ f.quiet.size;
  num = ap (λ (x : ℕ). x + 1) s.here ∙ omega arith;
  ptr = after f.ptr;
  before = λ j p. ap from_bytes (
      s.above (28 + j * 4) (28 + j * 4 + 4) (omega arith)
      ∙ cl.below (28 + j * 4) (28 + j * 4 + 4) (omega arith)
      ∙ f.quiet.pointers (28 + j * 4) (28 + j * 4 + 4) (omega arith) (omega arith));
  behind = λ j p q.
      ap from_bytes (s.above (28 + j * 4) (28 + j * 4 + 4) (omega arith))
      ∙ cl.moved j p q
      ∙ ap from_bytes
          (f.quiet.pointers (28 + (j + 1) * 4) (28 + (j + 1) * 4 + 4) (omega arith) (omega arith));
  others = λ j x y a b e g.
      s.above x y (omega (arith, (leaf.cells j a).0, leaf.room))
      ∙ cl.above x y (omega (arith, (leaf.cells j a).0, leaf.room))
      ∙ f.quiet.others j x y a b e g;
}
  where
    kept : leaf_node_alloc_ptr m₃ ≡ leaf_node_alloc_ptr m₁
    kept =
        Set-other m₂ 12 _ m₃ 16 s (inr (omega arith)) ∙ ap from_bytes (cl.below 16 20 (omega arith))

    after :
        (leaf_node_alloc_ptr m₁ ≡ leaf_node_alloc_ptr node)
          ⊎ ((leaf_node_cellptr node c ≡ leaf_node_alloc_ptr node)
              × (leaf_node_alloc_ptr m₁ ≡ leaf_node_alloc_ptr node + leaf_node_cell_size node c))
        → (leaf_node_alloc_ptr m₃ ≡ leaf_node_alloc_ptr node)
          ⊎ ((leaf_node_cellptr node c ≡ leaf_node_alloc_ptr node)
              × (leaf_node_alloc_ptr m₃ ≡ leaf_node_alloc_ptr node + leaf_node_cell_size node c))
    after (inl h) = inl (kept ∙ h)
    after (inr h) = inr (h.0, kept ∙ h.1)

-- A cell that is not deleted is as before, at the position that has its pointer.
kept_cell :
    (node node' : Bytes) (c i j : ℕ)
    → Left node c node'
    → j < leaf_node_num_cells node
    → j ≢ c
    → leaf_node_cellptr node' i ≡ leaf_node_cellptr node j
    → (leaf_node_cell node' i ≡ leaf_node_cell node j)
      × (leaf_node_cell_size node' i ≡ leaf_node_cell_size node j)
unfolding leaf_node_cell leaf_node_cell_size
kept_cell node node' c i j left h ne e =
    let p = leaf_node_cellptr node j in
    let size : get_cell_size node' p ≡ get_cell_size node p =
      unfold get_cell_size in
      let k : from_bytes (slice node' p (p + 4)) ≡ from_bytes (slice node p (p + 4)) =
        ap from_bytes (left.others j p (p + 4) h ne (omega arith) (omega arith)) in
      let d : from_bytes (slice node' (p + 4) (p + 4 + 4))
          ≡ from_bytes (slice node (p + 4) (p + 4 + 4)) =
        ap from_bytes (left.others j (p + 4) (p + 4 + 4) h ne (omega arith) (omega arith)) in
      omega (arith, k, d) in
    (
      rw (e, size) (left.others j p (p + get_cell_size node p) h ne (omega arith) (omega arith)),
      rw e size,
    )

-- What a deletion at `c` leaves: a leaf with one cell less, with the cells before `c` where they were and
-- those behind it one position nearer.
pub record Removed (node : Bytes) (c : ℕ) (node' : Bytes) : Type 0 where
  pub is_leaf : IsLeaf node'
  pub num : leaf_node_num_cells node' + 1 ≡ leaf_node_num_cells node
  pub before : (j : ℕ) → j < c → leaf_node_cell node' j ≡ leaf_node_cell node j
  pub behind :
      (j : ℕ)
      → c ≤ j
      → j + 1 < leaf_node_num_cells node
      → leaf_node_cell node' j ≡ leaf_node_cell node (j + 1)

-- Which cell of the old leaf is at a position of the new one.
abbrev pub origin : ℕ → ℕ → ℕ
origin c j = if ltb j c then j else j + 1

origin-ptr :
    (node node' : Bytes) (c j : ℕ)
    → Left node c node'
    → c < leaf_node_num_cells node
    → j < leaf_node_num_cells node'
    → (leaf_node_cellptr node' j ≡ leaf_node_cellptr node (origin c j))
      × (origin c j < leaf_node_num_cells node)
      × (origin c j ≢ c)
origin-ptr node node' c j left hc h = elim (Bool-cases (ltb j c)) [
  | inl e ↦
      let less : j < c = ground (arith, e) in
      (rw e (left.before j less), rw e (omega (arith, left.num)), rw e (omega arith))
  | inr e ↦
      let more : c ≤ j = ground (arith, e) in
      (
        rw e (left.behind j more (omega (arith, left.num))),
        rw e (omega (arith, left.num)),
        rw e (omega arith),
      )
]

pub origin-increases : (c j k : ℕ) → j < k → origin c j < origin c k
origin-increases c j k h = ground arith

-- The cells that stay lie behind the new allocation pointer.
low_bound :
    (node node' : Bytes) (c j : ℕ)
    → IsLeaf node
    → Left node c node'
    → c < leaf_node_num_cells node
    → j < leaf_node_num_cells node
    → j ≢ c
    → leaf_node_alloc_ptr node' ≤ leaf_node_cellptr node j
low_bound node node' c j leaf left hc hj ne = go left.ptr (Off-any node c j leaf hc hj ne)
  where
    go :
        (leaf_node_alloc_ptr node' ≡ leaf_node_alloc_ptr node)
          ⊎ ((leaf_node_cellptr node c ≡ leaf_node_alloc_ptr node)
              × (leaf_node_alloc_ptr node' ≡ leaf_node_alloc_ptr node + leaf_node_cell_size node c))
        → Off node c j
        → leaf_node_alloc_ptr node' ≤ leaf_node_cellptr node j
    go (inl e) o = omega (arith, (leaf.cells j hj).0)
    go (inr (at, e)) (inl o) = omega arith
    go (inr (at, e)) (inr o) = absurd (omega (arith, (leaf.cells j hj).0, size_big node j))

new_bounds :
    (node node' : Bytes) (c : ℕ)
    → IsLeaf node
    → Left node c node'
    → c < leaf_node_num_cells node
    → (leaf_node_alloc_ptr node ≤ leaf_node_alloc_ptr node')
      × (leaf_node_alloc_ptr node' ≤ page_size)
new_bounds node node' c leaf left hc = go left.ptr
  where
    go :
        (leaf_node_alloc_ptr node' ≡ leaf_node_alloc_ptr node)
          ⊎ ((leaf_node_cellptr node c ≡ leaf_node_alloc_ptr node)
              × (leaf_node_alloc_ptr node' ≡ leaf_node_alloc_ptr node + leaf_node_cell_size node c))
        → (leaf_node_alloc_ptr node ≤ leaf_node_alloc_ptr node')
          × (leaf_node_alloc_ptr node' ≤ page_size)
    go (inl e) = omega (arith, leaf.bound)
    go (inr (at, e)) = omega (arith, (leaf.cells c hc).1)

Left-IsLeaf :
    (node node' : Bytes) (c : ℕ)
    → IsLeaf node
    → Left node c node'
    → c < leaf_node_num_cells node
    → IsLeaf node'
Left-IsLeaf node node' c leaf left hc =
    let (lo, hi) = new_bounds node node' c leaf left hc in
    record {
      page = left.size ∙ leaf.page;
      room = omega (arith, left.num, leaf.room);
      bound = hi;
      cells = λ j h.
          let (p, b, ne) = origin-ptr node node' c j left hc h in
          let (_, s) = kept_cell node node' c j (origin c j) left b ne p in
          let low = low_bound node node' c (origin c j) leaf left hc b ne in
          (omega arith, omega (arith, (leaf.cells (origin c j) b).1));
      apart = λ j k lt h.
          let (pj, bj, nj) = origin-ptr node node' c j left hc (omega arith) in
          let (pk, bk, nk) = origin-ptr node node' c k left hc h in
          let (_, sj) = kept_cell node node' c j (origin c j) left bj nj pj in
          let (_, sk) = kept_cell node node' c k (origin c k) left bk nk pk in
          Off-same node node' j k (origin c j) (origin c k) pj sj pk sk
            (leaf.apart (origin c j) (origin c k) (origin-increases c j k lt) bk);
    }

Left-Removed :
    (node node' : Bytes) (c : ℕ)
    → IsLeaf node
    → Left node c node'
    → c < leaf_node_num_cells node
    → Removed node c node'
Left-Removed node node' c leaf left hc = record {
  is_leaf = Left-IsLeaf node node' c leaf left hc;
  num = left.num;
  before = λ j h. (kept_cell node node' c j j left (omega arith) (omega arith) (left.before j h)).0;
  behind = λ j h k. (kept_cell node node' c j (j + 1) left k (omega arith) (left.behind j h k)).0;
}

delete-runs :
    (node m₁ m₂ m₃ : Bytes) (c : ℕ)
    → c < leaf_node_num_cells node
    → leaf_node_deallocate_cell node c ≡ ok m₁
    → close_gap m₁ c (leaf_node_num_cells node) ≡ ok m₂
    → set_word m₂ 12 (leaf_node_num_cells node - 1) ≡ ok m₃
    → delete_in_leaf node c ≡ ok m₃
unfolding delete_in_leaf set_leaf_node_num_cells
delete-runs node m₁ m₂ m₃ c h e₁ e₂ e₃ = rw (leaf_node_key-reads node c h, e₁, e₂, e₃) refl

-- The deletion of a cell of a leaf returns a leaf with one cell less, in which the other cells are
-- unchanged and in their order.
pub delete_in_leaf-Removed :
    (node : Bytes) (c : ℕ)
    → IsLeaf node
    → FreeSpace node
    → c < leaf_node_num_cells node
    → (node' : Bytes) × (delete_in_leaf node c ≡ ok node') × Removed node c node'
delete_in_leaf-Removed node c leaf free hc =
    let (m₁, e₁, f) = deallocate-Freed node c leaf free hc in
    let n = leaf_node_num_cells node in
    let same : leaf_node_num_cells m₁ ≡ n =
      unfold leaf_node_num_cells get_word in ap from_bytes (f.quiet.front 12 16 (omega arith)) in
    let (m₂, e₂, cl) =
      close_gap-Closed m₁ c n same hc
        (omega (arith, f.quiet.size, leaf.page, leaf.room, leaf.bound)) in
    let (m₃, e₃, s) =
      set_word_ok m₂ 12 (n - 1) (omega (arith, leaf.room, leaf.bound))
        (omega (arith, cl.size, f.quiet.size, leaf.page)) in
    (
      m₃,
      delete-runs node m₁ m₂ m₃ c hc e₁ e₂ e₃,
      Left-Removed node m₃ c leaf (steps-Left node m₁ m₂ m₃ c leaf hc f cl s) hc,
    )
