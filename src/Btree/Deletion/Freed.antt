-- ===== src/Btree/Deletion/Freed.antt =====
-- What the deallocation of a cell of learndb/btree.py leaves of the other cells.
use learndb_py.Prelude.{
  ℕ, ◌+◌, ◌*◌, ◌≤◌, ◌<◌, ◌≡◌, ◌≢◌, ◌⊎◌, inl, inr, ap, ◌∙◌, arith, length, ◌==◌, ==_iff, Bool-cases,
  ok,
}
use native.Mathlib.Decide.{dec_lt}
use learndb_py.Bytes.Slices.{Bytes, slice, length-slice}
use learndb_py.Constants.{page_size}
use learndb_py.Serde.{get_cell_size}
use learndb_py.Btree.Words.{get_word, Set, Set-other, set_word_ok}
use learndb_py.Btree.Leaf.{
  leaf_node_num_cells, leaf_node_alloc_ptr, leaf_node_cellptr, leaf_node_cell, leaf_node_cell_size,
  leaf_node_free_list_head, leaf_node_total_free_list_space, set_leaf_node_alloc_ptr,
  set_leaf_node_free_list_head, set_leaf_node_total_free_list_space,
}
use learndb_py.Btree.Shape.{IsLeaf, Off}
use learndb_py.Btree.Deletion.{link_block, free_cell, leaf_node_deallocate_cell}

-- A change from `m` to `m'` that leaves the header before the allocation pointer, the cell pointers of
-- `node`, and its cells but that at `c`.
pub record Quiet (node : Bytes) (c : ℕ) (m m' : Bytes) : Type 0 where
  pub size : length m' ≡ length m
  pub front : (x y : ℕ) → y ≤ 16 → slice m' x y ≡ slice m x y
  pub pointers :
      (x y : ℕ) → 28 ≤ x → y ≤ 28 + 4 * leaf_node_num_cells node → slice m' x y ≡ slice m x y
  pub others :
      (j x y : ℕ)
      → j < leaf_node_num_cells node
      → j ≢ c
      → leaf_node_cellptr node j ≤ x
      → y ≤ leaf_node_cellptr node j + leaf_node_cell_size node j
      → slice m' x y ≡ slice m x y

Quiet-trans :
    (node : Bytes) (c : ℕ) (m₁ m₂ m₃ : Bytes)
    → Quiet node c m₁ m₂
    → Quiet node c m₂ m₃
    → Quiet node c m₁ m₃
Quiet-trans node c m₁ m₂ m₃ p q = record {
  size = q.size ∙ p.size;
  front = λ x y h. q.front x y h ∙ p.front x y h;
  pointers = λ x y h k. q.pointers x y h k ∙ p.pointers x y h k;
  others = λ j x y a b e f. q.others j x y a b e f ∙ p.others j x y a b e f;
}

-- A field of the header that is set: the allocation pointer or one behind it.
header-Quiet :
    (node : Bytes) (c o v : ℕ) (m m' : Bytes)
    → IsLeaf node
    → 16 ≤ o
    → o + 4 ≤ 28
    → Set m o v m'
    → Quiet node c m m'
header-Quiet node c o v m m' leaf p q s = record {
  size = s.size;
  front = λ x y h. s.below x y (omega arith);
  pointers = λ x y h k. s.above x y (omega arith);
  others = λ j x y a b e f. s.above x y (omega (arith, (leaf.cells j a).0, leaf.room));
}

pub Off-any :
    (node : Bytes) (c j : ℕ)
    → IsLeaf node
    → c < leaf_node_num_cells node
    → j < leaf_node_num_cells node
    → j ≢ c
    → Off node c j
Off-any node c j leaf hc hj ne = elim (dec_lt c j) [
  | yes p ↦ leaf.apart c j p hj
  | no p ↦ swap (leaf.apart j c (omega arith) hc)
]
  where
    swap : Off node j c → Off node c j
    swap (inl h) = inr h
    swap (inr h) = inl h

-- A word in the first eight bytes of the cell at `c`.
block-Quiet :
    (node : Bytes) (c o v : ℕ) (m m' : Bytes)
    → IsLeaf node
    → c < leaf_node_num_cells node
    → leaf_node_cellptr node c ≤ o
    → o + 4 ≤ leaf_node_cellptr node c + leaf_node_cell_size node c
    → Set m o v m'
    → Quiet node c m m'
block-Quiet node c o v m m' leaf hc p q s = record {
  size = s.size;
  front = λ x y h. s.below x y (omega (arith, (leaf.cells c hc).0, leaf.room));
  pointers = λ x y h k. s.below x y (omega (arith, (leaf.cells c hc).0, leaf.room));
  others = λ j x y a b e f. within j x y e f (Off-any node c j leaf hc a b);
}
  where
    within :
        (j x y : ℕ)
        → leaf_node_cellptr node j ≤ x
        → y ≤ leaf_node_cellptr node j + leaf_node_cell_size node j
        → Off node c j
        → slice m' x y ≡ slice m x y
    within j x y e f (inl h) = s.above x y (omega arith)
    within j x y e f (inr h) = s.below x y (omega arith)

pub size_big : (node : Bytes) (j : ℕ) → 8 ≤ leaf_node_cell_size node j
unfolding leaf_node_cell_size get_cell_size
size_big node j = omega arith

length-leaf_node_cell :
    (node : Bytes) (c : ℕ)
    → IsLeaf node
    → c < leaf_node_num_cells node
    → length (leaf_node_cell node c) ≡ leaf_node_cell_size node c
unfolding leaf_node_cell leaf_node_cell_size
length-leaf_node_cell node c leaf h =
    let p = leaf_node_cellptr node c in
    length-slice node p (p + get_cell_size node p) (omega (arith, (leaf.cells c h).1, leaf.page))
    ∙ omega arith

-- The two fields of the free list fit in a word.
pub record FreeSpace (node : Bytes) : Type 0 where
  pub head : leaf_node_free_list_head node < page_size
  pub total : leaf_node_total_free_list_space node ≤ page_size

-- The allocation pointer and the size of the free list, as before.
record Same (m m' : Bytes) : Type 0 where
  ptr : get_word m' 16 ≡ get_word m 16
  total : get_word m' 24 ≡ get_word m 24

link_block-Quiet :
    (node : Bytes) (c : ℕ) (m : Bytes)
    → IsLeaf node
    → c < leaf_node_num_cells node
    → length m ≡ page_size
    → get_word m 20 < page_size
    → (m' : Bytes) × (link_block m (leaf_node_cellptr node c) ≡ ok m')
      × Quiet node c m m'
      × Same m m'
unfolding link_block leaf_node_free_list_head set_leaf_node_free_list_head
link_block-Quiet node c m leaf hc l small =
    let p = leaf_node_cellptr node c in
    let (low, high) = leaf.cells c hc in
    let big = size_big node c in
    elim (Bool-cases (get_word m 20 == 0)) [
      | inl e ↦
          let (m₁, e₁, s₁) = set_word_ok m 20 p (omega arith) (omega arith) in
          let (m₂, e₂, s₂) = set_word_ok m₁ (p + 4) 0 (omega arith) (omega (arith, s₁.size)) in
          (
            m₂,
            rw (e, e₁) e₂,
            Quiet-trans node c m m₁ m₂
                (header-Quiet node c 20 p m m₁ leaf (omega arith) (omega arith) s₁)
                (block-Quiet node c (p + 4) 0 m₁ m₂ leaf hc (omega arith) (omega arith) s₂),
            record {
              ptr =
                  Set-other m₁ (p + 4) 0 m₂ 16 s₂ (inl (omega (arith, leaf.room)))
                  ∙ Set-other m 20 p m₁ 16 s₁ (inl (omega arith));
              total =
                  Set-other m₁ (p + 4) 0 m₂ 24 s₂ (inl (omega (arith, leaf.room)))
                  ∙ Set-other m 20 p m₁ 24 s₁ (inr (omega arith));
            },
          )
      | inr e ↦
          let head = get_word m 20 in
          let (m₁, e₁, s₁) = set_word_ok m (p + 4) head (omega arith) (omega arith) in
          let (m₂, e₂, s₂) = set_word_ok m₁ 20 p (omega arith) (omega (arith, s₁.size)) in
          (
            m₂,
            rw (e, e₁) e₂,
            Quiet-trans node c m m₁ m₂
                (block-Quiet node c (p + 4) head m m₁ leaf hc (omega arith) (omega arith) s₁)
                (header-Quiet node c 20 p m₁ m₂ leaf (omega arith) (omega arith) s₂),
            record {
              ptr =
                  Set-other m₁ 20 p m₂ 16 s₂ (inl (omega arith))
                  ∙ Set-other m (p + 4) head m₁ 16 s₁ (inl (omega (arith, leaf.room)));
              total =
                  Set-other m₁ 20 p m₂ 24 s₂ (inr (omega arith))
                  ∙ Set-other m (p + 4) head m₁ 24 s₁ (inl (omega (arith, leaf.room)));
            },
          )
    ]

-- What the deallocation of the cell at `c` leaves: the other cells, and an allocation pointer that is
-- unchanged, or that gave the cell back if it was at it.
pub record Freed (node : Bytes) (c : ℕ) (m : Bytes) : Type 0 where
  pub quiet : Quiet node c node m
  pub ptr :
      (leaf_node_alloc_ptr m ≡ leaf_node_alloc_ptr node)
      ⊎ ((leaf_node_cellptr node c ≡ leaf_node_alloc_ptr node)
          × (leaf_node_alloc_ptr m ≡ leaf_node_alloc_ptr node + leaf_node_cell_size node c))

free_cell-Freed :
    (node : Bytes) (c : ℕ)
    → IsLeaf node
    → FreeSpace node
    → c < leaf_node_num_cells node
    → (m : Bytes) × (free_cell node (leaf_node_cellptr node c) (leaf_node_cell node c) ≡ ok m)
      × Freed node c m
unfolding free_cell leaf_node_free_list_head leaf_node_total_free_list_space
    set_leaf_node_total_free_list_space leaf_node_alloc_ptr
free_cell-Freed node c leaf free hc =
    let p = leaf_node_cellptr node c in
    let len = length (leaf_node_cell node c) in
    let (low, high) = leaf.cells c hc in
    let big = size_big node c in
    let ll = length-leaf_node_cell node c leaf hc in
    let (m₁, e₁, s₁) = set_word_ok node (p + 0) len (omega arith) (omega (arith, leaf.page)) in
    let same₁ : (o : ℕ) → o + 4 ≤ 28 → get_word m₁ o ≡ get_word node o =
      λ o h. Set-other node (p + 0) len m₁ o s₁ (inl (omega (arith, leaf.room))) in
    let (m₂, e₂, q₂, k) =
      link_block-Quiet node c m₁ leaf hc (s₁.size ∙ leaf.page)
        (omega (arith, same₁ 20 (omega arith), free.head)) in
    let (m₃, e₃, s₃) =
      set_word_ok m₂ 24 (get_word m₂ 24 + len)
        (omega (arith, k.total, same₁ 24 (omega arith), free.total))
        (omega (arith, q₂.size, s₁.size, leaf.page)) in
    (
      m₃,
      rw (e₁, e₂) e₃,
      record {
        quiet =
            Quiet-trans node c node m₁ m₃
              (block-Quiet node c (p + 0) len node m₁ leaf hc (omega arith) (omega arith) s₁)
              (Quiet-trans node c m₁ m₂ m₃ q₂
                (header-Quiet node c 24 _ m₂ m₃ leaf (omega arith) (omega arith) s₃));
        ptr = inl (Set-other m₂ 24 _ m₃ 16 s₃ (inl (omega arith)) ∙ k.ptr ∙ same₁ 16 (omega arith));
      },
    )

pub deallocate-Freed :
    (node : Bytes) (c : ℕ)
    → IsLeaf node
    → FreeSpace node
    → c < leaf_node_num_cells node
    → (m : Bytes) × (leaf_node_deallocate_cell node c ≡ ok m) × Freed node c m
unfolding leaf_node_deallocate_cell set_leaf_node_alloc_ptr
deallocate-Freed node c leaf free hc =
    elim (Bool-cases (leaf_node_cellptr node c == leaf_node_alloc_ptr node)) [
      | inr e ↦
          let (m, r, f) = free_cell-Freed node c leaf free hc in
          (m, rw (e, leaf_node_deallocate_cell) r, f)
      | inl e ↦
          let ll = length-leaf_node_cell node c leaf hc in
          let at : leaf_node_cellptr node c ≡ leaf_node_alloc_ptr node = (==_iff _ _).0 e in
          let v = leaf_node_alloc_ptr node + length (leaf_node_cell node c) in
          let (m, r, s) =
            set_word_ok node 16 v (omega (arith, (leaf.cells c hc).1)) (omega (arith, leaf.page)) in
          (
            m,
            rw (e, leaf_node_deallocate_cell) r,
            record {
              quiet = header-Quiet node c 16 v node m leaf (omega arith) (omega arith) s;
              ptr = inr (
                at,
                unfold leaf_node_alloc_ptr in
                    s.here ∙ ap (λ (x : ℕ). leaf_node_alloc_ptr node + x) ll,
              );
            },
          )
    ]
