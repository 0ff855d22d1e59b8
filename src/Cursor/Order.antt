-- ===== src/Cursor/Order.antt =====
-- The trees that a cursor of learndb/cursor.py runs over: nodes in the cache, whose keys tell the children
-- apart, and whose parent pointers lead back.
use learndb_py.Prelude.{
  ℕ, zero, suc, ◌-◌, ◌≤◌, ◌<◌, ◌≡◌, refl, ap, ◌∙◌, arith, ◌==◌, leb, true, false, Bool-cases, inl,
  inr, some, List, [], ◌∷◌, ◌++◌, ok,
}
use learndb_py.Bytes.Slices.{Bytes}
use learndb_py.Constants.InternalNode
use learndb_py.Pager.{Pager, get_page}
use learndb_py.Btree.Node.{is_node_root, get_parent_page_num}
use learndb_py.Btree.Internal.{
  internal_node_num_keys, internal_node_key, internal_node_child, internal_node_right_child,
}
use learndb_py.Btree.Leaf.{leaf_node_num_cells, leaf_node_cell}
use learndb_py.Btree.Search.{get_node_max_key, find_in_internal}
use learndb_py.Btree.Search.Halving.{loop-Position}
use learndb_py.Btree.Search.Position.{cell_key, leaf_node_key-reads}
use learndb_py.Btree.Search.Descent.{Page, LeafPage, InternalPage, get_page-there}

-- The keys of cells, with the cells.
abbrev pub Entries : Type 0
Entries = List (ℕ × Bytes)

unfoldable pub cells_of : Entries → List Bytes
cells_of [] = []
cells_of ((key, cell) ∷ es) = cell ∷ cells_of es

pub cells_of-append : (es fs : Entries) → cells_of (es ++ fs) ≡ cells_of es ++ cells_of fs
unfolding cells_of
cells_of-append [] fs = refl
cells_of-append ((key, cell) ∷ es) fs = ap (λ (cs : List Bytes). cell ∷ cs) (cells_of-append es fs)

-- The entries of a leaf from a position on.
abbrev pub entries_from : Bytes → ℕ → ℕ → Entries
entries_from node zero j = []
entries_from node (suc left) j =
    (cell_key node j, leaf_node_cell node j) ∷ entries_from node left (suc j)

-- A node that is not the root and knows its parent.
pub record Child (node : Bytes) (parent : ℕ) : Type 0 where
  pub inner : is_node_root node ≡ false
  pub parent_page : get_parent_page_num node ≡ parent

-- The least key that may stand below the child at a position, by that of the node.
abbrev pub low_at : Bytes → ℕ → ℕ → ℕ
low_at node low zero = low
low_at node low (suc i) = suc (internal_node_key node i)

-- A tree of a height below a page: the content of the page, a bound that no key is below, the greatest key,
-- and the entries in order. The keys below a child are at most the child's key in the node, and greater than
-- the one before it.
mutual
  pub data Ordered (p : Pager) : ℕ → ℕ → Bytes → ℕ → ℕ → Entries → Type 0 where
    leaf :
        {n k low : ℕ} {node : Bytes}
        → LeafPage p n node
        → leaf_node_num_cells node ≡ suc k
        → low ≤ cell_key node 0
        → Ordered p 1 n node low (cell_key node k) (entries_from node (suc k) 0)
    internal :
        {h n low max : ℕ} {node right : Bytes} {es right_es : Entries}
        → InternalPage p n node
        → internal_node_num_keys node ≤ InternalNode.max_cells
        → Children p h n node low max 0 es
        → Child right n
        → Ordered p h
            (internal_node_right_child node)
            right
            (low_at node low (internal_node_num_keys node))
            max
            right_es
        → Ordered p (suc h) n node low max (es ++ right_es)

  -- The children of an internal node from a position on.
  pub data Children (p : Pager) : ℕ → ℕ → Bytes → ℕ → ℕ → ℕ → Entries → Type 0 where
    no_child :
        {h n low max i : ℕ} {node : Bytes}
        → internal_node_num_keys node ≡ i
        → Children p h n node low max i []
    child :
        {h n low max i key : ℕ} {node below : Bytes} {es rest : Entries}
        → i < internal_node_num_keys node
        → Child below n
        → Ordered p h (internal_node_child node i) below (low_at node low i) key es
        → key ≤ internal_node_key node i
        → key < max
        → Children p h n node low max (suc i) rest
        → Children p h n node low max i (es ++ rest)

Ordered-Page :
    {p : Pager} {node : Bytes} {h n low max : ℕ} {es : Entries}
    → Ordered p h n node low max es
    → Page p n node
Ordered-Page (leaf l e b) = l.page
Ordered-Page (internal i few cs c t) = i.page

pub Ordered-read :
    {p : Pager} {node : Bytes} {h n low max : ℕ} {es : Entries}
    → Ordered p h n node low max es
    → get_page p n ≡ ok (node, p)
Ordered-read {p} {node} {h} {n} t = get_page-there p n node (Ordered-Page t)

leaf_max :
    (H : ℕ) (p : Pager) (n k : ℕ) (node : Bytes)
    → LeafPage p n node
    → leaf_node_num_cells node ≡ suc k
    → get_node_max_key (suc H) p node ≡ ok (some (cell_key node k), p)
unfolding get_node_max_key
leaf_max H p n k node l e =
    let some_cell : (leaf_node_num_cells node == 0) ≡ false = ground (arith, e) in
    let last : leaf_node_num_cells node - 1 ≡ k = omega (arith, e) in
    rw (l.type) (rw some_cell (rw last (rw (leaf_node_key-reads node k (omega (arith, e))) refl)))

-- The greatest key below a node is read from the rightmost leaf.
pub get_node_max_key-max :
    {p : Pager} (H : ℕ) {node : Bytes} {h n low max : ℕ} {es : Entries}
    → h ≤ H
    → Ordered p h n node low max es
    → get_node_max_key H p node ≡ ok (some max, p)
unfolding get_node_max_key
get_node_max_key-max {p} zero g (leaf l e b) = absurd (omega (arith, g))
get_node_max_key-max {p} zero g (internal i few cs c t) = absurd (omega (arith, g))
get_node_max_key-max {p} (suc H) {node} {n = n} g (leaf {k = k} l e b) = leaf_max H p n k node l e
get_node_max_key-max {p} (suc H) g (internal {right = right} i few cs c t) =
    rw (i.type) (rw (i.right) (rw (Ordered-read t) (get_node_max_key-max H (omega (arith, g)) t)))

-- The greatest key below a child leads to the child.
pub find_in_internal-child :
    (p : Pager) (n max i key : ℕ) (node : Bytes)
    → InternalPage p n node
    → i < internal_node_num_keys node
    → key ≤ internal_node_key node i
    → ((j : ℕ) → j < i → internal_node_key node j < key)
    → key < max
    → find_in_internal node (some max) key ≡ ok i
unfolding find_in_internal
find_in_internal-child p n max i key node page k le lower below =
    let num = internal_node_num_keys node in
    let keys = internal_node_key node in
    let (c, runs, pos) =
      loop-Position (λ j. ok (keys j)) keys num (λ j h. refl) page.increasing num key 0 num
        (omega arith) (omega arith) (omega arith) (λ j q. absurd (omega arith))
        (λ j q r. absurd (omega arith)) in
    let same : c ≡ i = elim (Bool-cases (leb c i)) [
      | inl e ↦ elim (Bool-cases (leb i c)) [
        | inl e' ↦ ground (arith, e, e')
        | inr e' ↦ absurd (
            omega (
              arith,
              lower c (ground (arith, e')),
              pos.not_smaller c (omega arith) (ground (arith, e')),
            ))
      ]
      | inr e ↦ absurd (omega (arith, le, pos.smaller i (ground (arith, e))))
    ] in
    let less : leb max key ≡ false = ground (arith, below) in
    let some_key : (num == 0) ≡ false = ground (arith, k) in
    rw less (rw some_key (runs ∙ ap ok same))

-- The greatest key of the node itself leads to the right child.
pub find_in_internal-right :
    (node : Bytes) (max : ℕ) → find_in_internal node (some max) max ≡ ok InternalNode.max_cells
unfolding find_in_internal
find_in_internal-right node max = let all : leb max max ≡ true = ground arith in rw all refl
