-- ===== src/Cursor/Increase.antt =====
-- The order of the keys that a cursor of learndb/cursor.py runs over.
use learndb_py.Prelude.{
  ℕ, zero, suc, ◌+◌, ◌≤◌, ◌<◌, ◌≡◌, true, refl, arith, inl, inr, [], ◌∷◌, ◌++◌, ok,
}
use learndb_py.Bytes.Slices.{Bytes}
use learndb_py.Pager.{Pager}
use learndb_py.Btree.Node.{is_node_root}
use learndb_py.Btree.Internal.{internal_node_num_keys, internal_node_key}
use learndb_py.Btree.Leaf.{leaf_node_num_cells}
use learndb_py.Btree.Search.Position.{cell_key}
use learndb_py.Btree.Search.Descent.{LeafPage}
use learndb_py.Cursor.{Cursor, open_cursor}
use learndb_py.Cursor.Order.{
  Entries, Ordered, Children, leaf, internal, no_child, child, entries_from, cells_of, low_at,
}
use learndb_py.Cursor.Entries.{Has}
use learndb_py.Cursor.Bounds.{
  Ordered-Bounded, Children-Bounded, keys_before, Ordered-low, low_below,
}
use learndb_py.Cursor.Traversal.{Visits, open_cursor-Visits}

-- The keys increase, from a bound on.
abbrev pub Rising : ℕ → Entries → Type 0
Rising low [] = Unit
Rising low ((key, cell) ∷ es) = (low ≤ key) × Rising (suc key) es

from_higher : (low bound : ℕ) (es : Entries) → low ≤ bound → Rising bound es → Rising low es
from_higher low bound [] h r = tt
from_higher low bound ((key, cell) ∷ es) h (first, r) = (omega (arith, h, first), r)

one_then :
    (low bound : ℕ) (es fs : Entries)
    → low ≤ bound
    → Rising low es
    → ((key : ℕ) (cell : Bytes) → Has key cell es → key < bound)
    → Rising bound fs
    → Rising low (es ++ fs)
one_then low bound [] fs h r below q = from_higher low bound fs h q
one_then low bound ((key, cell) ∷ es) fs h (first, r) below q = (
  first,
  one_then (suc key) bound es fs (omega (arith, below key cell (inl refl))) r
      (λ k c has. below k c (inr has)) q,
)

module _ (p : Pager) where
  leaf_rises :
      (n low left j : ℕ) (node : Bytes)
      → LeafPage p n node
      → j + suc left ≡ leaf_node_num_cells node
      → low ≤ cell_key node j
      → Rising low (entries_from node (suc left) j)
  leaf_rises n low zero j node l e h = (h, tt)
  leaf_rises n low (suc left) j node l e h = (
    h,
    leaf_rises n (suc (cell_key node j)) left (suc j) node l (omega (arith, e))
        (omega (arith, l.increasing j (suc j) (omega arith) (omega (arith, e)))),
  )

  abbrev Rises : ℕ → Type 0
  Rises h =
      (node : Bytes) (n low max : ℕ) (es : Entries) → Ordered p h n node low max es → Rising low es

  siblings_rise :
      (h i n low max : ℕ) (node : Bytes) (es : Entries)
      → Rises h
      → Children p h n node low max i es
      → Rising (low_at node low i) es
  siblings_rise h i n low max node es rises (no_child e) = tt
  siblings_rise h i n low max node es rises
        (child {key = key} {below = below} {es = here} {rest = rest} k link t le less cs) =
      one_then (low_at node low i) (suc (internal_node_key node i)) here rest
        (omega (arith, le, Ordered-low p h below _ _ key here t)) (rises below _ _ key here t)
        (λ q cell has. omega (arith, le, (Ordered-Bounded p h below _ _ key here q cell t has).1))
        (siblings_rise h (suc i) n low max node rest rises cs)

  Ordered-Rising : (h : ℕ) → Rises h
  Ordered-Rising zero node n low max es t = elim t [ ]
  Ordered-Rising (suc zero) node n low max es (leaf {k = k} l e b) =
      leaf_rises n low k 0 node l (omega (arith, e)) b
  Ordered-Rising (suc h) node n low max es
        (internal {right = right} {es = inner} {right_es = outer} page few cs link t) =
      one_then low (low_at node low (internal_node_num_keys node)) inner outer
        (low_below p h 0 node n low max inner (Ordered-low p h) cs)
        (siblings_rise h 0 n low max node inner (Ordered-Rising h) cs)
        (λ key cell has.
          let (_, _, (j, k, most)) =
            Children-Bounded p h 0 n low max node inner key cell (Ordered-Bounded p h) cs has in
          omega (
            arith,
            most,
            keys_before p n low (internal_node_num_keys node) j node page k (omega arith),
          ))
        (Ordered-Rising h right _ _ max outer t)

  -- A new cursor on a tree whose root is marked as such gives the cells of the tree in the order of their
  -- keys, which increase, and then ends: from leaf to leaf it finds its way up through the keys and down
  -- again. The height of the tree is enough fuel, and the pager stays as it is.
  pub open_cursor-Rising :
      (height root low max : ℕ) (node : Bytes) (es : Entries)
      → Ordered p height root node low max es
      → is_node_root node ≡ true
      → (c : Cursor) × (open_cursor height p root ≡ ok (c, p))
        × Visits p height c (cells_of es)
        × Rising low es
  open_cursor-Rising height root low max node es t top =
      let (c, opens, visits) = open_cursor-Visits p height root low max node es t top in
      (c, opens, visits, Ordered-Rising height node root low max es t)
