-- ===== src/Cursor/Bounds.antt =====
-- The bounds on the keys of a tree that a cursor runs over.
use learndb_py.Prelude.{ℕ, zero, suc, ◌≤◌, ◌<◌, ◌≡◌, ap, subst, arith, inl, inr}
use native.Mathlib.Decide.{dec_lt}
use learndb_py.Bytes.Slices.{Bytes}
use learndb_py.Pager.{Pager}
use learndb_py.Btree.Internal.{internal_node_num_keys, internal_node_key, internal_node_child}
use learndb_py.Btree.Leaf.{leaf_node_num_cells}
use learndb_py.Btree.Search.Position.{cell_key}
use learndb_py.Btree.Search.Descent.{LeafPage, InternalPage}
use learndb_py.Cursor.Entries.{Has, Has-append, Has-left, Has-right, Has-position}
use learndb_py.Cursor.Order.{Entries, Ordered, Children, leaf, internal, no_child, child, low_at}

pub keys_grow :
    (p : Pager) (n a b : ℕ) (node : Bytes)
    → LeafPage p n node
    → a ≤ b
    → b < leaf_node_num_cells node
    → cell_key node a ≤ cell_key node b
keys_grow p n a b node l h k = elim (dec_lt a b) [
  | yes q ↦ omega (arith, l.increasing a b q k)
  | no q ↦ let same : a ≡ b = omega (arith, h, q) in omega (arith, ap (cell_key node) same)
]

module _ (p : Pager) where
  abbrev Lows : ℕ → Type 0
  Lows h = (node : Bytes) (n low max : ℕ) (es : Entries) → Ordered p h n node low max es → low ≤ max

  pub low_below :
      (h i : ℕ) (node : Bytes) (n low max : ℕ) (es : Entries)
      → Lows h
      → Children p h n node low max i es
      → low_at node low i ≤ low_at node low (internal_node_num_keys node)
  low_below h i node n low max es lows (no_child e) = omega (arith, ap (low_at node low) e)
  low_below h i node n low max es lows
        (child {key = key} {below = below} {es = here} {rest = rest} k link t le lt cs) =
      let a : low_at node low i ≤ key =
        lows below (internal_node_child node i) (low_at node low i) key here t in
      omega (arith, a, le, low_below h (suc i) node n low max rest lows cs)

  pub Ordered-low : (h : ℕ) → Lows h
  Ordered-low zero node n low max es t = elim t [ ]
  Ordered-low (suc zero) node n low max es (leaf {k = k} l e b) =
      omega (arith, b, keys_grow p n 0 k node l (omega arith) (omega (arith, e)))
  Ordered-low (suc h) node n low max es
        (internal {right = right} {es = inner} {right_es = outer} page few cs link t) =
      omega (
        arith,
        low_below h 0 node n low max inner (Ordered-low h) cs,
        Ordered-low h right _ _ max outer t,
      )

  -- The bound at a position is above the keys before it.
  pub keys_before :
      (n low i j : ℕ) (node : Bytes)
      → InternalPage p n node
      → j < i
      → i ≤ internal_node_num_keys node
      → suc (internal_node_key node j) ≤ low_at node low i
  keys_before n low zero j node page h k = absurd (omega (arith, h))
  keys_before n low (suc i) j node page h k = elim (dec_lt j i) [
    | yes q ↦ omega (arith, page.increasing j i q (omega (arith, k)))
    | no q ↦
        let same : j ≡ i = omega (arith, h, q) in omega (arith, ap (internal_node_key node) same)
  ]

  abbrev Bounded : ℕ → Type 0
  Bounded h =
      (node : Bytes) (n low max : ℕ) (es : Entries) (key : ℕ) (cell : Bytes)
      → Ordered p h n node low max es
      → Has key cell es
      → (low ≤ key) × (key ≤ max)

  -- An entry below the children from a position on: its bounds, and the child whose key it is at most.
  pub Children-Bounded :
      (h i n low max : ℕ) (node : Bytes) (es : Entries) (key : ℕ) (cell : Bytes)
      → Bounded h
      → Children p h n node low max i es
      → Has key cell es
      → (low_at node low i ≤ key)
        × (key < max)
        × ((j : ℕ) × (j < internal_node_num_keys node) × (key ≤ internal_node_key node j))
  Children-Bounded h i n low max node es key cell bounded (no_child e) has = absurd has
  Children-Bounded h i n low max node es key cell bounded
        (child {key = greatest} {below = below} {es = here} {rest = rest} k link t le less cs) has =
      elim (Has-append key cell here rest has) [
        | inl a ↦
            let (lower, upper) = bounded below _ _ greatest here key cell t a in
            (lower, omega (arith, upper, less), (i, k, omega (arith, upper, le)))
        | inr b ↦
            let (lower, upper, there) =
              Children-Bounded h (suc i) n low max node rest key cell bounded cs b in
            (omega (arith, lower, le, Ordered-low h below _ _ greatest here t), upper, there)
      ]

  -- The keys of a tree are within its bounds.
  pub Ordered-Bounded : (h : ℕ) → Bounded h
  Ordered-Bounded zero node n low max es key cell t has = elim t [ ]
  Ordered-Bounded (suc zero) node n low max es key cell (leaf {k = k} l e b) has =
      let (i, _, high, same, _) = Has-position node key cell (suc k) 0 has in
      (
        omega (arith, b, same, keys_grow p n 0 i node l (omega arith) (omega (arith, e, high))),
        omega (arith, same, keys_grow p n i k node l (omega (arith, high)) (omega (arith, e))),
      )
  Ordered-Bounded (suc h) node n low max es key cell
        (internal {right = right} {es = inner} {right_es = outer} page few cs link t) has =
      elim (Has-append key cell inner outer has) [
        | inl a ↦
            let (lower, upper, _) =
              Children-Bounded h 0 n low max node inner key cell (Ordered-Bounded h) cs a in
            (lower, omega (arith, upper))
        | inr b ↦
            let (lower, upper) = Ordered-Bounded h right _ _ max outer key cell t b in
            (omega (arith, lower, low_below h 0 node n low max inner (Ordered-low h) cs), upper)
      ]

  -- The child that has all the entries with a key, where the key is greater than those before the child's.
  pub entries_of_child :
      (h i n low max at key : ℕ) (node : Bytes) (es : Entries)
      → Children p h n node low max i es
      → i ≤ at
      → at < internal_node_num_keys node
      → ((j : ℕ) → j < at → internal_node_key node j < key)
      → key ≤ internal_node_key node at
      → (below : Bytes) × (greatest : ℕ) × (here : Entries) × Ordered p h
          (internal_node_child node at)
          below
          (low_at node low at)
          greatest
          here
        × ((cell : Bytes) → Has key cell es → Has key cell here)
        × ((cell : Bytes) → Has key cell here → Has key cell es)
  entries_of_child h i n low max at key node es (no_child e) from_i before smaller le' =
      absurd (omega (arith, e, from_i, before))
  entries_of_child h i n low max at key node es
        (child {key = greatest} {below = below} {es = here} {rest = rest} k link t le less cs)
        from_i before smaller le' =
      elim (dec_lt i at) [
        | yes q ↦
            let (deep, great, there, tree, to, from) =
              entries_of_child h (suc i) n low max at key node rest cs (omega (arith, q)) before
                smaller le' in
            (
              deep,
              great,
              there,
              tree,
              (λ cell has. elim (Has-append key cell here rest has) [
                | inl a ↦ absurd (
                    omega (
                      arith,
                      smaller i q,
                      le,
                      (Ordered-Bounded h below _ _ greatest here key cell t a).1,
                    ))
                | inr b ↦ to cell b
              ]),
              λ cell has. Has-right key cell here rest (from cell has),
            )
        | no q ↦
            let same : i ≡ at = omega (arith, from_i, q) in
            (
              below,
              greatest,
              here,
              subst
                  (λ (x : ℕ).
                    Ordered p h (internal_node_child node x) below (low_at node low x) greatest
                      here)
                  same t,
              (λ cell has. elim (Has-append key cell here rest has) [
                | inl a ↦ a
                | inr b ↦ absurd (
                    omega (
                      arith,
                      le',
                      ap (internal_node_key node) same,
                      (Children-Bounded h (suc i) n low max node rest key cell (Ordered-Bounded h)
                          cs b).0,
                    ))
              ]),
              λ cell has. Has-left key cell here rest has,
            )
      ]
