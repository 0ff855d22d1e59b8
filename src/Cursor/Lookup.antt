-- ===== src/Cursor/Lookup.antt =====
-- What the search of learndb/btree.py finds in the trees that a cursor runs over.
use learndb_py.Prelude.{
  ℕ, zero, suc, ◌≤◌, ◌<◌, ◌≡◌, refl, ap, ◌∙◌, subst, arith, ltb, Bool-cases, inl, inr, some, ◌++◌,
  ok,
}
use native.Mathlib.Decide.{dec_lt}
use learndb_py.Bytes.Slices.{Bytes}
use learndb_py.Constants.InternalNode
use learndb_py.Pager.{Pager, get_page}
use learndb_py.Btree.Internal.{
  internal_node_num_keys, internal_node_key, internal_node_child, internal_node_right_child,
}
use learndb_py.Btree.Leaf.{leaf_node_num_cells, leaf_node_cell}
use learndb_py.Btree.Search.{find, get_node_max_key, leaf_node_find, internal_node_find, child_at}
use learndb_py.Btree.Search.Halving.{Position}
use learndb_py.Btree.Search.Position.{cell_key, find_in_leaf-Position, find_in_internal-child_at}
use learndb_py.Btree.Search.Descent.{LeafPage, InternalPage, get_page-there, find-step}
use learndb_py.Cursor.Order.{
  Entries, Ordered, Children, leaf, internal, entries_from, low_at, get_node_max_key-max,
}
use learndb_py.Cursor.Entries.{Has, Has-append, Has-left, Has-right, Has-position, position-Has}
use learndb_py.Cursor.Bounds.{
  Ordered-low, keys_before, Ordered-Bounded, Children-Bounded, entries_of_child,
}

module _ (p : Pager) where
  -- A place in a leaf is where the entries with a key are, if there are any.
  pub record Found (es : Entries) (key page c : ℕ) : Type 0 where
    pub node : Bytes
    pub read : get_page p page ≡ ok (node, p)
    pub there :
        (cell : Bytes)
        → Has key cell es
        → (c < leaf_node_num_cells node) × (cell_key node c ≡ key) × (leaf_node_cell node c ≡ cell)
    pub only :
        c < leaf_node_num_cells node → cell_key node c ≡ key → Has key (leaf_node_cell node c) es

  -- The place is that for more entries, where none of the others has the key.
  Found-more :
      (es fs : Entries) (key page c : ℕ)
      → ((cell : Bytes) → Has key cell fs → Has key cell es)
      → ((cell : Bytes) → Has key cell es → Has key cell fs)
      → Found es key page c
      → Found fs key page c
  Found-more es fs key page c to from d = record {
    node = d.node;
    read = d.read;
    there = λ cell has. d.there cell (to cell has);
    only = λ k e. from (leaf_node_cell d.node c) (d.only k e);
  }

  one_place :
      (n key c i : ℕ) (node : Bytes)
      → LeafPage p n node
      → Position (cell_key node) (leaf_node_num_cells node) key c
      → i < leaf_node_num_cells node
      → cell_key node i ≡ key
      → c ≡ i
  one_place n key c i node l pos k e = elim (dec_lt c i) [
    | yes q ↦ absurd (
        omega
          (arith, e, l.increasing c i q k, pos.not_smaller c (omega arith) (omega (arith, q, k))))
    | no q ↦ elim (dec_lt i c) [
      | yes r ↦ absurd (omega (arith, e, pos.smaller i r))
      | no r ↦ omega (arith, q, r)
    ]
  ]

  find_leaf :
      (n k key : ℕ) (node : Bytes)
      → LeafPage p n node
      → leaf_node_num_cells node ≡ suc k
      → (c : ℕ) × (find 1 p key n ≡ ok ((n, c), p)) × Found (entries_from node (suc k) 0) key n c
  unfolding find leaf_node_find
  find_leaf n k key node l e =
      let g : get_page p n ≡ ok (node, p) = get_page-there p n node l.page in
      let (c, runs, pos) = find_in_leaf-Position node key l.increasing in
      let there : (cell : Bytes)
          → Has key cell (entries_from node (suc k) 0)
          → (c < leaf_node_num_cells node)
            × (cell_key node c ≡ key)
            × (leaf_node_cell node c ≡ cell) =
        λ cell has.
          let (i, _, high, same, is_cell) = Has-position node key cell (suc k) 0 has in
          let within : i < leaf_node_num_cells node = omega (arith, e, high) in
          let at : c ≡ i = one_place n key c i node l pos within same in
          (
            omega (arith, at, within),
            ap (cell_key node) at ∙ same,
            ap (leaf_node_cell node) at ∙ is_cell,
          ) in
      (
        c,
        rw (g, l.type, g, runs) refl,
        record {
          node = node;
          read = g;
          there = there;
          only = λ within same.
              subst (λ (x : ℕ). Has x (leaf_node_cell node c) (entries_from node (suc k) 0)) same
                (position-Has node (suc k) 0 c (omega arith) (omega (arith, e, within)));
        },
      )

  abbrev Finds : ℕ → Type 0
  Finds h =
      (node : Bytes) (n low max key : ℕ) (es : Entries)
      → Ordered p h n node low max es
      → (page : ℕ) × (c : ℕ) × (find h p key n ≡ ok ((page, c), p)) × Found es key page c

  -- The way down from an internal node.
  find_child :
      (h n low max key : ℕ) (node right : Bytes) (es right_es : Entries)
      → InternalPage p n node
      → internal_node_num_keys node ≤ InternalNode.max_cells
      → get_node_max_key (suc h) p node ≡ ok (some max, p)
      → Children p h n node low max 0 es
      → Ordered p h
          (internal_node_right_child node)
          right
          (low_at node low (internal_node_num_keys node))
          max
          right_es
      → Finds h
      → (page : ℕ) × (c : ℕ) × (find (suc h) p key n ≡ ok ((page, c), p))
        × Found (es ++ right_es) key page c
  unfolding internal_node_find
  find_child h n low max key node right es right_es page few m cs t finds =
      let num = internal_node_num_keys node in
      let g : get_page p n ≡ ok (node, p) = get_page-there p n node page.page in
      let below_max : (i : ℕ) → i < num → internal_node_key node i < max = λ i k. omega (
        arith,
        keys_before p n low num i node page k (omega arith),
        Ordered-low p h right _ _ max right_es t,
      ) in
      let (at, c, runs, pos, way) =
        find_in_internal-child_at node max key page.increasing below_max few in
      let goes : internal_node_find (suc h) p n key ≡ ok (c, p) = rw (g, m, runs) refl in
      elim (Bool-cases (ltb at num)) [
        | inl e ↦
            let inside : at < num = ground (arith, e) in
            let (below, greatest, here, tree, to, from) =
              entries_of_child p h 0 n low max at key node es cs (omega arith) inside pos.smaller
                (pos.not_smaller at (omega arith) inside) in
            let (leaf_page, d, ends, found) = finds below _ _ greatest key here tree in
            let same : child_at node c ≡ internal_node_child node at = way ∙ rw e refl in
            (
              leaf_page,
              d,
              find-step p h n key c node ((leaf_page, d), p) page goes (rw same ends),
              Found-more here (es ++ right_es) key leaf_page d
                  (λ cell has. elim (Has-append key cell es right_es has) [
                    | inl a ↦ to cell a
                    | inr b ↦ absurd (
                        omega (
                          arith,
                          (Ordered-Bounded p h right _ _ max right_es key cell t b).0,
                          keys_before p n low num at node page inside (omega arith),
                          pos.not_smaller at (omega arith) inside,
                        ))
                  ])
                  (λ cell has. Has-left key cell es right_es (from cell has)) found,
            )
        | inr e ↦
            let (leaf_page, d, ends, found) = finds right _ _ max key right_es t in
            let same : child_at node c ≡ internal_node_right_child node = way ∙ rw e refl in
            let outside : num ≤ at = ground (arith, e) in
            (
              leaf_page,
              d,
              find-step p h n key c node ((leaf_page, d), p) page goes (rw same ends),
              Found-more right_es (es ++ right_es) key leaf_page d
                  (λ cell has. elim (Has-append key cell es right_es has) [
                    | inl a ↦
                        let (_, _, (j, within, most)) =
                          Children-Bounded p h 0 n low max node es key cell (Ordered-Bounded p h) cs
                            a in
                        absurd (omega (arith, most, pos.smaller j (omega (arith, within, outside))))
                    | inr b ↦ b
                  ])
                  (λ cell has. Has-right key cell es right_es has) found,
            )
      ]

  -- In a tree of any height, `find` returns with a place in a leaf: if the cursor's cells have one with the
  -- key, it is the cell at this place, and if the cell at this place has the key, it is one of the cursor's.
  -- The height of the tree is enough fuel, and the pager stays as it is.
  pub find-Found :
      (h : ℕ) (node : Bytes) (n low max key : ℕ) (es : Entries)
      → Ordered p h n node low max es
      → (page : ℕ) × (c : ℕ) × (find h p key n ≡ ok ((page, c), p)) × Found es key page c
  find-Found zero node n low max key es t = elim t [ ]
  find-Found (suc zero) node n low max key es (leaf {k = k} l e b) =
      let (c, runs, found) = find_leaf n k key node l e in (n, c, runs, found)
  find-Found (suc h) node n low max key es
        (internal {right = right} {es = inner} {right_es = outer} page few cs link t) =
      find_child h n low max key node right inner outer page few
        (get_node_max_key-max (suc h) (omega arith) (internal page few cs link t)) cs t
        (find-Found h)
