-- ===== src/Cursor/Traversal.antt =====
-- What a cursor of learndb/cursor.py runs over: the cells of its tree, in order.
use learndb_py.Prelude.{
  ℕ, zero, suc, ◌+◌, ◌≤◌, ◌<◌, ◌≡◌, refl, sym, subst, arith, ◌==◌, leb, true, false, Bool-cases,
  inl, inr, some, List, [], ◌∷◌, ◌++◌, append_assoc, append-nil, ok, if◌then◌else◌,
}
use learndb_py.Bytes.Slices.{Bytes}
use learndb_py.Constants.InternalNode
use learndb_py.Pager.{Pager, get_page}
use learndb_py.Btree.Node.{is_node_root}
use learndb_py.Btree.Internal.{
  internal_node_key, internal_node_num_keys, internal_node_child, internal_node_right_child,
}
use learndb_py.Btree.Leaf.{leaf_node_num_cells}
use learndb_py.Btree.Search.{get_node_max_key, internal_node_find, find_in_internal}
use learndb_py.Btree.Search.Descent.{LeafPage, InternalPage, get_page-there}
use learndb_py.Cursor.{
  Cursor, open_cursor, first_leaf, first_child, get_cell, next_leaf, next_child, advance,
}
use learndb_py.Cursor.Bounds.{Ordered-low, keys_before}
use learndb_py.Cursor.Order.{
  Ordered, Children, Child, leaf, internal, no_child, child, entries_from, Entries, cells_of,
  cells_of-append, low_at, Ordered-read, get_node_max_key-max, find_in_internal-child,
  find_in_internal-right,
}

cells_of-both :
    (es fs : Entries) (rest : List Bytes)
    → cells_of (es ++ fs) ++ rest ≡ cells_of es ++ (cells_of fs ++ rest)
cells_of-both es fs rest =
    rw (cells_of-append es fs) (append_assoc (cells_of es) (cells_of fs) rest)

module _ (p : Pager) (height : ℕ) where
  -- The cells that a cursor gives until it ends.
  pub data Visits : Cursor → List Bytes → Type 0 where
    ended : {c : Cursor} → c.end_of_table ≡ true → Visits c []
    at_cell :
        {c c' : Cursor} {cell : Bytes} {cells : List Bytes}
        → c.end_of_table ≡ false
        → get_cell p c ≡ ok (cell, p)
        → advance height p c ≡ ok (c', p)
        → Visits c' cells
        → Visits c (cell ∷ cells)

  -- A cursor that starts on a page visits these cells.
  abbrev pub Starts : ℕ → ℕ → List Bytes → Type 0
  Starts fuel n cells = (c : Cursor) × (first_leaf fuel p n ≡ ok (c, p)) × Visits c cells

  -- A cursor that has run through the tree below a page visits these cells next.
  abbrev After : ℕ → ℕ → List Bytes → Type 0
  After fuel n cells =
      (c : Cursor)
      → c.page_num ≡ n
      → (c' : Cursor) × (next_leaf height fuel p c ≡ ok (c', p)) × Visits c' cells

  leaf_Visits :
      (n : ℕ) (node : Bytes) (rest : List Bytes) (left j : ℕ)
      → get_page p n ≡ ok (node, p)
      → j + suc left ≡ leaf_node_num_cells node
      → After height n rest
      → Visits
          (record { page_num = n; cell_num = j; end_of_table = false })
          (cells_of (entries_from node (suc left) j) ++ rest)
  unfolding advance get_cell cells_of
  leaf_Visits n node rest zero j g e next =
      let c : Cursor = record { page_num = n; cell_num = j; end_of_table = false } in
      let (c', runs, visits) = next c refl in
      let last : leb (leaf_node_num_cells node) (j + 1) ≡ true = ground (arith, e) in
      at_cell refl (rw g refl) (rw g (rw last runs)) visits
  leaf_Visits n node rest (suc left) j g e next =
      let more : leb (leaf_node_num_cells node) (j + 1) ≡ false = ground (arith, e) in
      let one : j + 1 ≡ suc j = omega arith in
      at_cell refl (rw g refl) (rw g (rw more (rw one refl)))
        (leaf_Visits n node rest left (suc j) g (omega (arith, e)) next)

  -- The way on from a child that is not the right one.
  next_leaf_sibling :
      (h n max i low key : ℕ) (node below : Bytes) (es : Entries) (rest : List Bytes) (fuel : ℕ)
      → suc h ≤ height
      → get_page p n ≡ ok (node, p)
      → get_node_max_key height p node ≡ ok (some max, p)
      → find_in_internal node (some max) key ≡ ok i
      → i < InternalNode.max_cells
      → Child below n
      → Ordered p h (internal_node_child node i) below low key es
      → Starts height (next_child node i) rest
      → After (suc fuel) (internal_node_child node i) rest
  unfolding next_leaf internal_node_find
  next_leaf_sibling h n max i low key node below es rest fuel high g m found few link t
        (c', runs, visits) c same =
      let inner : (i == InternalNode.max_cells) ≡ false = ground (arith, few) in
      (
        c',
        rw same (
            rw (Ordered-read t) (
              rw (link.inner) (
                rw (get_node_max_key-max height (omega (arith, high)) t)
                  (rw (link.parent_page) (rw g (rw g (rw m (rw found (rw inner runs))))))))),
        visits,
      )

  -- The way on from the right child is that from its parent.
  next_leaf_parent :
      (h n low max : ℕ) (node right : Bytes) (es : Entries) (rest : List Bytes) (fuel : ℕ)
      → suc h ≤ height
      → get_page p n ≡ ok (node, p)
      → get_node_max_key height p node ≡ ok (some max, p)
      → Child right n
      → Ordered p h (internal_node_right_child node) right low max es
      → After fuel n rest
      → After (suc fuel) (internal_node_right_child node) rest
  unfolding next_leaf internal_node_find
  next_leaf_parent h n low max node right es rest fuel high g m link t next c same =
      let (c', runs, visits) = next (record c { page_num = n }) refl in
      (
        c',
        rw same (
            rw (Ordered-read t) (
              rw (link.inner) (
                rw (get_node_max_key-max height (omega (arith, high)) t) (
                  rw (link.parent_page)
                    (rw g (rw g (rw m (rw (find_in_internal-right node max) runs)))))))),
        visits,
      )

  -- The trees of a height are run through: from the first leaf on, the cells of the tree, and then those
  -- that come behind it.
  abbrev Walks : ℕ → Type 0
  Walks h =
      (node : Bytes) (n low max : ℕ) (es : Entries) (rest : List Bytes) (fuel down : ℕ)
      → Ordered p h n node low max es
      → h + fuel ≡ suc height
      → h ≤ down
      → After fuel n rest
      → Starts down n (cells_of es ++ rest)

  -- The child at a position, where that behind the last key is the right child's.
  abbrev child_from : Bytes → ℕ → ℕ
  child_from node i =
      if i == internal_node_num_keys node
      then internal_node_right_child node
      else internal_node_child node i

  walk_siblings :
      (h n low max fuel down i : ℕ) (node : Bytes) (es : Entries) (rest : List Bytes)
      → Walks h
      → Children p h n node low max i es
      → InternalPage p n node
      → internal_node_num_keys node ≤ InternalNode.max_cells
      → get_node_max_key height p node ≡ ok (some max, p)
      → suc h + fuel ≡ suc height
      → suc h ≤ height
      → h ≤ down
      → ((d : ℕ) → h ≤ d → Starts d (internal_node_right_child node) rest)
      → Starts down (child_from node i) (cells_of es ++ rest)
  unfolding next_child cells_of
  walk_siblings h n low max fuel down i node es rest walk (no_child e) page few m deep high deep'
        right =
      let last : (i == internal_node_num_keys node) ≡ true = ground (arith, e) in
      rw last (right down deep')
  walk_siblings h n low max fuel down i node es rest walk
        (child {key = key} {below = below} {es = here} {rest = others} k link t le less cs) page few
        m deep high deep' right =
      let inside : (i == internal_node_num_keys node) ≡ false = ground (arith, k) in
      let g : get_page p n ≡ ok (node, p) = get_page-there p n node page.page in
      let one : i + 1 ≡ suc i = omega arith in
      let later : Starts height (next_child node i) (cells_of others ++ rest) = rw one (
        walk_siblings h n low max fuel height (suc i) node others rest walk cs page few m deep high
          (omega (arith, high)) right) in
      let lower : (j : ℕ) → j < i → internal_node_key node j < key = λ j q. omega (
        arith,
        keys_before p n low i j node page q (omega (arith, k)),
        Ordered-low p h below (internal_node_child node i) (low_at node low i) key here t,
      ) in
      let next : After (suc fuel) (internal_node_child node i) (cells_of others ++ rest) =
        next_leaf_sibling h n max i (low_at node low i) key node below here
          (cells_of others ++ rest) fuel high g m
          (find_in_internal-child p n max i key node page k le lower less) (omega (arith, k, few))
          link t later in
      let starts : Starts down (internal_node_child node i)
          (cells_of here ++ (cells_of others ++ rest)) =
        walk below (internal_node_child node i) (low_at node low i) key here
          (cells_of others ++ rest) (suc fuel) down t (omega (arith, deep)) deep' next in
      rw inside (
        subst (Starts down (internal_node_child node i)) (sym (cells_of-both here others rest))
          starts)

  walk_leaf :
      (n k down : ℕ) (node : Bytes) (rest : List Bytes)
      → LeafPage p n node
      → leaf_node_num_cells node ≡ suc k
      → After height n rest
      → Starts (suc down) n (cells_of (entries_from node (suc k) 0) ++ rest)
  unfolding first_leaf
  walk_leaf n k down node rest l e next =
      let g : get_page p n ≡ ok (node, p) = get_page-there p n node l.page in
      let some_cell : (leaf_node_num_cells node == 0) ≡ false = ground (arith, e) in
      (
        record { page_num = n; cell_num = 0; end_of_table = false },
        rw g (rw (l.type) (rw some_cell refl)),
        leaf_Visits n node rest k 0 g (omega (arith, e)) next,
      )

  goes_down :
      (n down : ℕ) (node : Bytes) (cells : List Bytes)
      → InternalPage p n node
      → Starts down (child_from node 0) cells
      → Starts (suc down) n cells
  unfolding first_leaf first_child
  goes_down n down node cells page (c, runs, visits) =
      let g : get_page p n ≡ ok (node, p) = get_page-there p n node page.page in
      elim (Bool-cases (internal_node_num_keys node == 0)) [
        | inl e ↦
            let e' : (0 == internal_node_num_keys node) ≡ true = ground (arith, e) in
            (c, rw g (rw (page.type) (rw (page.right) (rw e (rw e' at runs)))), visits)
        | inr e ↦
            let e' : (0 == internal_node_num_keys node) ≡ false = ground (arith, e) in
            (c, rw g (rw (page.type) (rw (page.right) (rw e (rw e' at runs)))), visits)
      ]

  walk : (h : ℕ) → h ≤ height → Walks h
  walk zero high node n bound max es rest fuel down t deep low next = elim t [ ]
  walk (suc h) high node n bound max es rest fuel zero t deep low next = absurd (omega (arith, low))
  walk (suc zero) high node n bound max es rest fuel (suc down) (leaf {k = k} l e b) deep low next =
      let same : fuel ≡ height = omega (arith, deep) in
      walk_leaf n k down node rest l e (subst (λ (x : ℕ). After x n rest) same next)
  walk (suc h) high node n bound max es rest fuel (suc down)
        (internal {right = right} {es = inner} {right_es = outer} page few cs link t) deep low
        next =
      let below : h ≤ height = omega (arith, high) in
      let g : get_page p n ≡ ok (node, p) = get_page-there p n node page.page in
      let m : get_node_max_key height p node ≡ ok (some max, p) =
        get_node_max_key-max height high (internal page few cs link t) in
      let after : After (suc fuel) (internal_node_right_child node) rest =
        next_leaf_parent h n (low_at node bound (internal_node_num_keys node)) max node right outer
          rest fuel high g m link t next in
      let starts : Starts down (child_from node 0) (cells_of inner ++ (cells_of outer ++ rest)) =
        walk_siblings h n bound max fuel down 0 node inner (cells_of outer ++ rest) (walk h below)
          cs page few m deep high (omega (arith, low))
          (λ d k.
            walk h below right (internal_node_right_child node)
              (low_at node bound (internal_node_num_keys node)) max outer rest (suc fuel) d t
              (omega (arith, deep)) k after) in
      goes_down n down node (cells_of (inner ++ outer) ++ rest) page
        (subst (Starts down (child_from node 0)) (sym (cells_of-both inner outer rest)) starts)

  -- What a new cursor on a tree gives.
  pub open_cursor-Visits :
      (root low max : ℕ) (node : Bytes) (es : Entries)
      → Ordered p height root node low max es
      → is_node_root node ≡ true
      → (c : Cursor) × (open_cursor height p root ≡ ok (c, p)) × Visits c (cells_of es)
  unfolding open_cursor next_leaf
  open_cursor-Visits root low max node es t top =
      let next : After 1 root [] = λ c same. (
        record c { end_of_table = true },
        rw same (rw (Ordered-read t) (rw top refl)),
        ended refl,
      ) in
      subst (Starts height root) (append-nil (cells_of es)) (
        walk height (omega arith) node root low max es [] 1 height t (omega arith) (omega arith)
          next)
