-- ===== src/Btree/Search/Descent.antt =====
-- The way of a search of learndb/btree.py from a page down to a leaf.
use learndb_py.Prelude.{
  ℕ, zero, suc, ◌-◌, ◌<◌, ◌≡◌, refl, arith, ◌==◌, ltb, leb, true, false, Bool-cases, inl, inr,
  Option, some, none, ok, subst,
}
use learndb_py.Bytes.Slices.{Bytes}
use learndb_py.Constants.{table_max_pages}
use learndb_py.Constants.InternalNode
use learndb_py.Pager.{Pager, get_page}
use learndb_py.Btree.Node.{get_node_type, node_internal, node_leaf}
use learndb_py.Btree.Internal.{
  internal_node_num_keys, internal_node_has_right_child, internal_node_key, internal_node_child,
  internal_node_right_child,
}
use learndb_py.Btree.Leaf.{leaf_node_num_cells}
use learndb_py.Btree.Search.{
  find, leaf_node_find, get_node_max_key, find_in_internal, internal_node_find, child_at,
}
use learndb_py.Btree.Search.Halving.{Position, loop-Position}
use learndb_py.Btree.Search.Position.{cell_key, leaf_node_key-reads, find_in_leaf-Position}

-- A page that is in the cache, with its content.
pub record Page (p : Pager) (n : ℕ) (node : Bytes) : Type 0 where
  pub few : n < table_max_pages
  pub there : p.pages n ≡ some node

pub record LeafPage (p : Pager) (n : ℕ) (node : Bytes) : Type 0 where
  pub page : Page p n node
  pub type : get_node_type node ≡ ok node_leaf
  pub increasing :
      (i j : ℕ) → i < j → j < leaf_node_num_cells node → cell_key node i < cell_key node j

pub record InternalPage (p : Pager) (n : ℕ) (node : Bytes) : Type 0 where
  pub page : Page p n node
  pub type : get_node_type node ≡ ok node_internal
  pub right : internal_node_has_right_child node ≡ true
  pub increasing :
      (i j : ℕ)
      → i < j
      → j < internal_node_num_keys node
      → internal_node_key node i < internal_node_key node j

-- The tree below a page, by its height: a leaf, or an internal node with a right child, all of whose
-- children are trees of one height.
pub data Tree (p : Pager) : ℕ → ℕ → Type 0 where
  leaf : {n : ℕ} (node : Bytes) → LeafPage p n node → Tree p 1 n
  internal :
      {h n : ℕ} (node : Bytes)
      → InternalPage p n node
      → ((i : ℕ) → i < internal_node_num_keys node → Tree p h (internal_node_child node i))
      → Tree p h (internal_node_right_child node)
      → Tree p (suc h) n

pub get_page-there :
    (p : Pager) (n : ℕ) (node : Bytes) → Page p n node → get_page p n ≡ ok (node, p)
unfolding get_page
get_page-there p n node g =
    let small : leb table_max_pages n ≡ false = ground (arith, g.few) in rw (small, g.there) refl

-- The content of the page of a tree.
abbrev content_of : {p : Pager} {h n : ℕ} → Tree p h n → Bytes
content_of (leaf node l) = node
content_of (internal node i c r) = node

Page-of : {p : Pager} {h n : ℕ} (t : Tree p h n) → Page p n (content_of t)
Page-of (leaf node l) = l.page
Page-of (internal node i c r) = i.page

-- The greatest key is read, and no page is.
get_node_max_key-ends :
    {p : Pager} {h n : ℕ} (t : Tree p h n)
    → (m : Option ℕ) × (get_node_max_key h p (content_of t) ≡ ok (m, p))
unfolding get_node_max_key
get_node_max_key-ends {p} (leaf node l) = elim (Bool-cases (leaf_node_num_cells node == 0)) [
  | inl e ↦ (none, rw (l.type) (rw e refl))
  | inr e ↦
      let last = leaf_node_num_cells node - 1 in
      (
        some (cell_key node last),
        rw (l.type) (rw (e, leaf_node_key-reads node last (ground (arith, e))) refl),
      )
]
get_node_max_key-ends {p} (internal node i c r) =
    let (m, e) = get_node_max_key-ends r in
    (m, rw (i.type) (rw (i.right, get_page-there p _ _ (Page-of r)) e))

find_in_internal-ends :
    {p : Pager} {n : ℕ} (node : Bytes) (m : Option ℕ) (key : ℕ)
    → InternalPage p n node
    → (c : ℕ) × (find_in_internal node m key ≡ ok c)
unfolding find_in_internal
find_in_internal-ends node none key i = (InternalNode.max_cells, rw (i.right) refl)
find_in_internal-ends node (some m) key i = elim (Bool-cases (leb m key)) [
  | inl e ↦ (InternalNode.max_cells, rw e refl)
  | inr e ↦ elim (Bool-cases (internal_node_num_keys node == 0)) [
    | inl z ↦ (0, rw (e, z) refl)
    | inr z ↦
        let num = internal_node_num_keys node in
        let (c, runs, _) =
          loop-Position (λ k. ok (internal_node_key node k)) (internal_node_key node) num
            (λ k h. refl) i.increasing num key 0 num (omega arith) (omega arith) (omega arith)
            (λ k q. absurd (omega arith)) (λ k q r. absurd (omega arith)) in
        (c, rw (e, z) runs)
  ]
]

internal_node_find-ends :
    {p : Pager} {h n : ℕ} (key : ℕ) (node : Bytes) (t : Tree p h n)
    → content_of t ≡ node
    → InternalPage p n node
    → (c : ℕ) × (internal_node_find h p n key ≡ ok (c, p))
unfolding internal_node_find
internal_node_find-ends {p} {h} {n} key node t same i =
    let (m, e) = get_node_max_key-ends t in
    let e' : get_node_max_key h p node ≡ ok (m, p) =
      subst (λ (x : Bytes). get_node_max_key h p x ≡ ok (m, p)) same e in
    let (c, f) = find_in_internal-ends node m key i in
    (c, rw (get_page-there p n node i.page, e', f) refl)

-- Where a search ends: in a leaf, at the position of the key in it.
pub record Ends (p : Pager) (key : ℕ) (page c : ℕ) : Type 0 where
  pub node : Bytes
  pub is_leaf : LeafPage p page node
  pub position : Position (cell_key node) (leaf_node_num_cells node) key c

find-leaf :
    (p : Pager) (n key : ℕ) (node : Bytes)
    → LeafPage p n node
    → (c : ℕ) × (find 1 p key n ≡ ok ((n, c), p)) × Ends p key n c
unfolding find leaf_node_find
find-leaf p n key node l =
    let (c, runs, pos) = find_in_leaf-Position node key l.increasing in
    (
      c,
      rw (get_page-there p n node l.page, l.type, get_page-there p n node l.page, runs) refl,
      record { node = node; is_leaf = l; position = pos },
    )

child_at-Tree :
    {p : Pager} {h : ℕ} (node : Bytes) (c : ℕ)
    → ((i : ℕ) → i < internal_node_num_keys node → Tree p h (internal_node_child node i))
    → Tree p h (internal_node_right_child node)
    → Tree p h (child_at node c)
unfolding child_at
child_at-Tree {p} {h} node c inner right = elim (Bool-cases (ltb c (internal_node_num_keys node))) [
  | inl e ↦ rw e (inner c (ground (arith, e)))
  | inr e ↦ rw e right
]

pub find-step :
    (p : Pager) (h n key c : ℕ) (node : Bytes) (r : (ℕ × ℕ) × Pager)
    → InternalPage p n node
    → internal_node_find (suc h) p n key ≡ ok (c, p)
    → find h p key (child_at node c) ≡ ok r
    → find (suc h) p key n ≡ ok r
unfolding find
find-step p h n key c node r i e f = rw (get_page-there p n node i.page, i.type, e) f

-- A search in a tree returns within the height of the tree. It ends in a leaf, at the position of the
-- key among the keys of the leaf, and leaves the pager as it was.
pub find-Ends :
    (h : ℕ) (p : Pager) (n key : ℕ)
    → Tree p h n
    → (page : ℕ) × (c : ℕ) × (find h p key n ≡ ok ((page, c), p)) × Ends p key page c
find-Ends zero p n key t = elim t [ ]
find-Ends (suc zero) p n key (leaf node l) =
    let (c, runs, e) = find-leaf p n key node l in (n, c, runs, e)
find-Ends (suc h) p n key (internal node i inner right) =
    let (c, e) = internal_node_find-ends key node (internal node i inner right) refl i in
    let (page, d, runs, ends) =
      find-Ends h p (child_at node c) key (child_at-Tree node c inner right) in
    (page, d, find-step p h n key c node ((page, d), p) i e runs, ends)
