-- ===== src/Btree/Search/Position.antt =====
-- Where the searches of learndb/btree.py find a key.
use learndb_py.Prelude.{
  ℕ, ◌≤◌, ◌<◌, ◌≡◌, refl, arith, ltb, lt→ltb, leb, ◌==◌, false, some, ok, Bool-cases, inl, inr,
  if◌then◌else◌,
}
use learndb_py.Bytes.Slices.{Bytes}
use learndb_py.Serde.{get_cell_key_in_page}
use learndb_py.Constants.InternalNode
use learndb_py.Btree.Internal.{
  internal_node_num_keys, internal_node_key, internal_node_child, internal_node_right_child,
}
use learndb_py.Btree.Leaf.{leaf_node_num_cells, leaf_node_key, leaf_node_cell_offset}
use learndb_py.Btree.Search.{find_in_leaf, find_in_internal, child_at}
use learndb_py.Btree.Search.Halving.{Position, loop-Position}

-- The key of a cell of a leaf, without the check of its position.
abbrev pub cell_key : Bytes → ℕ → ℕ
cell_key node i = get_cell_key_in_page node (leaf_node_cell_offset node i)

pub leaf_node_key-reads :
    (node : Bytes) (i : ℕ)
    → i < leaf_node_num_cells node
    → leaf_node_key node i ≡ ok (cell_key node i)
unfolding leaf_node_key
leaf_node_key-reads node i h = rw (lt→ltb i (leaf_node_num_cells node) h) refl

-- On a leaf whose keys increase, the search returns the position of the key: those of the cells before it
-- are smaller, and those from it on are not.
pub find_in_leaf-Position :
    (node : Bytes) (key : ℕ)
    → ((i j : ℕ) → i < j → j < leaf_node_num_cells node → cell_key node i < cell_key node j)
    → (c : ℕ) × (find_in_leaf node key ≡ ok c)
      × Position (cell_key node) (leaf_node_num_cells node) key c
unfolding find_in_leaf
find_in_leaf-Position node key increasing =
    let n = leaf_node_num_cells node in
    loop-Position (leaf_node_key node) (cell_key node) n (leaf_node_key-reads node) increasing n key
      0 n (omega arith) (omega arith) (omega arith) (λ i p. absurd (omega arith))
      (λ i p q. absurd (omega arith))

not_ltb : (a b : ℕ) → b ≤ a → ltb a b ≡ false
not_ltb a b h = ground arith

-- On an internal node whose keys increase and are smaller than the greatest key below it, the search and
-- the choice of the child lead to the child for the key: that at the position of the key, or the right
-- child where every key of the node is smaller.
pub find_in_internal-child_at :
    (node : Bytes) (max_key key : ℕ)
    → ((i j : ℕ)
        → i < j
        → j < internal_node_num_keys node
        → internal_node_key node i < internal_node_key node j)
    → ((i : ℕ) → i < internal_node_num_keys node → internal_node_key node i < max_key)
    → internal_node_num_keys node ≤ InternalNode.max_cells
    → (pos : ℕ) × (c : ℕ) × (find_in_internal node (some max_key) key ≡ ok c)
      × Position (internal_node_key node) (internal_node_num_keys node) key pos
      × (child_at node c ≡ (
          if ltb pos (internal_node_num_keys node)
          then internal_node_child node pos
          else internal_node_right_child node))
unfolding find_in_internal child_at
find_in_internal-child_at node max_key key increasing below few =
    let n = internal_node_num_keys node in
    elim (Bool-cases (leb max_key key)) [
      | inl e ↦
          let greatest : max_key ≤ key = ground (arith, e) in
          (
            n,
            InternalNode.max_cells,
            rw e refl,
            record {
              within = omega arith;
              smaller = λ i p. omega (arith, below i p);
              not_smaller = λ i p q. absurd (omega arith);
            },
            rw (not_ltb InternalNode.max_cells n few, not_ltb n n (omega arith)) refl,
          )
      | inr e ↦ elim (Bool-cases (n == 0)) [
        | inl z ↦
            let none_here : n ≡ 0 = ground (arith, z) in
            (
              0,
              0,
              rw (e, z) refl,
              record {
                within = omega arith;
                smaller = λ i p. absurd (omega arith);
                not_smaller = λ i p q. absurd (omega arith);
              },
              refl,
            )
        | inr z ↦
            let (c, runs, pos) =
              loop-Position (λ i. ok (internal_node_key node i)) (internal_node_key node) n
                (λ i h. refl) increasing n key 0 n (omega arith) (omega arith) (omega arith)
                (λ i p. absurd (omega arith)) (λ i p q. absurd (omega arith)) in
            (c, c, rw (e, z) runs, pos, refl)
      ]
    ]
