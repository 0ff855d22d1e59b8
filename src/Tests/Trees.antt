-- ===== src/Tests/Trees.antt =====
-- The nodes of the tree at concrete inputs.
use learndb_py.Prelude.{
  Option, false, ℕ, zero, suc, ◌<◌, ◌≡◌, refl, true, [], ◌∷◌, ◌++◌, length, length-replicate, arith,
  ok, some, take, drop, ltb, if◌then◌else◌,
}
use learndb_py.Bytes.Slices.{splice, Bytes, slice}
use learndb_py.Bytes.Numbers.{to_bytes, digits, from_bytes}
use learndb_py.Constants.{page_size}
use learndb_py.Pager.{Pager, zeros}
use learndb_py.Btree.Words.{set_word, get_word}
use learndb_py.Btree.Leaf.{initialize_leaf_node}
use learndb_py.Btree.Pairs.{Pair, set_child-set_key}
use learndb_py.Tests.Leaves.{leaf_7_9, leaf_7_9-Increasing}
use learndb_py.Btree.Node.{get_node_type, node_type, node_leaf, node_internal}
use learndb_py.Btree.Search.Descent.{Tree, leaf, internal, Ends, find-Ends}
use learndb_py.Btree.Internal.{
  internal_node_has_right_child, set_internal_node_child, set_internal_node_key,
  internal_node_child_offset, internal_node_num_keys, internal_node_key, internal_node_key_offset,
  internal_node_cell_offset, internal_node_child, internal_node_right_child,
}
use learndb_py.Btree.Initial.{EmptyLeaf, initialize_leaf_node-EmptyLeaf}
use learndb_py.Btree.Search.{find, find_in_internal, child_at}
use learndb_py.Btree.Search.Halving.{Position}
use learndb_py.Btree.Search.Position.{find_in_internal-child_at}

blank_sized : length (zeros page_size) ≡ page_size
unfolding zeros
blank_sized = length-replicate {A = ℕ} page_size 0

initialize_leaf_node-EmptyLeaf_example :
    (node' : Bytes) × (initialize_leaf_node (zeros page_size) true 0 ≡ ok node')
    × EmptyLeaf node' true 0
initialize_leaf_node-EmptyLeaf_example =
    initialize_leaf_node-EmptyLeaf (zeros page_size) true 0 blank_sized (omega arith)

-- An internal node with the children 3, up to key 5, and 4, up to key 8, and the right child 9.
abbrev node_5_8 : Bytes
node_5_8 =
    (1 ∷ 0 ∷ 0 ∷ 0 ∷ 0 ∷ 0 ∷ 0 ∷ 0 ∷ 0 ∷ 0 ∷ 0 ∷ 0 ∷ [])
    ++ ((2 ∷ 0 ∷ 0 ∷ 0 ∷ 9 ∷ 0 ∷ 0 ∷ 0 ∷ 1 ∷ 0 ∷ 0 ∷ 0 ∷ [])
        ++ (3 ∷ 0 ∷ 0 ∷ 0 ∷ 5 ∷ 0 ∷ 0 ∷ 0 ∷ 4 ∷ 0 ∷ 0 ∷ 0 ∷ 8 ∷ 0 ∷ 0 ∷ 0 ∷ []))

keys_5_8 :
    (internal_node_num_keys node_5_8 ≡ 2)
    × (internal_node_key node_5_8 0 ≡ 5)
    × (internal_node_key node_5_8 1 ≡ 8)
unfolding internal_node_num_keys internal_node_key internal_node_key_offset
    internal_node_cell_offset get_word slice take drop from_bytes
keys_5_8 = (refl, refl, refl)

keys_5_8_increase :
    (i j : ℕ)
    → i < j
    → j < internal_node_num_keys node_5_8
    → internal_node_key node_5_8 i < internal_node_key node_5_8 j
keys_5_8_increase zero zero p q = absurd (omega arith)
keys_5_8_increase zero (suc zero) p q = omega (arith, keys_5_8.1, keys_5_8.2)
keys_5_8_increase (suc i) (suc zero) p q = absurd (omega arith)
keys_5_8_increase i (suc (suc j)) p q = absurd (omega (arith, keys_5_8.0))
keys_5_8_increase (suc i) zero p q = absurd (omega arith)

keys_5_8_below : (i : ℕ) → i < internal_node_num_keys node_5_8 → internal_node_key node_5_8 i < 12
keys_5_8_below zero p = omega (arith, keys_5_8.1)
keys_5_8_below (suc zero) p = omega (arith, keys_5_8.2)
keys_5_8_below (suc (suc i)) p = absurd (omega (arith, keys_5_8.0))

find_in_internal-child_at_example :
    (pos : ℕ) × (c : ℕ) × (find_in_internal node_5_8 (some 12) 6 ≡ ok c)
    × Position (internal_node_key node_5_8) (internal_node_num_keys node_5_8) 6 pos
    × (child_at node_5_8 c ≡ (
        if ltb pos (internal_node_num_keys node_5_8)
        then internal_node_child node_5_8 pos
        else internal_node_right_child node_5_8))
find_in_internal-child_at_example =
    find_in_internal-child_at node_5_8 12 6 keys_5_8_increase keys_5_8_below
      (omega (arith, keys_5_8.0))

-- The child at position 1 becomes page 6, with the key 7.
abbrev node_5_7 : Bytes
node_5_7 =
    (1 ∷ 0 ∷ 0 ∷ 0 ∷ 0 ∷ 0 ∷ 0 ∷ 0 ∷ 0 ∷ 0 ∷ 0 ∷ 0 ∷ [])
    ++ ((2 ∷ 0 ∷ 0 ∷ 0 ∷ 9 ∷ 0 ∷ 0 ∷ 0 ∷ 1 ∷ 0 ∷ 0 ∷ 0 ∷ [])
        ++ (3 ∷ 0 ∷ 0 ∷ 0 ∷ 5 ∷ 0 ∷ 0 ∷ 0 ∷ 6 ∷ 0 ∷ 0 ∷ 0 ∷ 7 ∷ 0 ∷ 0 ∷ 0 ∷ []))

abbrev node_5_half : Bytes
node_5_half =
    (1 ∷ 0 ∷ 0 ∷ 0 ∷ 0 ∷ 0 ∷ 0 ∷ 0 ∷ 0 ∷ 0 ∷ 0 ∷ 0 ∷ [])
    ++ ((2 ∷ 0 ∷ 0 ∷ 0 ∷ 9 ∷ 0 ∷ 0 ∷ 0 ∷ 1 ∷ 0 ∷ 0 ∷ 0 ∷ [])
        ++ (3 ∷ 0 ∷ 0 ∷ 0 ∷ 5 ∷ 0 ∷ 0 ∷ 0 ∷ 6 ∷ 0 ∷ 0 ∷ 0 ∷ 8 ∷ 0 ∷ 0 ∷ 0 ∷ []))

child_written : set_internal_node_child node_5_8 1 6 ≡ ok node_5_half
unfolding set_internal_node_child internal_node_child_offset internal_node_cell_offset set_word
    splice take drop to_bytes digits
child_written = refl

key_written : set_internal_node_key node_5_half 1 7 ≡ ok node_5_7
unfolding set_internal_node_key internal_node_key_offset internal_node_cell_offset set_word splice
    take drop to_bytes digits
key_written = refl

set_child-set_key_example : Pair node_5_8 1 6 7 node_5_7
set_child-set_key_example =
    set_child-set_key node_5_8 node_5_half node_5_7 1 6 7 child_written key_written (omega arith)

-- A root with three leaves, all in the cache.
abbrev pub small_pages : ℕ → Option Bytes
small_pages zero = some node_5_8
small_pages (suc n) = some leaf_7_9

abbrev pub small_pager : Pager
small_pager = record {
  header = [];
  pages = small_pages;
  file = [];
  file_length = 0;
  num_pages = 10;
  num_pages_on_disk = 0;
  next_allocatable_page_num = 10;
  returned_pages = [];
  has_free_page_list = false;
  free_page_list_head = 0;
}

pub leaf_type : get_node_type leaf_7_9 ≡ ok node_leaf
unfolding get_node_type node_type get_word slice take drop from_bytes
leaf_type = refl

root_type :
    (get_node_type node_5_8 ≡ ok node_internal) × (internal_node_has_right_child node_5_8 ≡ true)
unfolding get_node_type node_type internal_node_has_right_child get_word slice take drop from_bytes
root_type = (refl, refl)

leaf_at : (n : ℕ) → suc n < 100 → Tree small_pager 1 (suc n)
leaf_at n h = leaf leaf_7_9 (record {
  page = record { few = h; there = refl };
  type = leaf_type;
  increasing = leaf_7_9-Increasing;
})

children_5_8 :
    (internal_node_child node_5_8 0 ≡ 3)
    × (internal_node_child node_5_8 1 ≡ 4)
    × (internal_node_right_child node_5_8 ≡ 9)
unfolding internal_node_child internal_node_right_child internal_node_child_offset
    internal_node_cell_offset get_word slice take drop from_bytes
children_5_8 = (refl, refl, refl)

inner_5_8 :
    (i : ℕ)
    → i < internal_node_num_keys node_5_8
    → Tree small_pager 1 (internal_node_child node_5_8 i)
inner_5_8 zero h = rw (children_5_8.0) (leaf_at 2 (omega arith))
inner_5_8 (suc zero) h = rw (children_5_8.1) (leaf_at 3 (omega arith))
inner_5_8 (suc (suc i)) h = absurd (omega (arith, keys_5_8.0))

small-Tree : Tree small_pager 2 0
small-Tree =
    internal node_5_8
      (record {
        page = record { few = omega arith; there = refl };
        type = root_type.0;
        right = root_type.1;
        increasing = keys_5_8_increase;
      })
      inner_5_8 (rw (children_5_8.2) (leaf_at 8 (omega arith)))

find-Ends_example :
    (page : ℕ) × (c : ℕ) × (find 2 small_pager 8 0 ≡ ok ((page, c), small_pager))
    × Ends small_pager 8 page c
find-Ends_example = find-Ends 2 small_pager 0 8 small-Tree
