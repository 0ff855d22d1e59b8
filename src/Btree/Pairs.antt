-- ===== src/Btree/Pairs.antt =====
-- The children and the keys of an internal node of learndb/btree.py under writes.
use learndb_py.Prelude.{
  ℕ, ◌+◌, ◌*◌, ◌≤◌, ◌≡◌, ◌≢◌, ◌⊎◌, inl, inr, ap, ◌∙◌, arith, length, ltb, Bool-cases, ok,
}
use native.Mathlib.Decide.{dec_lt}
use learndb_py.Bytes.Slices.{Bytes}
use learndb_py.Btree.Words.{get_word, Set, set_word-Set, Set-other}
use learndb_py.Btree.Node.{to_bool}
use learndb_py.Btree.Internal.{
  internal_node_cell_offset, internal_node_key_offset, internal_node_child_offset,
  internal_node_num_keys, internal_node_has_right_child, internal_node_child,
  internal_node_right_child, internal_node_key, set_internal_node_child, set_internal_node_key,
}

-- A node with `child` and `key` at position `i`, and all else as in another one.
pub record Pair (node : Bytes) (i child key : ℕ) (node' : Bytes) : Type 0 where
  pub size : length node' ≡ length node
  pub child_there : internal_node_child node' i ≡ child
  pub key_there : internal_node_key node' i ≡ key
  pub other_children : (j : ℕ) → j ≢ i → internal_node_child node' j ≡ internal_node_child node j
  pub other_keys : (j : ℕ) → j ≢ i → internal_node_key node' j ≡ internal_node_key node j
  pub num : internal_node_num_keys node' ≡ internal_node_num_keys node
  pub right : internal_node_right_child node' ≡ internal_node_right_child node
  pub has_right : internal_node_has_right_child node' ≡ internal_node_has_right_child node

apart :
    (i j k : ℕ)
    → j ≢ i
    → k ≤ 4
    → (24 + j * 8 + k + 4 ≤ 24 + i * 8) ⊎ (24 + i * 8 + 8 ≤ 24 + j * 8 + k)
apart i j k ne h = elim (dec_lt j i) [ yes p ↦ inl (omega arith) | no p ↦ inr (omega (arith, p)) ]

sets-Pair :
    (node node₁ node₂ : Bytes) (i child key : ℕ)
    → Set node (24 + i * 8) child node₁
    → Set node₁ (24 + i * 8 + 4) key node₂
    → Pair node i child key node₂
unfolding internal_node_cell_offset internal_node_key_offset internal_node_child_offset
    internal_node_num_keys internal_node_has_right_child internal_node_child
    internal_node_right_child internal_node_key
sets-Pair node node₁ node₂ i child key s₁ s₂ =
    let keep : (o : ℕ)
        → (o + 4 ≤ 24 + i * 8) ⊎ (24 + i * 8 + 8 ≤ o)
        → get_word node₂ o ≡ get_word node o =
      λ o h. off o h in
    record {
      size = s₂.size ∙ s₁.size;
      child_there =
          Set-other node₁ (24 + i * 8 + 4) key node₂ (24 + i * 8) s₂ (inl (omega arith)) ∙ s₁.here;
      key_there = s₂.here;
      other_children = λ j ne.
          ap (get_word node₂) (omega arith)
          ∙ keep (24 + j * 8 + 0) (apart i j 0 ne (omega arith))
          ∙ ap (get_word node) (omega arith);
      other_keys = λ j ne. keep (24 + j * 8 + 4) (apart i j 4 ne (omega arith));
      num = keep 12 (inl (omega arith));
      right = keep 16 (inl (omega arith));
      has_right = ap to_bool (keep 20 (inl (omega arith)));
    }
  where
    off : (o : ℕ) → (o + 4 ≤ 24 + i * 8) ⊎ (24 + i * 8 + 8 ≤ o) → get_word node₂ o ≡ get_word node o
    off o (inl h) =
        Set-other node₁ (24 + i * 8 + 4) key node₂ o s₂ (inl (omega arith))
        ∙ Set-other node (24 + i * 8) child node₁ o s₁ (inl h)
    off o (inr h) =
        Set-other node₁ (24 + i * 8 + 4) key node₂ o s₂ (inr (omega arith))
        ∙ Set-other node (24 + i * 8) child node₁ o s₁ (inr (omega arith))

set_internal_node_child-Set :
    (node node' : Bytes) (i child : ℕ)
    → set_internal_node_child node i child ≡ ok node'
    → 24 + i * 8 + 4 ≤ length node
    → Set node (24 + i * 8) child node'
unfolding set_internal_node_child internal_node_child_offset internal_node_cell_offset
set_internal_node_child-Set node node' i child h l = elim (Bool-cases (ltb child 100)) [
  | inl e ↦ set_word-Set node (24 + i * 8) child node' (rw e at h) l
  | inr e ↦ absurd (cc (rw e at h))
]

-- Behind the writes of a child and of its key at one position of an internal node, both are read back
-- there, and the other children and keys, their number and the right child are as before.
pub set_child-set_key :
    (node node₁ node₂ : Bytes) (i child key : ℕ)
    → set_internal_node_child node i child ≡ ok node₁
    → set_internal_node_key node₁ i key ≡ ok node₂
    → 24 + i * 8 + 8 ≤ length node
    → Pair node i child key node₂
unfolding set_internal_node_key internal_node_key_offset internal_node_cell_offset
set_child-set_key node node₁ node₂ i child key h₁ h₂ l =
    let s₁ = set_internal_node_child-Set node node₁ i child h₁ (omega arith) in
    sets-Pair node node₁ node₂ i child key s₁
      (set_word-Set node₁ (24 + i * 8 + 4) key node₂ h₂ (omega (arith, s₁.size)))
