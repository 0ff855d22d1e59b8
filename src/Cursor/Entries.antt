-- ===== src/Cursor/Entries.antt =====
-- The entries of the trees that a cursor runs over, and those of a leaf.
use learndb_py.Prelude.{ℕ, zero, suc, ◌+◌, ◌≤◌, ◌<◌, ◌≡◌, ◌⊎◌, ap, arith, inl, inr, [], ◌∷◌, ◌++◌}
use native.Mathlib.Decide.{dec_lt}
use learndb_py.Bytes.Slices.{Bytes}
use learndb_py.Btree.Leaf.{leaf_node_cell}
use learndb_py.Btree.Search.Position.{cell_key}
use learndb_py.Cursor.Order.{Entries, entries_from}

-- An entry is in a list.
abbrev pub Has : ℕ → Bytes → Entries → Type 0
Has key cell [] = ⊥
Has key cell (e ∷ es) = (e ≡ (key, cell)) ⊎ Has key cell es

pub Has-append :
    (key : ℕ) (cell : Bytes) (es fs : Entries)
    → Has key cell (es ++ fs)
    → Has key cell es ⊎ Has key cell fs
Has-append key cell [] fs h = inr h
Has-append key cell (e ∷ es) fs (inl h) = inl (inl h)
Has-append key cell (e ∷ es) fs (inr h) = elim (Has-append key cell es fs h) [
  | inl g ↦ inl (inr g)
  | inr g ↦ inr g
]

pub Has-left :
    (key : ℕ) (cell : Bytes) (es fs : Entries) → Has key cell es → Has key cell (es ++ fs)
Has-left key cell [] fs h = absurd h
Has-left key cell (e ∷ es) fs (inl h) = inl h
Has-left key cell (e ∷ es) fs (inr h) = inr (Has-left key cell es fs h)

pub Has-right :
    (key : ℕ) (cell : Bytes) (es fs : Entries) → Has key cell fs → Has key cell (es ++ fs)
Has-right key cell [] fs h = h
Has-right key cell (e ∷ es) fs h = inr (Has-right key cell es fs h)

-- An entry of a leaf, by its position.
pub Has-position :
    (node : Bytes) (key : ℕ) (cell : Bytes) (left j : ℕ)
    → Has key cell (entries_from node left j)
    → (i : ℕ) × (j ≤ i) × (i < j + left) × (cell_key node i ≡ key) × (leaf_node_cell node i ≡ cell)
Has-position node key cell zero j h = absurd h
Has-position node key cell (suc left) j (inl e) =
    (j, omega arith, omega arith, ap (λ (x : ℕ × Bytes). x.0) e, ap (λ (x : ℕ × Bytes). x.1) e)
Has-position node key cell (suc left) j (inr h) =
    let (i, low, high, k, c) = Has-position node key cell left (suc j) h in
    (i, omega (arith, low), omega (arith, high), k, c)

pub position-Has :
    (node : Bytes) (left j i : ℕ)
    → j ≤ i
    → i < j + left
    → Has (cell_key node i) (leaf_node_cell node i) (entries_from node left j)
position-Has node zero j i low high = absurd (omega (arith, low, high))
position-Has node (suc left) j i low high = elim (dec_lt j i) [
  | yes q ↦ inr (position-Has node left (suc j) i (omega (arith, q)) (omega (arith, high)))
  | no q ↦
      let same : j ≡ i = omega (arith, low, q) in
      inl (ap (λ (x : ℕ). (cell_key node x, leaf_node_cell node x)) same)
]
