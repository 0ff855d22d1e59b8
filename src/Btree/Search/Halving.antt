-- ===== src/Btree/Search/Halving.antt =====
-- The binary search of learndb/btree.py over increasing keys.
use learndb_py.Prelude.{
  ℕ, zero, suc, ◌+◌, ◌-◌, ◌/◌, ◌≤◌, ◌<◌, ◌≡◌, refl, ap, ◌∙◌, arith, ◌==◌, ==_iff, ltb, true, false,
  Bool-cases, inl, inr, Result, ok,
}
use native.Mathlib.Decide.{dec_lt}
use learndb_py.Btree.Search.{binary_search, continue, search_round}

-- The position of `key` among the first `n` keys: those before it are smaller, and those from it on are
-- not.
pub record Position (keys : ℕ → ℕ) (n key : ℕ) (c : ℕ) : Type 0 where
  pub within : c ≤ n
  pub smaller : (i : ℕ) → i < c → keys i < key
  pub not_smaller : (i : ℕ) → c ≤ i → i < n → key ≤ keys i

found_empty :
    (key_at : ℕ → Result ℕ) (key left right : ℕ)
    → left ≡ right
    → binary_search key_at key 0 left right ≡ ok left
unfolding binary_search
found_empty key_at key left right e = rw ((==_iff left right).1 e) refl

runs_end :
    (key_at : ℕ → Result ℕ) (fuel key left right : ℕ)
    → (left == right) ≡ true
    → binary_search key_at key (suc fuel) left right ≡ ok left
unfolding binary_search
runs_end key_at fuel key left right e = rw e refl

-- A round that does not end the loop.
runs_round :
    (key_at : ℕ → Result ℕ) (fuel key left right at_index : ℕ)
    → (left == right) ≡ false
    → key_at (left + (right - left) / 2) ≡ ok at_index
    → binary_search key_at key (suc fuel) left right
      ≡ continue
          (binary_search key_at key fuel)
          (search_round key at_index (left + (right - left) / 2) left right)
unfolding binary_search
runs_round key_at fuel key left right at_index e r = rw (e, r) refl

module _ (key_at : ℕ → Result ℕ) (keys : ℕ → ℕ) (n : ℕ)
    (reads : (i : ℕ) → i < n → key_at i ≡ ok (keys i))
    (increasing : (i j : ℕ) → i < j → j < n → keys i < keys j) where
  not_below : (a i : ℕ) → a ≤ i → i < n → keys a ≤ keys i
  not_below a i p r = elim (dec_lt a i) [
    | yes q ↦ omega (arith, increasing a i q r)
    | no q ↦ let same : a ≡ i = omega (arith, q) in omega (arith, ap keys same)
  ]

  -- Between the keys before `left`, which are smaller, and those from `right` on, which are greater, the
  -- loop finds the position.
  pub loop-Position :
      (fuel key left right : ℕ)
      → left ≤ right
      → right ≤ n
      → right - left ≤ fuel
      → ((i : ℕ) → i < left → keys i < key)
      → ((i : ℕ) → right ≤ i → i < n → key < keys i)
      → (c : ℕ) × (binary_search key_at key fuel left right ≡ ok c) × Position keys n key c
  loop-Position zero key left right h k f low high =
      let same : left ≡ right = omega arith in
      (
        left,
        found_empty key_at key left right same,
        record {
          within = omega arith;
          smaller = low;
          not_smaller = λ i p q. omega (arith, high i (omega arith) q);
        },
      )
  loop-Position (suc fuel) key left right h k f low high = elim (Bool-cases (left == right)) [
    | inl e ↦
        let same : left ≡ right = (==_iff left right).0 e in
        (
          left,
          runs_end key_at fuel key left right e,
          record {
            within = omega arith;
            smaller = low;
            not_smaller = λ i p q. omega (arith, high i (omega arith) q);
          },
        )
    | inr e ↦
        let apart : left < right = ground (arith, e) in
        let index = left + (right - left) / 2 in
        let inside : index < right = omega arith in
        let read = reads index (omega arith) in
        elim (Bool-cases (key == keys index)) [
          | inl q ↦
              let same : key ≡ keys index = (==_iff key (keys index)).0 q in
              (
                index,
                runs_round key_at fuel key left right _ e read ∙ rw q refl,
                record {
                  within = omega arith;
                  smaller = λ i p. omega (arith, increasing i index p (omega arith));
                  not_smaller = λ i p r. omega (arith, not_below index i p r);
                },
              )
          | inr q ↦ elim (Bool-cases (ltb key (keys index))) [
            | inl b ↦
                let less : key < keys index = ground (arith, b) in
                let (c, runs, pos) =
                  loop-Position fuel key left index (omega arith) (omega arith) (omega arith) low
                    (λ i p r. omega (arith, not_below index i p r)) in
                (c, runs_round key_at fuel key left right _ e read ∙ rw (q, b) runs, pos)
            | inr b ↦
                let more : keys index < key = ground (arith, b, q) in
                let (c, runs, pos) =
                  loop-Position fuel key (index + 1) right (omega arith) k (omega arith)
                    (λ i p. omega (arith, not_below i index (omega arith) (omega arith))) high in
                (c, runs_round key_at fuel key left right _ e read ∙ rw (q, b) runs, pos)
          ]
        ]
  ]
