-- ===== src/Bytes/Parts.antt =====
-- Slices of slices, and slices within what a slice assignment wrote.
use learndb_py.Prelude.{
  ℕ, zero, suc, ◌+◌, ◌-◌, ◌≤◌, ◌≡◌, refl, sym, ap, ◌∙◌, [], ◌∷◌, arith, length, take, drop,
  drop-drop,
}
use learndb_py.Bytes.Slices.{Bytes, slice, splice, slice-splice_self}

take-drop-take :
    (n c m : ℕ) (xs : Bytes) → n + c ≤ m → take n (drop c (take m xs)) ≡ take n (drop c xs)
unfolding take drop
take-drop-take zero c m xs h = refl
take-drop-take (suc n) c zero xs h = absurd (omega arith)
take-drop-take (suc n) c (suc m) [] h = refl
take-drop-take (suc n) zero (suc m) (x ∷ xs) h =
    ap (λ (t : Bytes). x ∷ t) (take-drop-take n zero m xs (omega arith))
take-drop-take (suc n) (suc c) (suc m) (x ∷ xs) h = take-drop-take (suc n) c m xs (omega arith)

pub slice-slice :
    (xs : Bytes) (a b c d : ℕ)
    → c ≤ d
    → a + d ≤ b
    → slice (slice xs a b) c d ≡ slice xs (a + c) (a + d)
unfolding slice
slice-slice xs a b c d h k =
    let e : d - c ≡ a + d - (a + c) = omega arith in
    take-drop-take (d - c) c (b - a) (drop a xs) (omega arith)
    ∙ ap (take (d - c)) (drop-drop a c xs)
    ∙ ap (λ (t : ℕ). take t (drop (a + c) xs)) e

-- A slice within what a slice assignment wrote.
pub slice-splice_within :
    (xs v : Bytes) (a b c d : ℕ)
    → b ≡ a + length v
    → a ≤ length xs
    → a ≤ c
    → c ≤ d
    → d ≤ b
    → slice (splice xs a b v) c d ≡ slice v (c - a) (d - a)
slice-splice_within xs v a b c d e h p q r =
    let s = splice xs a b v in
    let same_c : c ≡ a + (c - a) = omega arith in
    let same_d : d ≡ a + (d - a) = omega arith in
    ap (λ (x : ℕ). slice s x d) same_c
    ∙ ap (slice s (a + (c - a))) same_d
    ∙ sym (slice-slice s a b (c - a) (d - a) (omega arith) (omega arith))
    ∙ ap (λ (x : Bytes). slice x (c - a) (d - a)) (slice-splice_self xs v a b e h)

pub slice-same : (xs : Bytes) {a b c d : ℕ} → a ≡ c → b ≡ d → slice xs a b ≡ slice xs c d
slice-same xs {b = b} {c = c} p q = ap (λ (x : ℕ). slice xs x b) p ∙ ap (slice xs c) q

pub splice-same : (xs v : Bytes) {a b c d : ℕ} → a ≡ c → b ≡ d → splice xs a b v ≡ splice xs c d v
splice-same xs v {b = b} {c = c} p q =
    ap (λ (x : ℕ). splice xs x b v) p ∙ ap (λ (x : ℕ). splice xs c x v) q
