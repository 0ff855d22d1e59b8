-- ===== src/Bytes/Slices.antt =====
-- Slices `xs[a:b]` and slice assignment `xs[a:b] = v` of Python, at indices that are not negative.
use learndb_py.Prelude.{
  ℕ, ◌+◌, ◌-◌, ◌≤◌, max, ◌≡◌, refl, sym, ap, ◌∙◌, List, ◌++◌, arith, length, take, drop,
  length-append, length-take, length-drop, take-append, drop-append, drop-append_add, drop-drop,
  take-append-drop, take-drop-append,
}
use native.Mathlib.Decide.{dec_lt}

abbrev pub Bytes : Type 0
Bytes = List ℕ

-- `xs[a:b]`, clamped at the end as Python does.
unfoldable pub slice : Bytes → ℕ → ℕ → Bytes
slice xs a b = take (b - a) (drop a xs)

-- `xs[a:b] = v`: the list grows or shrinks by the difference of the lengths.
unfoldable pub splice : Bytes → ℕ → ℕ → Bytes → Bytes
splice xs a b v = take a xs ++ (v ++ drop (max a b) xs)

pub length-slice : (xs : Bytes) (a b : ℕ) → b ≤ length xs → length (slice xs a b) ≡ b - a
unfolding slice
length-slice xs a b h = omega (arith, length-take (b - a) (drop a xs), length-drop a xs)

-- What stands between a front and a rest is read by their lengths.
pub slice-append :
    (pre mid post : Bytes) (a b : ℕ)
    → a ≡ length pre
    → b ≡ a + length mid
    → slice (pre ++ (mid ++ post)) a b ≡ mid
unfolding slice
slice-append pre mid post a b p q =
    let e : b - a ≡ length mid = omega arith in rw (e, p) (rw drop-append (take-append mid post))

pub length-splice :
    (xs v : Bytes) (a b : ℕ)
    → b ≡ a + length v
    → b ≤ length xs
    → length (splice xs a b v) ≡ length xs
unfolding splice
length-splice xs v a b e h = omega (
  arith,
  length-append (take a xs) (v ++ drop (max a b) xs),
  length-append v (drop (max a b) xs),
  length-take a xs,
  length-drop (max a b) xs,
)

-- A slice reads back what was assigned to it.
pub slice-splice_self :
    (xs v : Bytes) (a b : ℕ) → b ≡ a + length v → a ≤ length xs → slice (splice xs a b v) a b ≡ v
unfolding splice
slice-splice_self xs v a b e h =
    slice-append (take a xs) v (drop (max a b) xs) a b (omega (arith, length-take a xs)) e

-- A slice that ends within the front of an append.
pub slice_front :
    (pre post : Bytes) (c d : ℕ) → d ≤ length pre → slice (pre ++ post) c d ≡ slice pre c d
unfolding slice take
slice_front pre post c d h = elim (dec_lt c d) [
  | yes p ↦ take-drop-append (d - c) c pre post (omega arith)
  | no p ↦ let e : d - c ≡ 0 = omega arith in rw e
]

-- An assignment leaves every slice that ends before it starts.
pub slice-splice_below :
    (xs v : Bytes) (a b c d : ℕ)
    → d ≤ a
    → a ≤ length xs
    → slice (splice xs a b v) c d ≡ slice xs c d
unfolding splice
slice-splice_below xs v a b c d p h =
    slice_front (take a xs) (v ++ drop (max a b) xs) c d (omega (arith, length-take a xs))
    ∙ sym (slice_front (take a xs) (drop a xs) c d (omega (arith, length-take a xs)))
    ∙ rw (take-append-drop a xs) refl

-- An assignment of the slice's length leaves every slice that starts after it ends.
pub slice-splice_above :
    (xs v : Bytes) (a b c d : ℕ)
    → b ≡ a + length v
    → b ≤ c
    → b ≤ length xs
    → slice (splice xs a b v) c d ≡ slice xs c d
unfolding slice splice
slice-splice_above xs v a b c d e p h =
    let k : c ≡ length (take a xs) + (length v + (c - b)) = omega (arith, length-take a xs) in
    let m : max a b ≡ b = omega arith in
    let r : drop c (take a xs ++ (v ++ drop (max a b) xs)) ≡ drop c xs =
      ap (λ (t : ℕ). drop t (take a xs ++ (v ++ drop (max a b) xs))) k
      ∙ drop-append_add (length v + (c - b)) (take a xs) (v ++ drop (max a b) xs)
      ∙ drop-append_add (c - b) v (drop (max a b) xs)
      ∙ drop-drop (max a b) (c - b) xs
      ∙ ap (λ (t : ℕ). drop t xs) (omega arith) in
    ap (take (d - c)) r
