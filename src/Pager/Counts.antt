-- ===== src/Pager/Counts.antt =====
-- How often a page number stands in the lists of the pager.
use learndb_py.Prelude.{ℕ, ◌+◌, ◌<◌, ◌≡◌, List, [], ◌∷◌, ◌++◌, arith, ◌==◌, if◌then◌else◌}
use mathlib.Core.List.{reverse, reverse_aux}
use learndb_py.Pager.File.{sort, insert}

-- How often `n` stands in a list.
abbrev pub count : ℕ → List ℕ → ℕ
count n [] = 0
count n (m ∷ ms) = (if n == m then 1 else 0) + count n ms

abbrev pub remove : ℕ → List ℕ → List ℕ
remove n [] = []
remove n (m ∷ ms) = let rest = remove n ms in if n == m then ms else m ∷ rest

pub count-append : (n : ℕ) (xs ys : List ℕ) → count n (xs ++ ys) ≡ count n xs + count n ys
count-append n [] ys = omega arith
count-append n (x ∷ xs) ys = omega (arith, count-append n xs ys)

pub count-remove :
    (m n : ℕ) (xs : List ℕ)
    → 0 < count n xs
    → count m xs ≡ (if m == n then 1 else 0) + count m (remove n xs)
count-remove m n [] h = absurd (omega arith)
count-remove m n (x ∷ xs) h = ground (arith, count-remove m n xs)

count-reverse_aux : (n : ℕ) (xs ys : List ℕ) → count n (reverse_aux xs ys) ≡ count n xs + count n ys
count-reverse_aux n [] ys = omega arith
count-reverse_aux n (x ∷ xs) ys = omega (arith, count-reverse_aux n xs (x ∷ ys))

pub count-reverse : (n : ℕ) (xs : List ℕ) → count n (reverse xs) ≡ count n xs
count-reverse n xs = omega (arith, count-reverse_aux n xs [])

count-insert :
    (n m : ℕ) (xs : List ℕ) → count n (insert m xs) ≡ (if n == m then 1 else 0) + count n xs
unfolding insert
count-insert n m [] = omega arith
count-insert n m (x ∷ xs) = ground (arith, count-insert n m xs)

pub count-sort : (n : ℕ) (xs : List ℕ) → count n (sort xs) ≡ count n xs
unfolding sort
count-sort n [] = omega arith
count-sort n (x ∷ xs) = omega (arith, count-sort n xs, count-insert n x (sort xs))
