-- ===== src/Query/Ordering/Sorted.antt =====
-- What `quicksort` of learndb/virtual_machine.py returns.
use Prim.Native.Nat.Ordering.{lt, gt}
use mathlib.Core.List.{Perm}
use mathlib.Core.List.Perm
use learndb_py.Prelude.{
  ℕ, zero, suc, ◌/◌, ◌≤◌, ◌<◌, ◌≡◌, refl, sym, subst, inl, inr, true, false, List, [], ◌∷◌, ◌++◌,
  arith, length, leb, get_elem?, some, Result, ok, All, All-append, Bool-cases, ℤ,
}
use learndb_py.Bytes.Utf8.{Text}
use learndb_py.Datatypes.{FloatFormat, int, str}
use learndb_py.Values.{FloatOps}
use learndb_py.Syntax.{OrderedColumn}
use learndb_py.Rows.{Row, row_get}
use learndb_py.Query.Ordering.{
  select_rows, goes_left, is_same, goes_right, pivot_of, sort_within, quicksort,
}
use learndb_py.Query.Ordering.Compare.{cmp_rows}
use learndb_py.Query.Ordering.Tests.{
  is_lt, is_eq, is_gt, AreComparable, goes_left-cmp_rows, is_same-cmp_rows, goes_right-cmp_rows,
}
use learndb_py.Query.Ordering.Partition.{select_rows-keep, get_elem?-All, get_elem?-some}
use learndb_py.Query.Ordering.Parts.{
  Ascending, IsUniform, All-zip, All-map, Side, parts-Ascending, left_of, middle_of, right_of,
  left-Side, middle-Side, right-Side, left-shorter, right-shorter, sides-perm, sides-All,
  sides-IsUniform,
}

module _ (f : FloatFormat) (o : FloatOps f) where
  open f use {Real}

  comparable_column :
      (c : OrderedColumn) (rs : List (Row Real)) (i : ℕ) (p : Row Real)
      → get_elem? rs i ≡ some p
      → IsUniform rs c
      → All (λ r. AreComparable f o r p c) rs
  comparable_column c rs i p e (inl h) =
      let HasInt : Row Real → Type 0 = λ r. (k : ℤ) × (row_get r c.column ≡ ok (int k)) in
      let here : HasInt p = get_elem?-All HasInt rs i p e h in
      All-map HasInt (λ r. AreComparable f o r p c) rs (λ r g. inl (g.0, here.0, g.1, here.1)) h
  comparable_column c rs i p e (inr h) =
      let HasText : Row Real → Type 0 = λ r. (s : Text) × (row_get r c.column ≡ ok (str s)) in
      let here : HasText p = get_elem?-All HasText rs i p e h in
      All-map HasText (λ r. AreComparable f o r p c) rs (λ r g. inr (g.0, here.0, g.1, here.1)) h

  nothing : (rs : List (Row Real)) → All (λ r. Unit {0}) rs
  nothing [] = tt
  nothing (r ∷ rs) = (tt, nothing rs)

  comparable :
      (cs : List OrderedColumn) (rs : List (Row Real)) (i : ℕ) (p : Row Real)
      → get_elem? rs i ≡ some p
      → All (IsUniform rs) cs
      → All (λ r. All (AreComparable f o r p) cs) rs
  comparable [] rs i p e h = nothing rs
  comparable (c ∷ cs) rs i p e h =
      All-zip (λ r. AreComparable f o r p c) (λ r. All (AreComparable f o r p) cs) rs
        (comparable_column c rs i p e h.0) (comparable cs rs i p e h.1)

  -- The three loops find the three parts.
  select_left :
      (cs : List OrderedColumn) (rs : List (Row Real)) (p : Row Real)
      → All (λ r. All (AreComparable f o r p) cs) rs
      → select_rows (λ r. goes_left f o cs r p) rs ≡ ok (left_of cs p rs)
  unfolding left_of
  select_left cs rs p h =
      select_rows-keep (λ r. goes_left f o cs r p) (λ r. is_lt (cmp_rows cs r p)) rs
        (All-map (λ r. All (AreComparable f o r p) cs)
          (λ r. goes_left f o cs r p ≡ ok (is_lt (cmp_rows cs r p))) rs
          (λ r. goes_left-cmp_rows f o cs r p) h)

  select_middle :
      (cs : List OrderedColumn) (rs : List (Row Real)) (p : Row Real)
      → All (λ r. All (AreComparable f o r p) cs) rs
      → select_rows (λ r. is_same f o cs r p) rs ≡ ok (middle_of cs p rs)
  unfolding middle_of
  select_middle cs rs p h =
      select_rows-keep (λ r. is_same f o cs r p) (λ r. is_eq (cmp_rows cs r p)) rs
        (All-map (λ r. All (AreComparable f o r p) cs)
          (λ r. is_same f o cs r p ≡ ok (is_eq (cmp_rows cs r p))) rs
          (λ r. is_same-cmp_rows f o cs r p) h)

  select_right :
      (cs : List OrderedColumn) (rs : List (Row Real)) (p : Row Real)
      → All (λ r. All (AreComparable f o r p) cs) rs
      → select_rows (λ r. goes_right f o cs r p) rs ≡ ok (right_of cs p rs)
  unfolding right_of
  select_right cs rs p h =
      select_rows-keep (λ r. goes_right f o cs r p) (λ r. is_gt (cmp_rows cs r p)) rs
        (All-map (λ r. All (AreComparable f o r p) cs)
          (λ r. goes_right f o cs r p ≡ ok (is_gt (cmp_rows cs r p))) rs
          (λ r. goes_right-cmp_rows f o cs r p) h)

  -- A sorted arrangement, and that it has what all of the records have.
  abbrev Sorts : List OrderedColumn → List (Row Real) → Result (List (Row Real)) → Type 1
  Sorts cs rs m =
      (out : List (Row Real)) × (m ≡ ok out)
      × Perm out rs
      × Ascending cs out
      × ((P : Row Real → Type 0) → All P rs → All P out)

  short_Sorts :
      (cs : List OrderedColumn) (rs : List (Row Real)) → length rs ≤ 1 → Sorts cs rs (ok rs)
  short_Sorts cs [] h = ([], refl, Perm.refl [], tt, λ P k. k)
  short_Sorts cs (r ∷ []) h = (r ∷ [], refl, Perm.refl (r ∷ []), (tt, tt), λ P k. k)
  short_Sorts cs (r ∷ q ∷ rs) h = absurd (omega arith)

  -- A round, with the two recursive calls.
  round_Sorts :
      (fuel : ℕ) (cs : List OrderedColumn) (rs : List (Row Real)) (p : Row Real)
      → leb (length rs) 1 ≡ false
      → pivot_of f o rs ≡ ok p
      → All (λ r. All (AreComparable f o r p) cs) rs
      → Sorts cs (left_of cs p rs) (sort_within f o fuel cs (left_of cs p rs))
      → Sorts cs (right_of cs p rs) (sort_within f o fuel cs (right_of cs p rs))
      → Sorts cs rs (sort_within f o (suc fuel) cs rs)
  unfolding sort_within
  round_Sorts fuel cs rs p long e h (l, runs_l, perm_l, sorted_l, all_l)
        (r, runs_r, perm_r, sorted_r, all_r) =
      let m = middle_of cs p rs in
      (
        l ++ (m ++ r),
        rw
            (
              long,
              e,
              select_left cs rs p h,
              select_middle cs rs p h,
              select_right cs rs p h,
              runs_l,
              runs_r,
            )
            refl,
        Perm.trans (Perm.append perm_l (Perm.append_left m perm_r)) (sides-perm cs p rs),
        parts-Ascending cs p l m r sorted_l sorted_r (all_l (Side cs p lt) (left-Side cs p rs))
            (middle-Side cs p rs) (all_r (Side cs p gt) (right-Side cs p rs)),
        λ P k.
            let (kl, km, kr) = sides-All cs p P rs k in
            All-append P l (m ++ r) (all_l P kl) (All-append P m r km (all_r P kr)),
      )

  chosen :
      (rs : List (Row Real)) (p : Row Real)
      → get_elem? rs (length rs / 2) ≡ some p
      → pivot_of f o rs ≡ ok p
  chosen rs p h = rw (h, pivot_of) refl

  short_run :
      (fuel : ℕ) (cs : List OrderedColumn) (rs : List (Row Real))
      → leb (length rs) 1 ≡ true
      → sort_within f o (suc fuel) cs rs ≡ ok rs
  unfolding sort_within
  short_run fuel cs rs h = rw h refl

  sort_within-Sorts :
      (fuel : ℕ) (cs : List OrderedColumn) (rs : List (Row Real))
      → length rs < fuel
      → All (IsUniform rs) cs
      → Sorts cs rs (sort_within f o fuel cs rs)
  sort_within-Sorts zero cs rs h u = absurd (omega arith)
  sort_within-Sorts (suc fuel) cs rs h u = elim (Bool-cases (leb (length rs) 1)) [
    | inl short ↦
        subst (Sorts cs rs) (sym (short_run fuel cs rs short))
          (short_Sorts cs rs (ground (arith, short)))
    | inr long ↦
        let i = length rs / 2 in
        let (p, e) = get_elem?-some rs i (ground (arith, long)) in
        let (ul, ur) = sides-IsUniform cs p cs rs u in
        round_Sorts fuel cs rs p long (chosen rs p e) (comparable cs rs i p e u)
          (sort_within-Sorts fuel cs (left_of cs p rs) (omega (arith, left-shorter cs p rs i e)) ul)
          (sort_within-Sorts fuel cs (right_of cs p rs) (omega (arith, right-shorter cs p rs i e))
            ur)
  ]

  -- Where the values of each ordering column are all ints or all texts, sorting ends, with the records in
  -- another order: no record stands before one that the order by clause puts first.
  pub quicksort-Ascending :
      (cs : List OrderedColumn) (rs : List (Row Real))
      → All (IsUniform rs) cs
      → (out : List (Row Real)) × (quicksort f o cs rs ≡ ok out) × Perm out rs × Ascending cs out
  unfolding quicksort
  quicksort-Ascending cs rs h =
      let (out, runs, perm, sorted, all) =
        sort_within-Sorts (suc (length rs)) cs rs (omega arith) h in
      (out, runs, perm, sorted)
