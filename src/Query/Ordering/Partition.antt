-- ===== src/Query/Ordering/Partition.antt =====
-- The three parts into which `quicksort` of learndb/virtual_machine.py takes the records.
use Prim.Native.Nat.{Ordering}
use Prim.Native.Nat.Ordering.{lt, eq, gt}
use mathlib.Core.List.{Perm, perm_middle}
use mathlib.Core.List.Perm
use learndb_py.Prelude.{
  ℕ, zero, suc, ◌≤◌, ◌<◌, ◌≡◌, refl, subst, inl, inr, Bool, true, false, List, [], ◌∷◌, ◌++◌, arith,
  length, get_elem?, some, Result, ok, All, if◌then◌else◌, Bool-cases,
}
use learndb_py.Rows.{Row}
use learndb_py.Query.Ordering.{select_rows}
use learndb_py.Query.Ordering.Tests.{is_lt, is_eq, is_gt}

module _ {R : Type 0} where
  -- The records that pass a test.
  unfoldable pub keep : (Row R → Bool) → List (Row R) → List (Row R)
  keep test [] = []
  keep test (r ∷ rs) = if test r then r ∷ keep test rs else keep test rs

  pub select_rows-keep :
      (test : Row R → Result Bool) (t : Row R → Bool) (rs : List (Row R))
      → All (λ r. test r ≡ ok (t r)) rs
      → select_rows test rs ≡ ok (keep t rs)
  unfolding select_rows keep
  select_rows-keep test t [] h = refl
  select_rows-keep test t (r ∷ rs) h = rw (h.0, select_rows-keep test t rs h.1) (ground arith)

  pub All-keep :
      (P : Row R → Type 0) (t : Row R → Bool) (rs : List (Row R)) → All P rs → All P (keep t rs)
  unfolding keep
  All-keep P t [] h = tt
  All-keep P t (r ∷ rs) h = elim (Bool-cases (t r)) [
    | inl e ↦ rw e (h.0, All-keep P t rs h.1)
    | inr e ↦ rw e (All-keep P t rs h.1)
  ]

  pub keep-All : (t : Row R → Bool) (rs : List (Row R)) → All (λ r. t r ≡ true) (keep t rs)
  unfolding keep
  keep-All t [] = tt
  keep-All t (r ∷ rs) = elim (Bool-cases (t r)) [
    | inl e ↦ rw e (e, keep-All t rs)
    | inr e ↦ rw e (keep-All t rs)
  ]

  length-keep : (t : Row R → Bool) (rs : List (Row R)) → length (keep t rs) ≤ length rs
  unfolding keep
  length-keep t [] = omega arith
  length-keep t (r ∷ rs) = ground (arith, length-keep t rs)

  -- A part that leaves one of the records out is shorter.
  pub length-keep-lt :
      (t : Row R → Bool) (rs : List (Row R)) (i : ℕ) (p : Row R)
      → get_elem? rs i ≡ some p
      → t p ≡ false
      → length (keep t rs) < length rs
  unfolding keep get_elem?
  length-keep-lt t [] i p h k = cc
  length-keep-lt t (r ∷ rs) zero p h k = ground (arith, length-keep t rs)
  length-keep-lt t (r ∷ rs) (suc i) p h k = ground (arith, length-keep-lt t rs i p)

  pub get_elem?-All :
      (P : Row R → Type 0) (rs : List (Row R)) (i : ℕ) (p : Row R)
      → get_elem? rs i ≡ some p
      → All P rs
      → P p
  unfolding get_elem?
  get_elem?-All P [] i p h k = cc
  get_elem?-All P (r ∷ rs) zero p h k = let same : r ≡ p = cc h in subst P same k.0
  get_elem?-All P (r ∷ rs) (suc i) p h k = get_elem?-All P rs i p h k.1

  pub get_elem?-some :
      (rs : List (Row R)) (i : ℕ) → i < length rs → (p : Row R) × (get_elem? rs i ≡ some p)
  unfolding get_elem?
  get_elem?-some [] i h = absurd (omega arith)
  get_elem?-some (r ∷ rs) zero h = (r, refl)
  get_elem?-some (r ∷ rs) (suc i) h = get_elem?-some rs i (omega arith)

  -- The three parts are the records, in another order.
  pub parts-perm :
      (g : Row R → Ordering) (rs : List (Row R))
      → Perm
          (keep (λ r. is_lt (g r)) rs ++ (keep (λ r. is_eq (g r)) rs ++ keep (λ r. is_gt (g r)) rs))
          rs
  unfolding keep
  parts-perm g [] = Perm.refl []
  parts-perm g (r ∷ rs) = parts_cons (g r) g r rs refl (parts-perm g rs)
    where
      parts_cons :
          (x : Ordering) (g : Row R → Ordering) (r : Row R) (rs : List (Row R))
          → g r ≡ x
          → Perm
              (keep (λ q. is_lt (g q)) rs
                ++ (keep (λ q. is_eq (g q)) rs ++ keep (λ q. is_gt (g q)) rs))
              rs
          → Perm
              (keep (λ q. is_lt (g q)) (r ∷ rs)
                ++ (keep (λ q. is_eq (g q)) (r ∷ rs) ++ keep (λ q. is_gt (g q)) (r ∷ rs)))
              (r ∷ rs)
      parts_cons lt g r rs e p = rw e (Perm.cons r p)
      parts_cons eq g r rs e p = rw e (
          Perm.trans
            (perm_middle (keep (λ q. is_lt (g q)) rs)
              (keep (λ q. is_eq (g q)) rs ++ keep (λ q. is_gt (g q)) rs))
            (Perm.cons r p))
      parts_cons gt g r rs e p = rw e (
          Perm.trans
            (Perm.append_left (keep (λ q. is_lt (g q)) rs)
              (perm_middle (keep (λ q. is_eq (g q)) rs) (keep (λ q. is_gt (g q)) rs)))
            (Perm.trans
              (perm_middle (keep (λ q. is_lt (g q)) rs)
                (keep (λ q. is_eq (g q)) rs ++ keep (λ q. is_gt (g q)) rs))
              (Perm.cons r p)))
