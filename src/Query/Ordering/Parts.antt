-- ===== src/Query/Ordering/Parts.antt =====
-- The parts around the pivot of `quicksort` in learndb/virtual_machine.py, by the one comparison of records.
use Prim.Native.Nat.{Ordering}
use Prim.Native.Nat.Ordering.{lt, eq, gt}
use mathlib.Core.List.{Perm}
use learndb_py.Prelude.{
  ℕ, ◌<◌, ◌≡◌, ◌≢◌, ap, ◌⊎◌, inl, inr, Bool, true, List, [], ◌∷◌, ◌++◌, arith, length, get_elem?,
  some, ok, All, All-append, ℤ,
}
use learndb_py.Bytes.Utf8.{Text}
use learndb_py.Datatypes.{int, str}
use learndb_py.Syntax.{OrderedColumn}
use learndb_py.Rows.{Row, row_get}
use learndb_py.Query.Ordering.Compare.{IsOrder, cmp_rows, cmp_rows-IsOrder}
use learndb_py.Query.Ordering.Tests.{is_lt, is_eq, is_gt}
use learndb_py.Query.Ordering.Partition.{keep, All-keep, keep-All, length-keep-lt, parts-perm}

module _ {R : Type 0} where
  -- No record comes before a smaller one.
  abbrev pub Ascending : List OrderedColumn → List (Row R) → Type 0
  Ascending cs [] = Unit {0}
  Ascending cs (r ∷ rs) = All (λ q. cmp_rows cs r q ≢ gt) rs × Ascending cs rs

  -- The values of a column are all ints or all texts.
  abbrev pub IsUniform : List (Row R) → OrderedColumn → Type 0
  IsUniform rs c =
      All (λ (r : Row R). (i : ℤ) × (row_get r c.column ≡ ok (int i))) rs
      ⊎ All (λ (r : Row R). (s : Text) × (row_get r c.column ≡ ok (str s))) rs

  Ascending-append :
      (cs : List OrderedColumn) (xs ys : List (Row R))
      → Ascending cs xs
      → Ascending cs ys
      → All (λ x. All (λ y. cmp_rows cs x y ≢ gt) ys) xs
      → Ascending cs (xs ++ ys)
  Ascending-append cs [] ys h k b = k
  Ascending-append cs (x ∷ xs) ys h k b =
      (All-append (λ q. cmp_rows cs x q ≢ gt) xs ys h.0 b.0, Ascending-append cs xs ys h.1 k b.1)

  pub All-map :
      (P Q : Row R → Type 0) (rs : List (Row R)) → ((r : Row R) → P r → Q r) → All P rs → All Q rs
  All-map P Q [] g h = tt
  All-map P Q (r ∷ rs) g h = (g r h.0, All-map P Q rs g h.1)

  -- Each of some records against each of others.
  All-cross :
      (P Q : Row R → Type 0) (T : Row R → Row R → Type 0) (xs ys : List (Row R))
      → ((x y : Row R) → P x → Q y → T x y)
      → All P xs
      → All Q ys
      → All (λ x. All (T x) ys) xs
  All-cross P Q T xs ys g h k =
      All-map P (λ x. All (T x) ys) xs (λ x px. All-map Q (T x) ys (λ y. g x y px) k) h

  pub All-zip :
      (P Q : Row R → Type 0) (rs : List (Row R)) → All P rs → All Q rs → All (λ r. P r × Q r) rs
  All-zip P Q [] h k = tt
  All-zip P Q (r ∷ rs) h k = ((h.0, k.0), All-zip P Q rs h.1 k.1)

  pub IsUniform-keep :
      (t : Row R → Bool) (rs : List (Row R)) (cs : List OrderedColumn)
      → All (IsUniform rs) cs
      → All (IsUniform (keep t rs)) cs
  IsUniform-keep t rs [] h = tt
  IsUniform-keep t rs (c ∷ cs) h = (
    elim h.0 [
      | inl k ↦ inl (All-keep (λ r. (i : ℤ) × (row_get r c.column ≡ ok (int i))) t rs k)
      | inr k ↦ inr (All-keep (λ r. (s : Text) × (row_get r c.column ≡ ok (str s))) t rs k)
    ],
    IsUniform-keep t rs cs h.1,
  )

  -- Where a record stands beside the pivot.
  abbrev pub Side : List OrderedColumn → Row R → Ordering → Row R → Type 0
  Side cs p x r = cmp_rows cs r p ≡ x

  module _ (cs : List OrderedColumn) (p : Row R) where
    lt-eq : (x y : Row R) → Side cs p lt x → Side cs p eq y → cmp_rows cs x y ≢ gt
    lt-eq x y h k =
        let o : IsOrder (cmp_rows {R = R} cs) = cmp_rows-IsOrder cs in
        ground (arith, o.flips y p, o.same p y x, o.flips x p, o.flips x y)

    lt-gt : (x y : Row R) → Side cs p lt x → Side cs p gt y → cmp_rows cs x y ≢ gt
    lt-gt x y h k =
        let o : IsOrder (cmp_rows {R = R} cs) = cmp_rows-IsOrder cs in
        ground (arith, o.flips y p, o.trans x p y)

    eq-eq : (x y : Row R) → Side cs p eq x → Side cs p eq y → cmp_rows cs x y ≢ gt
    eq-eq x y h k =
        let o : IsOrder (cmp_rows {R = R} cs) = cmp_rows-IsOrder cs in
        ground (arith, o.flips y p, o.same x p y)

    eq-gt : (x y : Row R) → Side cs p eq x → Side cs p gt y → cmp_rows cs x y ≢ gt
    eq-gt x y h k =
        let o : IsOrder (cmp_rows {R = R} cs) = cmp_rows-IsOrder cs in
        ground (arith, o.flips y p, o.same x p y)

    middle-Ascending : (m : List (Row R)) → All (Side cs p eq) m → Ascending cs m
    middle-Ascending [] h = tt
    middle-Ascending (r ∷ m) h = (
      All-map (Side cs p eq) (λ q. cmp_rows cs r q ≢ gt) m (λ q. eq-eq r q h.0) h.1,
      middle-Ascending m h.1,
    )

    pub parts-Ascending :
        (l m r : List (Row R))
        → Ascending cs l
        → Ascending cs r
        → All (Side cs p lt) l
        → All (Side cs p eq) m
        → All (Side cs p gt) r
        → Ascending cs (l ++ (m ++ r))
    parts-Ascending l m r al ar hl hm hr =
        let high : Ascending cs (m ++ r) =
          Ascending-append cs m r (middle-Ascending m hm) ar (
            All-cross (Side cs p eq) (Side cs p gt) (λ x y. cmp_rows cs x y ≢ gt) m r eq-gt hm
              hr) in
        Ascending-append cs l (m ++ r) al high (
          All-map (λ x. All (λ y. cmp_rows cs x y ≢ gt) m × All (λ y. cmp_rows cs x y ≢ gt) r)
            (λ x. All (λ y. cmp_rows cs x y ≢ gt) (m ++ r)) l
            (λ x b. All-append (λ y. cmp_rows cs x y ≢ gt) m r b.0 b.1)
            (All-zip (λ x. All (λ y. cmp_rows cs x y ≢ gt) m)
              (λ x. All (λ y. cmp_rows cs x y ≢ gt) r) l
              (All-cross (Side cs p lt) (Side cs p eq) (λ x y. cmp_rows cs x y ≢ gt) l m lt-eq hl
                hm)
              (All-cross (Side cs p lt) (Side cs p gt) (λ x y. cmp_rows cs x y ≢ gt) l r lt-gt hl
                hr)))

    unfoldable pub left_of : List (Row R) → List (Row R)
    left_of rs = keep (λ r. is_lt (cmp_rows cs r p)) rs

    unfoldable pub middle_of : List (Row R) → List (Row R)
    middle_of rs = keep (λ r. is_eq (cmp_rows cs r p)) rs

    unfoldable pub right_of : List (Row R) → List (Row R)
    right_of rs = keep (λ r. is_gt (cmp_rows cs r p)) rs

    pub left-Side : (rs : List (Row R)) → All (Side cs p lt) (left_of rs)
    unfolding left_of
    left-Side rs =
        All-map (λ r. is_lt (cmp_rows cs r p) ≡ true) (Side cs p lt) (left_of rs)
          (λ r h. ground arith) (keep-All (λ r. is_lt (cmp_rows cs r p)) rs)

    pub middle-Side : (rs : List (Row R)) → All (Side cs p eq) (middle_of rs)
    unfolding middle_of
    middle-Side rs =
        All-map (λ r. is_eq (cmp_rows cs r p) ≡ true) (Side cs p eq) (middle_of rs)
          (λ r h. ground arith) (keep-All (λ r. is_eq (cmp_rows cs r p)) rs)

    pub right-Side : (rs : List (Row R)) → All (Side cs p gt) (right_of rs)
    unfolding right_of
    right-Side rs =
        All-map (λ r. is_gt (cmp_rows cs r p) ≡ true) (Side cs p gt) (right_of rs)
          (λ r h. ground arith) (keep-All (λ r. is_gt (cmp_rows cs r p)) rs)

    self_eq : cmp_rows cs p p ≡ eq
    self_eq =
        let o : IsOrder (cmp_rows {R = R} cs) = cmp_rows-IsOrder cs in ground (arith, o.flips p p)

    pub left-shorter :
        (rs : List (Row R)) (i : ℕ) → get_elem? rs i ≡ some p → length (left_of rs) < length rs
    unfolding left_of
    left-shorter rs i h = length-keep-lt (λ r. is_lt (cmp_rows cs r p)) rs i p h (ap is_lt self_eq)

    pub right-shorter :
        (rs : List (Row R)) (i : ℕ) → get_elem? rs i ≡ some p → length (right_of rs) < length rs
    unfolding right_of
    right-shorter rs i h = length-keep-lt (λ r. is_gt (cmp_rows cs r p)) rs i p h (ap is_gt self_eq)

    pub sides-perm : (rs : List (Row R)) → Perm (left_of rs ++ (middle_of rs ++ right_of rs)) rs
    unfolding left_of middle_of right_of
    sides-perm rs = parts-perm (λ r. cmp_rows cs r p) rs

    pub sides-All :
        (P : Row R → Type 0) (rs : List (Row R))
        → All P rs
        → All P (left_of rs) × All P (middle_of rs) × All P (right_of rs)
    unfolding left_of middle_of right_of
    sides-All P rs h = (
      All-keep P (λ r. is_lt (cmp_rows cs r p)) rs h,
      All-keep P (λ r. is_eq (cmp_rows cs r p)) rs h,
      All-keep P (λ r. is_gt (cmp_rows cs r p)) rs h,
    )

    pub sides-IsUniform :
        (ds : List OrderedColumn) (rs : List (Row R))
        → All (IsUniform rs) ds
        → All (IsUniform (left_of rs)) ds × All (IsUniform (right_of rs)) ds
    unfolding left_of right_of
    sides-IsUniform ds rs h = (
      IsUniform-keep (λ r. is_lt (cmp_rows cs r p)) rs ds h,
      IsUniform-keep (λ r. is_gt (cmp_rows cs r p)) rs ds h,
    )
