-- ===== src/Query/Ordering/Tests.antt =====
-- The tests of `quicksort` in learndb/virtual_machine.py, on records whose values in each column are all
-- ints or all texts, beside the one comparison of records.
use Prim.Native.Nat.{Ordering}
use Prim.Native.Nat.Ordering.{lt, eq, gt}
use learndb_py.Prelude.{
  ◌≡◌, refl, ◌⊎◌, inl, inr, Bool, true, false, not, List, [], ◌∷◌, arith, Result, ok, ℤ, All,
  if◌then◌else◌,
}
use learndb_py.Bytes.Utf8.{Text}
use learndb_py.Names.{text_eq}
use learndb_py.Datatypes.{FloatFormat, Value, int, str}
use learndb_py.Values.{FloatOps, less_values, equal_values, less_text}
use learndb_py.Syntax.{OrderedColumn, OrderingQualifier, ascending, descending}
use learndb_py.Rows.{Row, row_get}
use learndb_py.Query.Ordering.{decide_by, goes_left, is_same, goes_right}
use learndb_py.Query.Ordering.Compare.{
  lex, turn, cmp_int, cmp_text, cmp_value, cmp_column, cmp_rows,
}

abbrev pub is_lt : Ordering → Bool
is_lt lt = true
is_lt _ = false

abbrev pub is_eq : Ordering → Bool
is_eq eq = true
is_eq _ = false

abbrev pub is_gt : Ordering → Bool
is_gt gt = true
is_gt _ = false

less_text-cmp_text : (s t : Text) → less_text s t ≡ is_lt (cmp_text s t)
unfolding less_text cmp_text
less_text-cmp_text [] [] = refl
less_text-cmp_text [] (d ∷ t) = refl
less_text-cmp_text (c ∷ s) [] = refl
less_text-cmp_text (c ∷ s) (d ∷ t) = ground (arith, less_text-cmp_text s t)

more_text-cmp_text : (s t : Text) → less_text t s ≡ is_gt (cmp_text s t)
unfolding less_text cmp_text
more_text-cmp_text [] [] = refl
more_text-cmp_text [] (d ∷ t) = refl
more_text-cmp_text (c ∷ s) [] = refl
more_text-cmp_text (c ∷ s) (d ∷ t) = ground (arith, more_text-cmp_text s t)

text_eq-cmp_text : (s t : Text) → text_eq s t ≡ is_eq (cmp_text s t)
unfolding text_eq cmp_text
text_eq-cmp_text [] [] = refl
text_eq-cmp_text [] (d ∷ t) = refl
text_eq-cmp_text (c ∷ s) [] = refl
text_eq-cmp_text (c ∷ s) (d ∷ t) = ground (arith, text_eq-cmp_text s t)

module _ (f : FloatFormat) (o : FloatOps f) where
  open f use {Real}

  -- The operators on two values agree with the comparison.
  record Compared (v p : Value Real) : Type 0 where
    less : less_values f o v p ≡ ok (is_lt (cmp_value v p))
    more : less_values f o p v ≡ ok (is_gt (cmp_value v p))
    alike : equal_values f o v p ≡ is_eq (cmp_value v p)

  int-Compared : (i j : ℤ) → Compared (int i) (int j)
  unfolding less_values equal_values cmp_value cmp_int
  int-Compared i j = record { less = ground arith; more = ground arith; alike = ground arith }

  str-Compared : (s t : Text) → Compared (str s) (str t)
  unfolding less_values equal_values cmp_value
  str-Compared s t = record {
    less = rw (less_text-cmp_text s t) refl;
    more = rw (more_text-cmp_text s t) refl;
    alike = text_eq-cmp_text s t;
  }

  left_step :
      (q : OrderingQualifier) (v p : Value Real) (rest : Result Bool) (y : Ordering)
      → Compared v p
      → rest ≡ ok (is_lt y)
      → elim q [
        | descending ↦ decide_by f o (less_values f o p v) (less_values f o v p) rest
        | ascending ↦ decide_by f o (less_values f o v p) (less_values f o p v) rest
      ]
        ≡ ok (is_lt (lex (turn q (cmp_value v p)) y))
  unfolding decide_by
  left_step ascending v p rest y c h = rw (c.less, c.more, h) (ground arith)
  left_step descending v p rest y c h = rw (c.less, c.more, h) (ground arith)

  right_step :
      (q : OrderingQualifier) (v p : Value Real) (rest : Result Bool) (y : Ordering)
      → Compared v p
      → rest ≡ ok (is_gt y)
      → elim q [
        | descending ↦ decide_by f o (less_values f o v p) (less_values f o p v) rest
        | ascending ↦ decide_by f o (less_values f o p v) (less_values f o v p) rest
      ]
        ≡ ok (is_gt (lex (turn q (cmp_value v p)) y))
  unfolding decide_by
  right_step ascending v p rest y c h = rw (c.less, c.more, h) (ground arith)
  right_step descending v p rest y c h = rw (c.less, c.more, h) (ground arith)

  same_step :
      (q : OrderingQualifier) (v p : Value Real) (rest : Result Bool) (y : Ordering)
      → Compared v p
      → rest ≡ ok (is_eq y)
      → (if not (equal_values f o v p) then ok false else rest)
        ≡ ok (is_eq (lex (turn q (cmp_value v p)) y))
  same_step ascending v p rest y c h = rw (c.alike, h) (ground arith)
  same_step descending v p rest y c h = rw (c.alike, h) (ground arith)

  -- Two records have values in a column that are comparable.
  abbrev pub AreComparable : Row Real → Row Real → OrderedColumn → Type 0
  AreComparable r p c =
      ((i : ℤ) × (j : ℤ) × (row_get r c.column ≡ ok (int i)) × (row_get p c.column ≡ ok (int j)))
      ⊎ ((s : Text) × (t : Text) × (row_get r c.column ≡ ok (str s))
          × (row_get p c.column ≡ ok (str t)))

  values_of :
      (r p : Row Real) (c : OrderedColumn)
      → AreComparable r p c
      → (v : Value Real) × (w : Value Real) × (row_get r c.column ≡ ok v)
        × (row_get p c.column ≡ ok w)
        × Compared v w
  values_of r p c (inl (i, j, e, q)) = (int i, int j, e, q, int-Compared i j)
  values_of r p c (inr (s, t, e, q)) = (str s, str t, e, q, str-Compared s t)

  pub goes_left-cmp_rows :
      (cs : List OrderedColumn) (r p : Row Real)
      → All (AreComparable r p) cs
      → goes_left f o cs r p ≡ ok (is_lt (cmp_rows cs r p))
  unfolding goes_left cmp_rows cmp_column
  goes_left-cmp_rows [] r p h = refl
  goes_left-cmp_rows (c ∷ cs) r p h =
      let (v, w, e, q, compared) = values_of r p c h.0 in
      rw (e, q)
        (left_step c.qualifier v w (goes_left f o cs r p) (cmp_rows cs r p) compared
          (goes_left-cmp_rows cs r p h.1))

  pub goes_right-cmp_rows :
      (cs : List OrderedColumn) (r p : Row Real)
      → All (AreComparable r p) cs
      → goes_right f o cs r p ≡ ok (is_gt (cmp_rows cs r p))
  unfolding goes_right cmp_rows cmp_column
  goes_right-cmp_rows [] r p h = refl
  goes_right-cmp_rows (c ∷ cs) r p h =
      let (v, w, e, q, compared) = values_of r p c h.0 in
      rw (e, q)
        (right_step c.qualifier v w (goes_right f o cs r p) (cmp_rows cs r p) compared
          (goes_right-cmp_rows cs r p h.1))

  pub is_same-cmp_rows :
      (cs : List OrderedColumn) (r p : Row Real)
      → All (AreComparable r p) cs
      → is_same f o cs r p ≡ ok (is_eq (cmp_rows cs r p))
  unfolding is_same cmp_rows cmp_column
  is_same-cmp_rows [] r p h = refl
  is_same-cmp_rows (c ∷ cs) r p h =
      let (v, w, e, q, compared) = values_of r p c h.0 in
      rw (e, q)
        (same_step c.qualifier v w (is_same f o cs r p) (cmp_rows cs r p) compared
          (is_same-cmp_rows cs r p h.1))
