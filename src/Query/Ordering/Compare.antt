-- ===== src/Query/Ordering/Compare.antt =====
-- The order of records that an order by clause of learndb/virtual_machine.py asks for, as one comparison.
use Prim.Native.Nat.{compare, Ordering}
use Prim.Native.Nat.Ordering.{lt, eq, gt}
use learndb_py.Prelude.{
  ℕ, ◌+◌, ◌≡◌, refl, List, [], ◌∷◌, arith, Result, ok, err, ℤ, pos_part, neg_part,
}
use learndb_py.Bytes.Utf8.{Text}
use learndb_py.Datatypes.{Value, null, int, real, str, blob, bool}
use learndb_py.Syntax.{OrderedColumn, OrderingQualifier, ascending, descending}
use learndb_py.Rows.{Row, row_get}

abbrev pub flip : Ordering → Ordering
flip lt = gt
flip eq = eq
flip gt = lt

-- The second comparison where the first one finds no difference.
abbrev pub lex : Ordering → Ordering → Ordering
lex lt y = lt
lex eq y = y
lex gt y = gt

-- A comparison that orders its values, where equal ones need not be the same.
pub record IsOrder {A : Type 0} (cmp : A → A → Ordering) : Type 0 where
  pub flips : (a b : A) → cmp b a ≡ flip (cmp a b)
  pub same : (a b c : A) → cmp a b ≡ eq → cmp a c ≡ cmp b c
  pub trans : (a b c : A) → cmp a b ≡ lt → cmp b c ≡ lt → cmp a c ≡ lt

compare-IsOrder : IsOrder compare
compare-IsOrder = record {
  flips = λ a b. ground arith;
  same = λ a b c h. ground arith;
  trans = λ a b c h k. ground arith;
}

unfoldable pub cmp_int : ℤ → ℤ → Ordering
cmp_int i j = compare (pos_part i + neg_part j) (pos_part j + neg_part i)

cmp_int-IsOrder : IsOrder cmp_int
unfolding cmp_int
cmp_int-IsOrder = record {
  flips = λ a b. ground arith;
  same = λ a b c h. ground arith;
  trans = λ a b c h k. ground arith;
}

module _ {A : Type 0} (p q : A → A → Ordering) where
  lex-IsOrder : IsOrder p → IsOrder q → IsOrder (λ a b. lex (p a b) (q a b))
  lex-IsOrder i j = record {
    flips = λ a b. ground (arith, i.flips a b, j.flips a b);
    same = λ a b c h. ground (arith, i.same a b c, j.same a b c);
    trans = λ a b c h k. ground (
      arith,
      i.same a b c,
      i.trans a b c,
      j.trans a b c,
      i.flips a b,
      i.flips b c,
      i.flips a c,
      i.same b c a,
    );
  }

unfoldable pub cmp_text : Text → Text → Ordering
cmp_text [] [] = eq
cmp_text [] (d ∷ t) = lt
cmp_text (c ∷ s) [] = gt
cmp_text (c ∷ s) (d ∷ t) = lex (compare c d) (cmp_text s t)

cmp_text-flips : (s t : Text) → cmp_text t s ≡ flip (cmp_text s t)
unfolding cmp_text
cmp_text-flips [] [] = refl
cmp_text-flips [] (d ∷ t) = refl
cmp_text-flips (c ∷ s) [] = refl
cmp_text-flips (c ∷ s) (d ∷ t) = ground (arith, cmp_text-flips s t)

cmp_text-same : (s t u : Text) → cmp_text s t ≡ eq → cmp_text s u ≡ cmp_text t u
unfolding cmp_text
cmp_text-same [] [] u h = refl
cmp_text-same [] (d ∷ t) u h = cc
cmp_text-same (c ∷ s) [] u h = cc
cmp_text-same (c ∷ s) (d ∷ t) [] h = refl
cmp_text-same (c ∷ s) (d ∷ t) (e ∷ u) h = ground (arith, cmp_text-same s t u)

cmp_text_trans : (s t u : Text) → cmp_text s t ≡ lt → cmp_text t u ≡ lt → cmp_text s u ≡ lt
unfolding cmp_text
cmp_text_trans [] [] [] h k = cc
cmp_text_trans [] (d ∷ t) [] h k = cc
cmp_text_trans [] t (e ∷ u) h k = refl
cmp_text_trans (c ∷ s) [] u h k = cc
cmp_text_trans (c ∷ s) (d ∷ t) [] h k = cc
cmp_text_trans (c ∷ s) (d ∷ t) (e ∷ u) h k =
    ground (arith, cmp_text_trans s t u, cmp_text-same s t u)

cmp_text-IsOrder : IsOrder cmp_text
cmp_text-IsOrder = record { flips = cmp_text-flips; same = cmp_text-same; trans = cmp_text_trans }

abbrev pub turn : OrderingQualifier → Ordering → Ordering
turn ascending x = x
turn descending x = flip x

module _ {R : Type 0} where
  abbrev kind : Value R → ℕ
  kind null = 0
  kind (int i) = 1
  kind (real r) = 2
  kind (str s) = 3
  kind (blob b) = 4
  kind (bool b) = 5

  -- Ints and texts by their values, and the others by their kinds.
  unfoldable pub cmp_value : Value R → Value R → Ordering
  cmp_value (int i) (int j) = cmp_int i j
  cmp_value (str s) (str t) = cmp_text s t
  cmp_value v w = compare (kind v) (kind w)

  cmp_value-flips : (v w : Value R) → cmp_value w v ≡ flip (cmp_value v w)
  unfolding cmp_value
  cmp_value-flips (int i) (int j) = cmp_int-IsOrder.flips i j
  cmp_value-flips (str s) (str t) = cmp_text-flips s t
  cmp_value-flips v w = ground arith

  cmp_value-same : (v w u : Value R) → cmp_value v w ≡ eq → cmp_value v u ≡ cmp_value w u
  unfolding cmp_value
  cmp_value-same (int i) (int j) (int k) h = cmp_int-IsOrder.same i j k h
  cmp_value-same (str s) (str t) (str u) h = cmp_text-same s t u h
  cmp_value-same v w u h = ground arith

  cmp_value_trans : (v w u : Value R) → cmp_value v w ≡ lt → cmp_value w u ≡ lt → cmp_value v u ≡ lt
  unfolding cmp_value
  cmp_value_trans (int i) (int j) (int k) h p = cmp_int-IsOrder.trans i j k h p
  cmp_value_trans (str s) (str t) (str u) h p = cmp_text_trans s t u h p
  cmp_value_trans v w u h p = ground arith

  cmp_value-IsOrder : IsOrder cmp_value
  cmp_value-IsOrder = record {
    flips = cmp_value-flips;
    same = cmp_value-same;
    trans = cmp_value_trans;
  }

  -- The value in a column, and null where there is none.
  abbrev pub value_or_null : Result (Value R) → Value R
  value_or_null (ok v) = v
  value_or_null (err x) = null

  -- Two rows by one column, and by one column after the other.
  unfoldable pub cmp_column : OrderedColumn → Row R → Row R → Ordering
  cmp_column c r p =
      turn c.qualifier
        (cmp_value (value_or_null (row_get r c.column)) (value_or_null (row_get p c.column)))

  unfoldable pub cmp_rows : List OrderedColumn → Row R → Row R → Ordering
  cmp_rows [] r p = eq
  cmp_rows (c ∷ cs) r p = lex (cmp_column c r p) (cmp_rows cs r p)

  turned :
      (q : OrderingQualifier) (key : Row R → Value R)
      → IsOrder (λ (r p : Row R). turn q (cmp_value (key r) (key p)))
  turned ascending key = record {
    flips = λ r p. cmp_value-flips (key r) (key p);
    same = λ r p s. cmp_value-same (key r) (key p) (key s);
    trans = λ r p s. cmp_value_trans (key r) (key p) (key s);
  }
  turned descending key = record {
    flips = λ r p. ground (arith, cmp_value-flips (key r) (key p));
    same = λ r p s h. ground (arith, cmp_value-same (key r) (key p) (key s));
    trans = λ r p s h k. ground (
      arith,
      cmp_value-flips (key r) (key p),
      cmp_value-flips (key p) (key s),
      cmp_value-flips (key r) (key s),
      cmp_value_trans (key s) (key p) (key r),
    );
  }

  pub cmp_rows-IsOrder : (cs : List OrderedColumn) → IsOrder (cmp_rows cs)
  unfolding cmp_rows cmp_column
  cmp_rows-IsOrder [] = record {
    flips = λ a b. refl;
    same = λ a b c h. refl;
    trans = λ a b c h k. cc;
  }
  cmp_rows-IsOrder (c ∷ cs) =
      lex-IsOrder _ (cmp_rows cs) (turned c.qualifier (λ r. value_or_null (row_get r c.column)))
        (cmp_rows-IsOrder cs)
