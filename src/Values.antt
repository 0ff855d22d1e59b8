-- ===== src/Values.antt =====
-- The operators of Python on the values that an expression of learndb/expression_interpreter.py meets:
-- arithmetic, `==`, and the orders. The language has floats and this logic lacks them: their operations
-- are parameters.
use learndb_py.Prelude.{
  ℕ, zero, suc, Bool, true, false, Option, none, some, List, [], ◌∷◌, ◌++◌, ◌==◌, ltb,
  if◌then◌else◌, Result, ok, err, Error, type_err, ◌>>=◌, ℤ, pos, negsuc, ◌+ℤ◌, ◌-ℤ◌, ◌*ℤ◌,
  floor_div, eqb_ℤ, ltb_ℤ,
}
use learndb_py.Names.{text_eq}
use learndb_py.Datatypes.{FloatFormat, Value, null, int, real, str, blob, bool}

-- Python's float arithmetic. A division by 0.0 raises ZeroDivisionError. A float and an int are compared
-- without a conversion.
pub record FloatOps (f : FloatFormat) : Type 0 where
  pub add : f.Real → f.Real → f.Real
  pub subtract : f.Real → f.Real → f.Real
  pub multiply : f.Real → f.Real → f.Real
  pub divide : f.Real → f.Real → Result f.Real
  pub divide_down : f.Real → f.Real → Result f.Real
  pub absolute : f.Real → f.Real
  pub equal : f.Real → f.Real → Bool
  pub less : f.Real → f.Real → Bool
  pub less_equal : f.Real → f.Real → Bool
  pub equal_int : f.Real → ℤ → Bool
  pub less_int : f.Real → ℤ → Bool
  pub greater_int : f.Real → ℤ → Bool
  -- REAL_EPSILON of learndb/constants.py
  pub epsilon : f.Real

-- What `numbers.Number` covers.
pub data Num (R : Type 0) : Type 0 where
  whole : ℤ → Num R
  frac : R → Num R

abbrev pub int_of_bool : Bool → ℤ
int_of_bool true = pos 1
int_of_bool false = pos 0

unfoldable pub repeat : ℕ → List ℕ → List ℕ
repeat zero xs = []
repeat (suc n) xs = xs ++ repeat n xs

-- `s * n`, which is empty for a negative number.
unfoldable pub times : List ℕ → ℤ → List ℕ
unfolding repeat
times xs (pos n) = repeat n xs
times xs (negsuc n) = []

-- `s < t` on texts and on bytes: the first difference decides, and a prefix is smaller.
unfoldable pub less_text : List ℕ → List ℕ → Bool
less_text s [] = false
less_text [] (d ∷ t) = true
less_text (c ∷ s) (d ∷ t) =
    let rest = less_text s t in if ltb c d then true else if c == d then rest else false

module _ {R : Type 0} where
  -- A bool is an int.
  unfoldable pub number : Value R → Option (Num R)
  number (int i) = some (whole i)
  number (bool b) = some (whole (int_of_bool b))
  number (real r) = some (frac r)
  number _ = none

  -- `isinstance(v, numbers.Number)`
  unfoldable pub is_number : Value R → Bool
  is_number (int i) = true
  is_number (bool b) = true
  is_number (real r) = true
  is_number _ = false

module _ (f : FloatFormat) (o : FloatOps f) where
  open f use {Real, of_int}
  open o use {
    add, subtract, multiply, divide, divide_down, equal, less, less_equal, equal_int, less_int,
    greater_int,
  }

  -- An operation on two numbers: on ints, or on floats where one of them is a float.
  abbrev pub on_numbers :
      (ℤ → ℤ → Result (Value Real))
      → (Real → Real → Result (Value Real))
      → Option (Num Real)
      → Option (Num Real)
      → Result (Value Real)
  on_numbers on_ints on_reals (some (whole i)) (some (whole j)) = on_ints i j
  on_numbers on_ints on_reals (some (whole i)) (some (frac s)) = do r ← of_int i; on_reals r s
  on_numbers on_ints on_reals (some (frac r)) (some (whole j)) = do s ← of_int j; on_reals r s
  on_numbers on_ints on_reals (some (frac r)) (some (frac s)) = on_reals r s
  on_numbers on_ints on_reals (some (whole i)) none = err type_err
  on_numbers on_ints on_reals (some (frac r)) none = err type_err
  on_numbers on_ints on_reals none n = err type_err

  -- `v + w`
  unfoldable pub add_values : Value Real → Value Real → Result (Value Real)
  unfolding number
  add_values (str s) (str t) = ok (str (s ++ t))
  add_values (blob s) (blob t) = ok (blob (s ++ t))
  add_values v w =
      on_numbers (λ i j. ok (int (i +ℤ j))) (λ r s. ok (real (add r s))) (number v) (number w)

  -- `v - w`
  unfoldable pub subtract_values : Value Real → Value Real → Result (Value Real)
  unfolding number
  subtract_values v w =
      on_numbers (λ i j. ok (int (i -ℤ j))) (λ r s. ok (real (subtract r s))) (number v) (number w)

  -- `v * w`: a text or bytes, repeated, where the other one is an int.
  unfoldable pub multiply_values : Value Real → Value Real → Result (Value Real)
  unfolding number times
  multiply_values (str s) (int n) = ok (str (times s n))
  multiply_values (str s) (bool b) = ok (str (times s (int_of_bool b)))
  multiply_values (blob s) (int n) = ok (blob (times s n))
  multiply_values (blob s) (bool b) = ok (blob (times s (int_of_bool b)))
  multiply_values (int n) (str s) = ok (str (times s n))
  multiply_values (bool b) (str s) = ok (str (times s (int_of_bool b)))
  multiply_values (int n) (blob s) = ok (blob (times s n))
  multiply_values (bool b) (blob s) = ok (blob (times s (int_of_bool b)))
  multiply_values v w =
      on_numbers (λ i j. ok (int (i *ℤ j))) (λ r s. ok (real (multiply r s))) (number v) (number w)

  abbrev pub real_result : Result Real → Result (Value Real)
  real_result (ok r) = ok (real r)
  real_result (err x) = err x

  -- `v // w`
  unfoldable pub divide_values_down : Value Real → Value Real → Result (Value Real)
  unfolding number
  divide_values_down v w =
      on_numbers
        (λ i j. if eqb_ℤ j (pos 0) then err Error.zero_division else ok (int (floor_div i j)))
        (λ r s. real_result (divide_down r s)) (number v) (number w)

  -- `v / w`, where `v` is no int.
  unfoldable pub divide_values : Value Real → Value Real → Result (Value Real)
  unfolding number
  divide_values v w =
      on_numbers (λ i j. do r ← of_int i; s ← of_int j; real_result (divide r s))
        (λ r s. real_result (divide r s)) (number v) (number w)

  abbrev pub equal_numbers : Num Real → Num Real → Bool
  equal_numbers (whole i) (whole j) = eqb_ℤ i j
  equal_numbers (whole i) (frac s) = equal_int s i
  equal_numbers (frac r) (whole j) = equal_int r j
  equal_numbers (frac r) (frac s) = equal r s

  abbrev pub less_numbers : Num Real → Num Real → Bool
  less_numbers (whole i) (whole j) = ltb_ℤ i j
  less_numbers (whole i) (frac s) = greater_int s i
  less_numbers (frac r) (whole j) = less_int r j
  less_numbers (frac r) (frac s) = less r s

  abbrev both_equal : Option (Num Real) → Option (Num Real) → Bool
  both_equal (some m) (some n) = equal_numbers m n
  both_equal (some m) none = false
  both_equal none n = false

  -- `v == w`
  unfoldable pub equal_values : Value Real → Value Real → Bool
  unfolding number
  equal_values (str s) (str t) = text_eq s t
  equal_values (blob s) (blob t) = text_eq s t
  equal_values null null = true
  equal_values v w = both_equal (number v) (number w)

  abbrev both_less : Option (Num Real) → Option (Num Real) → Result Bool
  both_less (some m) (some n) = ok (less_numbers m n)
  both_less (some m) none = err type_err
  both_less none n = err type_err

  -- `v < w`, and `w > v`.
  unfoldable pub less_values : Value Real → Value Real → Result Bool
  unfolding number less_text
  less_values (str s) (str t) = ok (less_text s t)
  less_values (blob s) (blob t) = ok (less_text s t)
  less_values v w = both_less (number v) (number w)

  abbrev both_less_equal : Option (Num Real) → Option (Num Real) → Bool
  both_less_equal (some (frac r)) (some (frac s)) = less_equal r s
  both_less_equal (some (whole i)) (some (whole j)) = if ltb_ℤ i j then true else eqb_ℤ i j
  both_less_equal (some (whole i)) (some (frac s)) = if greater_int s i then true else equal_int s i
  both_less_equal (some (frac r)) (some (whole j)) = if less_int r j then true else equal_int r j
  both_less_equal (some (whole i)) none = false
  both_less_equal (some (frac i)) none = false
  both_less_equal none n = false

  -- `v <= w` on two numbers, and `w >= v`.
  unfoldable pub less_equal_numbers : Value Real → Value Real → Bool
  unfolding number
  less_equal_numbers v w = both_less_equal (number v) (number w)
