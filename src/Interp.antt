-- ===== src/Interp.antt =====
-- learndb/expression_interpreter.py, with the lookup of names of learndb/name_registry.py and
-- `datatype_from_symbolic_datatype` of learndb/vm_utils.py: the evaluation of an expression over no record,
-- a record or a group. The visitor's dispatch on the class of a symbol is the match on its constructor.
use learndb_py.Prelude.{
  Bool, true, false, not, ◌||◌, ◌&&◌, Option, none, some, List, [], ◌∷◌, if◌then◌else◌, Result, ok,
  err, Error, assert, attribute, index, value, not_implemented, ◌>>=◌, ◌>>◌,
}
use learndb_py.Bytes.Utf8.{Text}
use learndb_py.Datatypes.{
  FloatFormat, Value, null, int, real, bool, DataType, integer_type, real_type, text_type,
  blob_type, is_valid_term,
}
use learndb_py.Responses.{success, failure}
use learndb_py.Schema.{SymbolicDataType, integer_sym, text_sym, real_sym, blob_sym, boolean_sym}
use learndb_py.Values.{
  FloatOps, add_values, subtract_values, multiply_values, divide_values_down, divide_values,
  equal_values, less_equal_numbers, less_values, is_number,
}
use learndb_py.Syntax.{
  ComparisonOp, greater, less, less_equal, greater_equal, equal, not_equal, ArithmeticOp, addition,
  subtraction, multiplication, division, Symbol, Symbols, expr, or_clause, and_clause, comparison,
  arithmetic, func_call, column_name, literal, nil, cons,
}
use learndb_py.Functions.{
  Argument, atom, values, apply, resolve_scalar_func_name, resolve_aggregate_func_name,
}
use learndb_py.Rows.{
  Schema, get_column, Row, row_get, GroupedRecord, grouped_get, recordset_to_values,
}

-- `EvalMode` with the record that the mode evaluates over.
pub data Context (R : Type 0) : Type 0 where
  no_record : Context R
  scalar : Row R → Context R
  grouped : GroupedRecord R → Context R

-- `datatype_from_symbolic_datatype`
unfoldable pub datatype_from_symbolic_datatype : SymbolicDataType → Result DataType
datatype_from_symbolic_datatype integer_sym = ok integer_type
datatype_from_symbolic_datatype real_sym = ok real_type
datatype_from_symbolic_datatype blob_sym = ok blob_type
datatype_from_symbolic_datatype text_sym = ok text_type
datatype_from_symbolic_datatype boolean_sym = err value

unfoldable pub is_equality : ComparisonOp → Bool
is_equality equal = true
is_equality not_equal = true
is_equality _ = false

module _ {R : Type 0} where
  -- `self.record.get(name)`; None has no method `get`.
  unfoldable pub record_get : Context R → Text → Result (Value R)
  record_get no_record name = err attribute
  record_get (scalar r) name = row_get r name
  record_get (grouped g) name = grouped_get g name

  -- `NameRegistry.resolve_name` on a column name, and the assertion that it succeeded. The handler of
  -- InvalidNameException reads `self.record.columns`, which no record has.
  unfoldable pub resolved : Result (Value R) → Result (Value R)
  resolved (ok v) = ok v
  resolved (err Error.invalid_name) = err attribute
  resolved (err x) = err x

  unfoldable pub is_true : Value R → Bool
  is_true (bool b) = b
  is_true _ = false

  unfoldable pub is_real : Value R → Bool
  is_real (real r) = true
  is_real _ = false

  unfoldable pub is_int : Value R → Bool
  is_int (int i) = true
  is_int (bool b) = true
  is_int _ = false

  -- `func_call.args[0].expr.name`
  unfoldable pub first_column : Symbols R → Result Text
  first_column nil = err index
  first_column (cons (expr (column_name name)) args) = ok name
  first_column (cons (expr (func_call name as')) args) = ok name
  first_column (cons s args) = err attribute

-- `NameRegistry.resolve_column_name_type`
unfoldable pub resolve_column_name_type : Schema → Text → Result (Option DataType)
unfolding get_column
resolve_column_name_type schema name = do
  c ← get_column schema name
  ok (elim c [ none ↦ none | some col ↦ some col.datatype ])

module _ (f : FloatFormat) (o : FloatOps f) where
  open f use {Real}
  open o use {add, subtract, absolute, equal_int, epsilon}

  -- `evaluate_strict_comparison`. The orders are reached with numbers only.
  unfoldable pub strict_comparison : ComparisonOp → Value Real → Value Real → Result Bool
  strict_comparison equal v w = ok (equal_values f o v w)
  strict_comparison not_equal v w = ok (not (equal_values f o v w))
  strict_comparison greater v w = less_values f o w v
  strict_comparison less v w = less_values f o v w
  strict_comparison greater_equal v w = ok (less_equal_numbers f o w v)
  strict_comparison less_equal v w = ok (less_equal_numbers f o v w)

  -- `abs(left_value - right_value) <= epsilon`, on floats.
  unfoldable pub within_epsilon : Value Real → Value Real → Result Bool
  within_epsilon v w = do
    d ← subtract_values f o v w
    elim d [ real r ↦ ok (o.less_equal (absolute r) epsilon) | _ ↦ err attribute ]

  -- `evaluate_fuzzy_comparison`
  unfoldable pub fuzzy_comparison : ComparisonOp → Value Real → Value Real → Result Bool
  unfolding within_epsilon
  fuzzy_comparison equal v w = within_epsilon v w
  fuzzy_comparison not_equal v w = do b ← within_epsilon v w; ok (not b)
  fuzzy_comparison greater v w = do s ← add_values f o v (real epsilon); less_values f o w s
  fuzzy_comparison less v w = do s ← subtract_values f o v (real epsilon); less_values f o s w
  fuzzy_comparison greater_equal v w = do
    s ← add_values f o v (real epsilon)
    ok (less_equal_numbers f o w s)
  fuzzy_comparison less_equal v w = do
    s ← subtract_values f o v (real epsilon)
    ok (less_equal_numbers f o s w)

  -- The test whether to compare with the tolerance: `and` asks for the difference only of a float.
  unfoldable pub is_fuzzy : Value Real → Value Real → Result Bool
  unfolding within_epsilon is_real
  is_fuzzy v w = let near = within_epsilon v w in if is_real v then near else ok false

  -- `visit_comparison`, behind the operands.
  unfoldable pub compare_values : ComparisonOp → Value Real → Value Real → Result (Value Real)
  unfolding strict_comparison fuzzy_comparison is_fuzzy is_equality
  compare_values op v w = do
    assert (is_equality op || (is_number v && is_number w))
    fuzzy ← is_fuzzy v w
    b ← if fuzzy then fuzzy_comparison op v w else strict_comparison op v w
    ok (bool b)

  -- `visit_binary_arithmetic_operation`, behind the operands.
  unfoldable pub calculate : ArithmeticOp → Value Real → Value Real → Result (Value Real)
  unfolding is_int
  calculate addition v w = add_values f o v w
  calculate subtraction v w = subtract_values f o v w
  calculate multiplication v w = multiply_values f o v w
  calculate division v w = if is_int v then divide_values_down f o v w else divide_values f o v w

  -- `visit_literal`
  unfoldable pub literal_value : Value Real → SymbolicDataType → Result (Value Real)
  unfolding datatype_from_symbolic_datatype
  literal_value v t = do
    datatype ← datatype_from_symbolic_datatype t
    valid ← is_valid_term f datatype v
    assert valid
    ok v

  -- A scalar function on the values of its arguments.
  unfoldable pub call_scalar : Text → Result (List (Argument Real)) → Result (Value Real)
  call_scalar name args = do
    resp ← resolve_scalar_func_name name
    elim resp [
      | failure m ↦ err Error.assertion
      | success func ↦ (do as' ← args; apply f o func as' [])
    ]

  -- An aggregate function on the values of a column of the group.
  unfoldable pub call_aggregate : Text → Symbols Real → GroupedRecord Real → Result (Value Real)
  unfolding first_column
  call_aggregate name args g = do
    resp ← resolve_aggregate_func_name name
    elim resp [
      | failure m ↦ err Error.assertion
      | success func ↦ (do
        column ← first_column args
        vs ← recordset_to_values g column
        apply f o func (values vs ∷ []) [])
    ]

  -- `visit_func_call`, with the evaluation of the arguments that may be asked for.
  unfoldable pub call_function :
      Context Real → Text → Symbols Real → Result (List (Argument Real)) → Result (Value Real)
  unfolding call_scalar call_aggregate
  call_function no_record name args evaluated = err Error.assertion
  call_function (scalar r) name args evaluated = call_scalar name evaluated
  call_function (grouped g) name args evaluated = do
    resp ← resolve_scalar_func_name name
    elim resp [
      | failure m ↦ call_aggregate name args g
      | success func ↦ (do as' ← evaluated; apply f o func as' [])
    ]

  -- The update of the loop of `visit_and_clause` by a value that is not False.
  unfoldable pub and_step : Value Real → Value Real → Bool → Result (Value Real × Bool)
  and_step (bool b) and_value unset = ok (bool b, unset)
  and_step v and_value true = ok (v, false)
  and_step v and_value false = err not_implemented

  unfoldable pub is_false : Value Real → Bool
  is_false (bool b) = not b
  is_false _ = false

  unfoldable mutual
    unfolding resolved is_true record_get compare_values calculate literal_value call_function
        and_step is_false

    -- `evaluate`: the methods `visit_*`.
    pub evaluate : Context Real → Symbol Real → Result (Value Real)
    evaluate c (expr e) = evaluate c e
    evaluate c (or_clause ss) = evaluate_or c ss null
    evaluate c (and_clause ss) = evaluate_and c ss null true
    evaluate c (comparison l r op) = do
      v ← evaluate_operand c l
      w ← evaluate_operand c r
      compare_values op v w
    evaluate c (arithmetic op a b) = do v ← evaluate c a; w ← evaluate c b; calculate op v w
    evaluate c (func_call name args) = call_function c name args (evaluate_args c args)
    evaluate c (column_name name) = record_get c name
    evaluate c (literal v t) = literal_value v t

    -- An operand of a comparison: a name goes through the registry.
    pub evaluate_operand : Context Real → Symbol Real → Result (Value Real)
    evaluate_operand c (column_name name) = resolved (record_get c name)
    evaluate_operand c (expr e) = evaluate c e
    evaluate_operand c (or_clause ss) = evaluate_or c ss null
    evaluate_operand c (and_clause ss) = evaluate_and c ss null true
    evaluate_operand c (comparison l r op) = do
      v ← evaluate_operand c l
      w ← evaluate_operand c r
      compare_values op v w
    evaluate_operand c (arithmetic op a b) = do v ← evaluate c a; w ← evaluate c b; calculate op v w
    evaluate_operand c (func_call name args) = call_function c name args (evaluate_args c args)
    evaluate_operand c (literal v t) = literal_value v t

    -- The loop of `visit_or_clause`. `value_unset` stays True in it, so that each value replaces the last.
    pub evaluate_or : Context Real → Symbols Real → Value Real → Result (Value Real)
    evaluate_or c nil or_value = ok or_value
    evaluate_or c (cons s ss) or_value =
        (evaluate c s)
        >>= (λ v. let rest = evaluate_or c ss v in if is_true v then ok (bool true) else rest)

    -- The loop of `visit_and_clause`.
    pub evaluate_and : Context Real → Symbols Real → Value Real → Bool → Result (Value Real)
    evaluate_and c nil and_value unset = ok and_value
    evaluate_and c (cons s ss) and_value unset = (evaluate c s) >>= (λ v.
        let rest = (and_step v and_value unset) >>= (λ state. evaluate_and c ss state.0 state.1) in
        if is_false v then ok (bool false) else rest)

    pub evaluate_args : Context Real → Symbols Real → Result (List (Argument Real))
    evaluate_args c nil = ok []
    evaluate_args c (cons s ss) =
        (evaluate c s) >>= (λ v. (evaluate_args c ss) >>= (λ vs. ok (atom v ∷ vs)))

  unfoldable pub evaluate_over_no_record : Symbol Real → Result (Value Real)
  unfolding evaluate
  evaluate_over_no_record e = evaluate no_record e

  unfoldable pub evaluate_over_record : Symbol Real → Row Real → Result (Value Real)
  unfolding evaluate
  evaluate_over_record e r = evaluate (scalar r) e

  unfoldable pub evaluate_over_grouped_record :
      Symbol Real → GroupedRecord Real → Result (Value Real)
  unfolding evaluate
  evaluate_over_grouped_record e g = evaluate (grouped g) e
