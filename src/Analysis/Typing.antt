-- ===== src/Analysis/Typing.antt =====
-- The typing of the values that learndb/expression_interpreter.py computes, and that its operators keep it.
use learndb_py.Prelude.{◌≡◌, arith, Result, ok, err}
use learndb_py.Datatypes.{
  FloatFormat, Value, null, int, real, str, blob, bool, DataType, integer_type, real_type,
  text_type, blob_type, is_valid_term,
}
use learndb_py.Schema.{SymbolicDataType, integer_sym, text_sym, real_sym, blob_sym, boolean_sym}
use learndb_py.Values.{
  FloatOps, add_values, subtract_values, multiply_values, divide_values_down, divide_values,
  real_result,
}
use learndb_py.Syntax.{ArithmeticOp, addition, subtraction, multiplication, division}
use learndb_py.Interp.{calculate, literal_value, datatype_from_symbolic_datatype}

-- A value has a type: a null has each, and a bool is an integer.
abbrev pub HasType : {R : Type 0} → DataType → Value R → Type 0
HasType t null = Unit {0}
HasType integer_type (int i) = Unit {0}
HasType integer_type (bool b) = Unit {0}
HasType real_type (real r) = Unit {0}
HasType text_type (str s) = Unit {0}
HasType blob_type (blob b) = Unit {0}
HasType _ _ = ⊥

module _ (f : FloatFormat) (o : FloatOps f) where
  open f use {Real}

  real_result-HasType :
      (m : Result Real) (v : Value Real) → real_result f o m ≡ ok v → HasType real_type v
  real_result-HasType (ok r) v h = ground arith
  real_result-HasType (err x) v h = cc

  pub calculate-HasType :
      (op : ArithmeticOp) (t : DataType) (v w u : Value Real)
      → HasType t v
      → HasType t w
      → calculate f o op v w ≡ ok u
      → HasType t u
  unfolding calculate add_values subtract_values multiply_values divide_values divide_values_down
  calculate-HasType addition t v w u h k e = ground arith
  calculate-HasType subtraction t v w u h k e = ground arith
  calculate-HasType multiplication t v w u h k e = ground arith
  calculate-HasType division t v w u h k e = ground arith

  pub literal-HasType :
      (w : Value Real) (s : SymbolicDataType) (t : DataType) (v : Value Real)
      → datatype_from_symbolic_datatype s ≡ ok t
      → literal_value f o w s ≡ ok v
      → HasType t v
  unfolding datatype_from_symbolic_datatype literal_value is_valid_term
  literal-HasType w integer_sym t v h k = ground arith
  literal-HasType w text_sym t v h k = ground arith
  literal-HasType w real_sym t v h k = ground arith
  literal-HasType w blob_sym t v h k = ground arith
  literal-HasType w boolean_sym t v h k = cc
