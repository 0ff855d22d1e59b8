-- ===== src/Analysis/Sound.antt =====
-- The types that learndb/semantic_analysis.py finds, beside the values that
-- learndb/expression_interpreter.py computes.
use learndb_py.Prelude.{
  ◌≡◌, true, false, arith, Result, ok, err, Error, ◌>>=◌, >>=-eq-ok, if◌then◌else◌, some,
}
use learndb_py.Bytes.Utf8.{Text}
use learndb_py.Datatypes.{FloatFormat, Value, null, bool, DataType}
use learndb_py.Values.{FloatOps}
use learndb_py.Syntax.{
  Symbol, Symbols, expr, or_clause, and_clause, comparison, arithmetic, func_call, column_name,
  literal, nil, cons,
}
use learndb_py.Names.{lower}
use learndb_py.Responses.{success}
use learndb_py.Interp.{
  Context, evaluate, evaluate_args, record_get, call_function, scalar, is_true, is_false, and_step,
}
use learndb_py.Analysis.{Scope, over, type_of, column_type, call_type, datatype_eq}
use learndb_py.Prelude.{All}
use learndb_py.Schema.{Column}
use learndb_py.Records.{SimpleRecord, validate_record}
use learndb_py.Rows.{Schema, Row}
use learndb_py.Analysis.{analyze, as_response}
use learndb_py.Interp.{evaluate_over_record}
use learndb_py.Analysis.Typing.{HasType, calculate-HasType, literal-HasType}
use learndb_py.Analysis.Calls.{call_scalar-HasType}
use learndb_py.Analysis.Columns.{simple-HasType}

abbrev refusal : Result DataType
refusal = err Error.not_implemented

refused : (m n : Result DataType) (t : DataType) → (m >>= (λ _. n >>= (λ _. refusal))) ≡ ok t → ⊥
refused (ok a) (ok b) t h = cc
refused (ok a) (err b) t h = cc
refused (err a) n t h = cc

datatype_eq→eq : (a b : DataType) → datatype_eq a b ≡ true → a ≡ b
unfolding datatype_eq
datatype_eq→eq a b h = ground arith

same_types :
    (m n : Result DataType) (t : DataType)
    → (m >>= (λ a. n >>= (λ b. if datatype_eq a b then ok a else err Error.semantic_analysis)))
      ≡ ok t
    → (m ≡ ok t) × (n ≡ ok t)
same_types (ok a) (ok b) t h = ground (arith, datatype_eq→eq a b)
same_types (ok a) (err x) t h = cc
same_types (err x) n t h = cc

module _ (f : FloatFormat) (o : FloatOps f) where
  open f use {Real}

  -- A clause with one operand has the value of the operand.
  or_one :
      (m : Result (Value Real)) (v : Value Real)
      → (m >>= (λ w. if is_true w then ok (bool true) else ok w)) ≡ ok v
      → m ≡ ok v
  unfolding is_true
  or_one m v h = ground arith

  and_one :
      (m : Result (Value Real)) (v : Value Real)
      → (m >>= (λ w.
          if is_false f o w
          then ok (bool false)
          else (and_step f o w null true) >>= (λ state. ok state.0)))
        ≡ ok v
      → m ≡ ok v
  unfolding is_false and_step
  and_one m v h = ground arith

  module _ (c : Scope) (x : Context Real)
      (fits : (name : Text) (t : DataType) (v : Value Real)
        → column_type c name ≡ ok t
        → record_get x name ≡ ok v
        → HasType t v)
      (calls : (name : Text) (args : Symbols Real) (t : DataType) (v : Value Real)
        → call_type c name args ≡ ok t
        → call_function f o x name args (evaluate_args f o x args) ≡ ok v
        → HasType t v) where
    evaluate-HasType :
        (e : Symbol Real) (t : DataType) (v : Value Real)
        → type_of c e ≡ ok t
        → evaluate f o x e ≡ ok v
        → HasType t v
    unfolding type_of evaluate
    evaluate-HasType (expr e) t v h k = evaluate-HasType e t v h k
    evaluate-HasType (or_clause nil) t v h k = cc
    evaluate-HasType (or_clause (cons s nil)) t v h k =
        evaluate-HasType s t v h (or_one (evaluate f o x s) v k)
    evaluate-HasType (or_clause (cons s (cons r ss))) t v h k =
        absurd (refused (type_of c s) (type_of c r) t h)
    evaluate-HasType (and_clause nil) t v h k = cc
    evaluate-HasType (and_clause (cons s nil)) t v h k =
        evaluate-HasType s t v h (and_one (evaluate f o x s) v k)
    evaluate-HasType (and_clause (cons s (cons r ss))) t v h k =
        absurd (refused (type_of c s) (type_of c r) t h)
    evaluate-HasType (comparison l r op) t v h k = cc
    evaluate-HasType (arithmetic op a b) t v h k =
        let (p, q) = same_types (type_of c a) (type_of c b) t h in
        let (u, eu, k') = >>=-eq-ok (evaluate f o x a) _ k in
        let (w, ew, run) = >>=-eq-ok (evaluate f o x b) _ k' in
        calculate-HasType f o op t u w v (evaluate-HasType a t u p eu) (evaluate-HasType b t w q ew)
          run
    evaluate-HasType (func_call name args) t v h k = calls name args t v h k
    evaluate-HasType (column_name name) t v h k = fits name t v h k
    evaluate-HasType (literal w s) t v h k = literal-HasType f o w s t v h k

  simple_type-HasType :
      (r : SimpleRecord Real)
      → validate_record f r ≡ ok (success tt)
      → All (λ (c : Column). lower c.name ≡ c.name) r.schema.cols
      → (e : Symbol Real) (t : DataType) (v : Value Real)
      → type_of (over (Schema.simple r.schema)) e ≡ ok t
      → evaluate f o (scalar (Row.simple r)) e ≡ ok v
      → HasType t v
  unfolding call_type call_function
  simple_type-HasType r valid lowered =
      evaluate-HasType (over (Schema.simple r.schema)) (scalar (Row.simple r))
        (simple-HasType f r valid lowered)
        (λ name args t v h k.
          call_scalar-HasType f o name (evaluate_args f o (scalar (Row.simple r)) args) t v h k)

typed : (m : Result DataType) (t : DataType) → as_response m ≡ ok (some t) → m ≡ ok t
unfolding as_response
typed (ok u) t h = cc
typed (err x) t h = ground arith

module _ (f : FloatFormat) (o : FloatOps f) where
  open f use {Real}

  -- Where the analysis of an expression over the schema of a valid record, whose column names are in lower
  -- case, finds a type, a value that the expression has over the record is null or a value of that type; a
  -- bool counts as an integer.
  pub evaluate-analyze :
      (r : SimpleRecord Real) (e : Symbol Real) (t : DataType) (v : Value Real)
      → validate_record f r ≡ ok (success tt)
      → All (λ (c : Column). lower c.name ≡ c.name) r.schema.cols
      → analyze (over (Schema.simple r.schema)) e ≡ ok (some t)
      → evaluate_over_record f o e (Row.simple r) ≡ ok v
      → HasType t v
  unfolding evaluate_over_record analyze
  evaluate-analyze r e t v valid lowered h k =
      simple_type-HasType f o r valid lowered e t v
        (typed (type_of (over (Schema.simple r.schema)) e) t h) k
