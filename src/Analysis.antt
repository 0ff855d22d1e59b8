-- ===== src/Analysis.antt =====
-- learndb/semantic_analysis.py: the type of an expression over no schema, a schema or a grouped schema.
pub mod Typing
pub mod Calls
pub mod Columns
pub mod Sound
use learndb_py.Prelude.{
  ℕ, zero, suc, Bool, true, false, not, Option, none, some, List, [], ◌∷◌, ◌==◌, length,
  if◌then◌else◌, Result, ok, err, Error, index, attribute, not_implemented, ◌>>=◌,
}
use learndb_py.Bytes.Utf8.{Text}
use learndb_py.Datatypes.{DataType, integer_type, real_type, text_type, blob_type, null_type}
use learndb_py.Responses.{Response, success, failure}
use learndb_py.Schema.{Column}
use learndb_py.Syntax.{
  Symbol, Symbols, expr, or_clause, and_clause, comparison, arithmetic, func_call, column_name,
  literal, nil, cons, find_descendents, is_column_name,
}
use learndb_py.Functions.{FunctionDefinition, resolve_scalar_func_name, resolve_aggregate_func_name}
use learndb_py.Rows.{
  Schema, GroupedSchema, grouped_get_column, grouped_has_column, is_grouping_column,
  is_non_grouping_column,
}
use learndb_py.Interp.{datatype_from_symbolic_datatype, resolve_column_name_type}

-- `EvalMode` with the schema that the mode analyzes over; the name registry resolves names in that schema.
pub data Scope : Type 0 where
  no_schema : Scope
  over : Schema → Scope
  over_groups : GroupedSchema → Scope

unfoldable pub datatype_eq : DataType → DataType → Bool
datatype_eq integer_type integer_type = true
datatype_eq real_type real_type = true
datatype_eq text_type text_type = true
datatype_eq blob_type blob_type = true
datatype_eq null_type null_type = true
datatype_eq _ _ = false

abbrev pub or_fails : Option DataType → Result DataType
or_fails none = err Error.semantic_analysis
or_fails (some t) = ok t

-- `visit_column_name`
unfoldable pub column_type : Scope → Text → Result DataType
column_type no_schema name = err Error.semantic_analysis
column_type (over s) name = do t ← resolve_column_name_type s name; or_fails t
column_type (over_groups g) name = elim (grouped_get_column g name) [
  | none ↦ err Error.semantic_analysis
  | some c ↦ ok c.datatype
]

-- The handler of `analyze`: the error of the analysis becomes a failed response, and the others are raised.
unfoldable pub as_response : Result DataType → Result (Option DataType)
as_response (ok t) = ok (some t)
as_response (err Error.semantic_analysis) = ok none
as_response (err x) = err x

-- `visit_func_call` over no schema and over a schema.
unfoldable pub scalar_type : Text → Result DataType
scalar_type name = do
  resp ← resolve_scalar_func_name name
  elim resp [ failure m ↦ err Error.semantic_analysis | success func ↦ ok func.return_type ]

module _ {R : Type 0} where
  unfoldable pub all_grouping : GroupedSchema → List (Symbol R) → Bool
  all_grouping g [] = true
  all_grouping g (column_name name ∷ cs) =
      let rest = all_grouping g cs in if is_grouping_column g name then rest else false
  all_grouping g (s ∷ cs) = all_grouping g cs

  -- The one argument of an aggregate function: a column that is no grouping column.
  unfoldable pub aggregate_argument :
      GroupedSchema → FunctionDefinition → Symbols R → Result DataType
  aggregate_argument g func (cons (expr (column_name name)) nil) =
      if not (grouped_has_column g name)
      then err Error.semantic_analysis
      else if not (is_non_grouping_column g name)
      then err Error.semantic_analysis
      else ok func.return_type
  aggregate_argument g func (cons (expr s) nil) = err Error.semantic_analysis
  aggregate_argument g func (cons s nil) = err attribute
  aggregate_argument g func ss = err Error.semantic_analysis

  -- `visit_func_call` over a grouped schema.
  unfoldable pub grouped_call_type : GroupedSchema → Text → Symbols R → Result DataType
  unfolding all_grouping aggregate_argument
  grouped_call_type g name args = do
    resp ← resolve_scalar_func_name name
    elim resp [
      | success func ↦
          if all_grouping g (find_descendents is_column_name (func_call name args))
          then ok func.return_type
          else err Error.semantic_analysis
      | failure m ↦ (do
        aggregate ← resolve_aggregate_func_name name
        elim aggregate [
          | failure n ↦ err Error.semantic_analysis
          | success func ↦ aggregate_argument g func args
        ])
    ]

  -- `visit_func_call`
  unfoldable pub call_type : Scope → Text → Symbols R → Result DataType
  unfolding scalar_type grouped_call_type
  call_type no_schema name args = scalar_type name
  call_type (over s) name args = scalar_type name
  call_type (over_groups g) name args = grouped_call_type g name args

  -- The clauses of the visitor, as `evaluate`. A symbol without a clause raises in the dispatch; the second
  -- operand of `or` and `and` is typed, and then refused. The parser makes no
  -- empty clause.
  unfoldable pub type_of : Scope → Symbol R → Result DataType
  unfolding call_type column_type datatype_from_symbolic_datatype datatype_eq
  type_of c (expr e) = type_of c e
  type_of c (or_clause nil) = err Error.stuck
  type_of c (or_clause (cons s nil)) = type_of c s
  type_of c (or_clause (cons s (cons t ss))) =
      (type_of c s) >>= (λ _. (type_of c t) >>= (λ _. err not_implemented))
  type_of c (and_clause nil) = err Error.stuck
  type_of c (and_clause (cons s nil)) = type_of c s
  type_of c (and_clause (cons s (cons t ss))) =
      (type_of c s) >>= (λ _. (type_of c t) >>= (λ _. err not_implemented))
  type_of c (comparison l r op) = err Error.handler_not_found
  type_of c (arithmetic op a b) = do
    t ← type_of c a
    u ← type_of c b
    if datatype_eq t u then ok t else err Error.semantic_analysis
  type_of c (func_call name args) = call_type c name args
  type_of c (column_name name) = column_type c name
  type_of c (literal v t) = datatype_from_symbolic_datatype t

  -- `analyze`
  unfoldable pub analyze : Scope → Symbol R → Result (Option DataType)
  unfolding type_of as_response
  analyze c e = as_response (type_of c e)
