-- ===== src/Query/Select.antt =====
-- learndb/virtual_machine.py: the select clause. The grammar makes an `Expr` of each selectable. The name
-- of an output column can be the text that Python gives for a symbol, which is a parameter here.
use learndb_py.Prelude.{
  true, false, Option, none, some, List, [], ◌∷◌, Result, ok, err, Error, ◌>>=◌,
}
use learndb_py.Bytes.Utf8.{Text}
use learndb_py.Names.{text}
use learndb_py.Datatypes.{FloatFormat, Value}
use learndb_py.Responses.{Response, success, failure}
use learndb_py.Schema.{Column, SimpleSchema, column}
use learndb_py.Records.{create_record_from_raw_values}
use learndb_py.Values.{FloatOps}
use learndb_py.Syntax.{Symbol, column_name, simplify_expr}
use learndb_py.Rows.{Schema, Row, GroupedSchema, GroupedRecord}
use learndb_py.Interp.{evaluate_over_no_record, evaluate_over_record, evaluate_over_grouped_record}
use learndb_py.Analysis.{no_schema, over, over_groups, analyze}
use learndb_py.Analysis
use learndb_py.Store.{
  Store, init_recordset, append_recordset, recordset_iter, get_grouped_recordset_schema,
}
use learndb_py.Store.Groups.{grouped_recordset_iter}
use learndb_py.Query.Sources.{source_schema}

-- A failed response, or the result.
abbrev pub Answer : Type 0 → Type 0
Answer A = Result (Option A)

unfoldable pub column_names : List Column → List Text
column_names [] = []
column_names (c ∷ cs) = c.name ∷ column_names cs

-- `generate_unvalidated_schema("output_set", columns)`
unfoldable pub output_schema : List Column → SimpleSchema
output_schema cs = record { name = text "output_set"; cols = cs }

-- `resp.body` behind `assert resp.success`.
unfoldable pub expect_success : {A : Type 0} → Response A → Result A
expect_success (success a) = ok a
expect_success (failure m) = err Error.assertion

module _ (f : FloatFormat) (o : FloatOps f) (show : Symbol f.Real → Text) where
  open f use {Real}

  -- `ExpressionInterpreter.stringify`: the name of a column, and what `str` gives for a literal's value and for
  -- any other symbol.
  unfoldable pub stringify : Symbol Real → Text
  stringify e = elim (simplify_expr e) [ column_name name ↦ name | other ↦ show other ]

  -- The loop that `generate_output_schema_no_source` and `generate_output_schema_ungrouped_source` share: a
  -- column for each expression, and a failure where the analysis of one fails.
  unfoldable pub output_columns : Analysis.Scope → List (Symbol Real) → Answer (List Column)
  unfolding stringify
  output_columns scope [] = ok (some [])
  output_columns scope (e ∷ es) = do
    t ← analyze scope e
    elim t [
      | none ↦ ok none
      | some datatype ↦ (do
        rest ← output_columns scope es
        ok (elim rest [
          | none ↦ none
          | some cs ↦ some (column (stringify e) datatype false true ∷ cs)
        ]))
    ]

  -- The loop of `generate_output_schema_grouped_source`, which asserts that the analysis succeeds.
  unfoldable pub grouped_output_columns : GroupedSchema → List (Symbol Real) → Result (List Column)
  unfolding stringify
  grouped_output_columns g [] = ok []
  grouped_output_columns g (e ∷ es) = do
    t ← analyze (over_groups g) e
    elim t [
      | none ↦ err Error.assertion
      | some datatype ↦ (do
        cs ← grouped_output_columns g es
        ok (column (stringify e) datatype false true ∷ cs))
    ]

  -- `[val_gen.get_value(record) for val_gen in value_generators]`
  unfoldable pub generate_values :
      (Symbol Real → Result (Value Real)) → List (Symbol Real) → Result (List (Value Real))
  generate_values get_value [] = ok []
  generate_values get_value (e ∷ es) = do
    v ← get_value e
    vs ← generate_values get_value es
    ok (v ∷ vs)

  -- One record of the output, appended.
  unfoldable pub append_output :
      (Symbol Real → Result (Value Real))
      → List (Symbol Real)
      → SimpleSchema
      → Text
      → Store Real
      → Result (Store Real)
  unfolding generate_values column_names expect_success
  append_output get_value es schema rsname s = do
    vs ← generate_values get_value es
    resp ← create_record_from_raw_values f (column_names schema.cols) vs schema
    r ← expect_success resp
    append_recordset s rsname (Row.simple r)

  unfoldable pub select_records :
      List (Symbol Real) → SimpleSchema → Text → List (Row Real) → Store Real → Result (Store Real)
  unfolding append_output
  select_records es schema rsname [] s = ok s
  select_records es schema rsname (r ∷ rs) s =
      (append_output (λ e. evaluate_over_record f o e r) es schema rsname s)
      >>= select_records es schema rsname rs

  unfoldable pub select_groups :
      List (Symbol Real)
      → SimpleSchema
      → Text
      → List (GroupedRecord Real)
      → Store Real
      → Result (Store Real)
  unfolding append_output
  select_groups es schema rsname [] s = ok s
  select_groups es schema rsname (g ∷ gs) s =
      (append_output (λ e. evaluate_over_grouped_record f o e g) es schema rsname s)
      >>= select_groups es schema rsname gs

  -- `evaluate_select_clause_no_source`
  unfoldable pub evaluate_select_clause_no_source :
      Store Real → List (Symbol Real) → Answer (Text × Store Real)
  unfolding output_columns append_output output_schema
  evaluate_select_clause_no_source s es = do
    cs ← output_columns no_schema es
    elim cs [
      | none ↦ ok none
      | some out ↦ (do
        (rsname, s') ← init_recordset s (Schema.simple (output_schema out))
        t ← append_output (evaluate_over_no_record f o) es (output_schema out) rsname s'
        ok (some (rsname, t)))
    ]

  -- `evaluate_select_clause_ungrouped_source`
  unfoldable pub evaluate_select_clause_ungrouped_source :
      Store Real → List (Symbol Real) → Text → Answer (Text × Store Real)
  unfolding output_columns select_records output_schema source_schema
  evaluate_select_clause_ungrouped_source s es source = do
    schema ← source_schema s source
    cs ← output_columns (over schema) es
    elim cs [
      | none ↦ ok none
      | some out ↦ (do
        (rsname, s') ← init_recordset s (Schema.simple (output_schema out))
        records ← recordset_iter s' source
        t ← select_records es (output_schema out) rsname records s'
        ok (some (rsname, t)))
    ]

  -- `evaluate_select_clause_grouped_source`
  unfoldable pub evaluate_select_clause_grouped_source :
      Store Real → List (Symbol Real) → GroupedSchema → Text → Answer (Text × Store Real)
  unfolding grouped_output_columns select_groups output_schema
  evaluate_select_clause_grouped_source s es g source = do
    out ← grouped_output_columns g es
    (rsname, s') ← init_recordset s (Schema.simple (output_schema out))
    groups ← grouped_recordset_iter s' source
    t ← select_groups es (output_schema out) rsname groups s'
    ok (some (rsname, t))

  -- `evaluate_select_clause`
  unfoldable pub evaluate_select_clause :
      Store Real → List (Symbol Real) → Option Text → Answer (Text × Store Real)
  unfolding evaluate_select_clause_no_source evaluate_select_clause_ungrouped_source
      evaluate_select_clause_grouped_source
  evaluate_select_clause s es none = evaluate_select_clause_no_source s es
  evaluate_select_clause s es (some source) = elim (get_grouped_recordset_schema s source) [
    | some g ↦ evaluate_select_clause_grouped_source s es g source
    | none ↦ evaluate_select_clause_ungrouped_source s es source
  ]
