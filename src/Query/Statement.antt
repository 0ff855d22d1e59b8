-- ===== src/Query/Statement.antt =====
-- learndb/virtual_machine.py: `visit_select_stmnt`, from the record set on that its source has been
-- materialized into.
use learndb_py.Prelude.{Option, none, some, List, Result, ok, ◌>>=◌, ℤ}
use learndb_py.Bytes.Utf8.{Text}
use learndb_py.Datatypes.{FloatFormat}
use learndb_py.Values.{FloatOps}
use learndb_py.Syntax.{Symbol, OrderedColumn}
use learndb_py.Rows.{Row}
use learndb_py.Store.{Store, end_scope, recordset_iter}
use learndb_py.Query.{filter_recordset, evaluate_limit_clause, evaluate_order_by_clause}
use learndb_py.Query.Groups.{group_recordset, filter_grouped_recordset}
use learndb_py.Query.Select.{Answer, evaluate_select_clause}

-- The clauses that stand behind the source of a from clause.
pub record FromClause (R : Type 0) : Type 0 where
  pub where_clause : Option (Symbol R)
  pub group_by_clause : Option (List Text)
  pub having_clause : Option (Symbol R)
  pub order_by_clause : Option (List OrderedColumn)
  pub limit_clause : Option ℤ

-- A clause that is there, or the record set as it is.
abbrev pub optional :
    {R C : Type 0}
    → (C → Store R → Text → Result (Text × Store R))
    → Option C
    → Store R
    → Text
    → Result (Text × Store R)
optional run none s rsname = ok (rsname, s)
optional run (some c) s rsname = run c s rsname

module _ (f : FloatFormat) (o : FloatOps f) (show : Symbol f.Real → Text) where
  open f use {Real}

  -- The clauses before the select clause.
  unfoldable pub run_source_clauses :
      FromClause Real → Store Real → Text → Result (Text × Store Real)
  run_source_clauses c s source = do
    (filtered, s1) ←
        optional (λ condition u n. filter_recordset f o u condition n) c.where_clause s source
    (grouped, s2) ← optional (λ cs u n. group_recordset f o u cs n) c.group_by_clause s1 filtered
    optional (λ condition u n. filter_grouped_recordset f o u condition n) c.having_clause s2
        grouped

  -- Those behind it.
  unfoldable pub run_output_clauses :
      FromClause Real → Store Real → Text → Result (Text × Store Real)
  run_output_clauses c s rsname = do
    (ordered, s1) ←
        optional (λ cs u n. evaluate_order_by_clause f o u cs n) c.order_by_clause s rsname
    optional (λ limit u n. evaluate_limit_clause u limit n) c.limit_clause s1 ordered

  -- What is written to the output, and the end of the scope.
  unfoldable pub write_output : Store Real → Text → Answer (List (Row Real) × Store Real)
  write_output s rsname = do
    records ← recordset_iter s rsname
    s' ← end_scope s
    ok (some (records, s'))

  -- A select with a source. Where the select clause fails, the statement returns within its scope.
  unfoldable pub select_from :
      List (Symbol Real)
      → FromClause Real
      → Store Real
      → Text
      → Answer (List (Row Real) × Store Real)
  unfolding run_source_clauses run_output_clauses write_output
  select_from es c s source = do
    (rsname, s1) ← run_source_clauses c s source
    answer ← evaluate_select_clause f o show s1 es (some rsname)
    elim answer [
      | none ↦ ok none
      | some (selected, s2) ↦ (do
        (limited, s3) ← run_output_clauses c s2 selected
        write_output s3 limited)
    ]

  -- A select without one.
  unfoldable pub select_values :
      List (Symbol Real) → Store Real → Answer (List (Row Real) × Store Real)
  unfolding write_output
  select_values es s = do
    answer ← evaluate_select_clause f o show s es none
    elim answer [ none ↦ ok none | some (selected, s1) ↦ write_output s1 selected ]
