-- ===== src/Tests/Queries.antt =====
-- The properties of expressions, record sets and clauses at concrete inputs.
use learndb_py.Prelude.{
  ℕ, ◌+◌, ◌-◌, ◌*◌, ◌/◌, ◌≡◌, refl, inl, inr, true, false, List, [], ◌∷◌, ok, err, Error, All, ltb,
  leb, ◌==◌, if◌then◌else◌, pos, ltb_ℤ, eqb_ℤ, ◌+ℤ◌, get_elem?,
}
use mathlib.Core.List.{Perm}
use learndb_py.Bytes.Utf8.{Text}
use learndb_py.Names.{text, lower, text_eq}
use learndb_py.Dict
use learndb_py.Datatypes.{int, str, integer_type, text_type, is_valid_term}
use learndb_py.Schema.{SimpleSchema, column, integer_sym, get_column_by_name}
use learndb_py.Records.{SimpleRecord, validate_record}
use learndb_py.Values.{FloatOps, number, is_number, add_values, less_values, equal_values}
use learndb_py.Syntax.{
  Symbol, expr, comparison, arithmetic, column_name, literal, addition, greater, OrderedColumn,
  descending, ascending,
}
use learndb_py.Rows.{Schema, Row, row_get}
use learndb_py.Interp.{evaluate_over_record, resolve_column_name_type}
use learndb_py.Analysis.{analyze}
use learndb_py.Analysis.Typing.{HasType}
use learndb_py.Analysis.Sound.{evaluate-analyze}
use learndb_py.Store.{
  Store, Scope, init_recordset, get_grouped_recordset_schema, get_recordset_schema, find_set,
}
use learndb_py.Query.Sources.{source_schema, expect_bool}
use learndb_py.Query.{filter_recordset, evaluate_order_by_clause}
use learndb_py.Query.Held.{Makes}
use learndb_py.Query.Filtered.{filter_recordset-view}
use learndb_py.Query.Ordering.{select_rows, quicksort}
use learndb_py.Query.Ordering.Parts.{Ascending, IsUniform}
use learndb_py.Query.Ordered.{evaluate_order_by_clause-Ascending}
use learndb_py.Tests.Floats.{digit_floats}

-- Whole numbers in place of floats.
abbrev pub digit_ops : FloatOps digit_floats
digit_ops = record {
  add = λ r s. r + s;
  subtract = λ r s. r - s;
  multiply = λ r s. r * s;
  divide = λ r s. if s == 0 then err Error.zero_division else ok (r / s);
  divide_down = λ r s. if s == 0 then err Error.zero_division else ok (r / s);
  absolute = λ r. r;
  equal = λ r s. r == s;
  less = λ r s. ltb r s;
  less_equal = λ r s. leb r s;
  equal_int = λ r i. eqb_ℤ (pos r) i;
  less_int = λ r i. ltb_ℤ (pos r) i;
  greater_int = λ r i. ltb_ℤ i (pos r);
  epsilon = 0;
}

unfoldable pub people : SimpleSchema
unfolding column lower
people = record {
  name = text "people";
  cols =
      column (text "id") integer_type true false ∷ column (text "name") text_type false true ∷ [];
}

abbrev person : ℕ → Text → SimpleRecord ℕ
person i name = record {
  values = (text "id", int (pos i)) ∷ (text "name", str name) ∷ [];
  schema = people;
}

abbrev pub row : ℕ → Text → Row ℕ
row i name = Row.simple (person i name)

-- id + 3
abbrev sum_expr : Symbol ℕ
sum_expr = expr (arithmetic addition (column_name (text "id")) (literal (int (pos 3)) integer_sym))

evaluate-analyze_example : HasType {R = ℕ} integer_type (int (pos 10))
unfolding validate_record lower evaluate_over_record analyze people Dict.get text_eq is_valid_term
    get_column_by_name row_get resolve_column_name_type number ◌+ℤ◌ add_values
evaluate-analyze_example =
    evaluate-analyze digit_floats digit_ops (person 7 (text "ann")) sum_expr integer_type
      (int (pos 10)) refl (refl, (refl, tt)) refl refl

-- A scope with one record set.
abbrev rows : List (Row ℕ)
rows = row 2 (text "bob") ∷ row 7 (text "ann") ∷ row 5 (text "cyd") ∷ []

abbrev sets : List (Row ℕ) → Text → Text → Scope ℕ
sets rs name other = record {
  record_sets = (name, rs) ∷ (other, []) ∷ [];
  group_rsets = [];
  rsets_schemas = (name, Schema.simple people) ∷ (other, Schema.simple people) ∷ [];
  group_rsets_schemas = [];
}

abbrev store : Store ℕ
store = record {
  schemas = [];
  trees = [];
  scopes = sets rows (text "rA") (text "rB") ∷ [];
  draws = text "B" ∷ text "C" ∷ text "D" ∷ [];
}

abbrev next : Store ℕ
next = record {
  schemas = [];
  trees = [];
  scopes =
      record (sets rows (text "rA") (text "rB")) {
        record_sets = (text "rA", rows) ∷ (text "rB", []) ∷ (text "rC", []) ∷ [];
        rsets_schemas =
            (text "rA", Schema.simple people)
            ∷ (text "rB", Schema.simple people)
            ∷ (text "rC", Schema.simple people)
            ∷ [];
      }
      ∷ [];
  draws = text "D" ∷ [];
}

abbrev over_four : Symbol ℕ
over_four = expr (comparison (column_name (text "id")) (literal (int (pos 4)) integer_sym) greater)

filter_recordset-view_example :
    Makes store
      (text "rC")
      (row 7 (text "ann") ∷ row 5 (text "cyd") ∷ [])
      (filter_recordset digit_floats digit_ops store over_four (text "rA"))
unfolding source_schema init_recordset get_grouped_recordset_schema Dict.get get_recordset_schema
    text_eq Dict.set find_set select_rows evaluate_over_record row_get lower is_valid_term is_number
    less_values expect_bool people
filter_recordset-view_example =
    filter_recordset-view digit_floats digit_ops store (text "rA") (text "rC")
      (Schema.simple people) next rows refl refl refl over_four
      (row 7 (text "ann") ∷ row 5 (text "cyd") ∷ []) refl

abbrev by_name : List OrderedColumn
by_name =
    record { column = text "name"; qualifier = ascending }
    ∷ record { column = text "id"; qualifier = descending }
    ∷ []

uniform : All (IsUniform rows) by_name
unfolding row_get lower Dict.get text_eq people
uniform = (
  inr ((text "bob", refl), ((text "ann", refl), ((text "cyd", refl), tt))),
  (inl ((pos 2, refl), ((pos 7, refl), ((pos 5, refl), tt))), tt),
)

evaluate_order_by_clause-Ascending_example :
    (out : List (Row ℕ)) × Perm out rows
    × Ascending by_name out
    × Makes store
        (text "rC")
        out
        (evaluate_order_by_clause digit_floats digit_ops store by_name (text "rA"))
unfolding source_schema init_recordset get_grouped_recordset_schema Dict.get get_recordset_schema
    text_eq Dict.set find_set people
evaluate_order_by_clause-Ascending_example =
    evaluate_order_by_clause-Ascending digit_floats digit_ops store next (text "rA") (text "rC")
      (Schema.simple people) rows by_name refl refl refl uniform

sorted_rows :
    quicksort digit_floats digit_ops by_name rows
    ≡ ok (row 7 (text "ann") ∷ row 2 (text "bob") ∷ row 5 (text "cyd") ∷ [])
unfolding quicksort row_get lower get_elem? Dict.get text_eq less_values equal_values people
sorted_rows = refl
