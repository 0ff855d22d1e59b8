-- ===== src/Tests/Joins.antt =====
-- The properties of joins at concrete inputs.
use learndb_py.Prelude.{ℕ, ◌≡◌, refl, some, none, List, [], ◌∷◌, ok}
use learndb_py.Names.{text, lower, text_eq}
use learndb_py.Dict
use learndb_py.Values.{equal_values}
use learndb_py.Syntax.{Symbol, expr, comparison, column_name, equal, split_name, inner, left_outer}
use learndb_py.Rows.{
  Schema, Schemas, no_schemas, no_rows, add_row, add_schema, Row, Rows, from_schemas, from_records,
  row_get,
}
use learndb_py.Interp.{evaluate_over_record}
use learndb_py.Store.{
  Store, Scope, init_recordset, get_grouped_recordset_schema, get_recordset_schema, find_set,
}
use learndb_py.Store.Sets.{view}
use learndb_py.Query.Sources.{source_schema}
use learndb_py.Query.Held.{Makes}
use learndb_py.Query.Joins.{join_recordset, null_row, is_truthy}
use learndb_py.Query.Joined.{JoinedRows, no_right, joined, apart, no_left, left_joined, left_alone}
use learndb_py.Query.JoinedSets.{JoinOf, inner_join-Makes, left_join-Makes}
use learndb_py.Tests.Floats.{digit_floats}
use learndb_py.Tests.Queries.{digit_ops, people, row}

abbrev lefts : List (Row ℕ)
lefts = row 2 (text "bob") ∷ row 7 (text "ann") ∷ []

abbrev rights : List (Row ℕ)
rights = row 7 (text "kim") ∷ []

abbrev both : Schema
both = Schema.scoped (
    Schemas.named (text "a") (Schema.simple people)
      (Schemas.named (text "b") (Schema.simple people) no_schemas))

abbrev scope : List (Row ℕ) → Schema → Scope ℕ
scope rs q = record {
  record_sets = (text "rA", rs) ∷ (text "rB", rights) ∷ [];
  group_rsets = [];
  rsets_schemas = (text "rA", q) ∷ (text "rB", Schema.simple people) ∷ [];
  group_rsets_schemas = [];
}

abbrev store_of : List (Row ℕ) → Schema → Store ℕ
store_of rs q = record {
  schemas = [];
  trees = [];
  scopes = scope rs q ∷ [];
  draws = text "C" ∷ text "D" ∷ [];
}

abbrev begun_of : List (Row ℕ) → Schema → Schema → Store ℕ
begun_of rs q joined_schema = record {
  schemas = [];
  trees = [];
  scopes =
      record (scope rs q) {
        record_sets = (text "rA", rs) ∷ (text "rB", rights) ∷ (text "rC", []) ∷ [];
        rsets_schemas =
            (text "rA", q) ∷ (text "rB", Schema.simple people) ∷ (text "rC", joined_schema) ∷ [];
      }
      ∷ [];
  draws = text "D" ∷ [];
}

abbrev store : Store ℕ
store = store_of lefts (Schema.simple people)

store_reads_left : source_schema (store) (text "rA") ≡ ok (Schema.simple people)
unfolding source_schema init_recordset get_grouped_recordset_schema Dict.get get_recordset_schema
    text_eq Dict.set find_set from_schemas add_schema people
store_reads_left = refl

store_reads_right : source_schema (store) (text "rB") ≡ ok (Schema.simple people)
unfolding source_schema init_recordset get_grouped_recordset_schema Dict.get get_recordset_schema
    text_eq Dict.set find_set from_schemas add_schema people
store_reads_right = refl

store_joins :
    from_schemas (Schema.simple people) (Schema.simple people) (some (text "a")) (text "b")
    ≡ ok (both)
unfolding source_schema init_recordset get_grouped_recordset_schema Dict.get get_recordset_schema
    text_eq Dict.set find_set from_schemas add_schema people
store_joins = refl

store_inits :
    init_recordset (store) (both) ≡ ok (text "rC", begun_of (lefts) (Schema.simple people) (both))
unfolding source_schema init_recordset get_grouped_recordset_schema Dict.get get_recordset_schema
    text_eq Dict.set find_set from_schemas add_schema people
store_inits = refl

store_left : view (store) (text "rA") ≡ some (lefts)
unfolding find_set Dict.get text_eq
store_left = refl

store_right : view (store) (text "rB") ≡ some rights
unfolding find_set Dict.get text_eq
store_right = refl

abbrev joining :
    JoinOf digit_floats digit_ops store
      (text "rA")
      (text "rB")
      (some (text "a"))
      (text "b")
      (text "rC")
      lefts
      rights
joining = record {
  left_schema = Schema.simple people;
  right_schema = Schema.simple people;
  schema = both;
  begun = begun_of lefts (Schema.simple people) both;
  reads_left = store_reads_left;
  reads_right = store_reads_right;
  joins = store_joins;
  inits = store_inits;
  holds_left = store_left;
  holds_right = store_right;
}

-- a.id = b.id
abbrev same_id : Symbol ℕ
same_id = expr (comparison (column_name (text "a.id")) (column_name (text "b.id")) equal)

abbrev pair : Row ℕ → Row ℕ → Row ℕ
pair l r = Row.scoped (Rows.named (text "a") l (Rows.named (text "b") r no_rows)) both

bob_joins :
    JoinedRows digit_floats digit_ops same_id
      (some (text "a"))
      (text "b")
      both
      (row 2 (text "bob"))
      rights
      []
unfolding from_records add_row evaluate_over_record row_get lower equal_values is_truthy split_name
    text_eq Dict.get people
bob_joins = apart {row = pair (row 2 (text "bob")) (row 7 (text "kim"))} refl refl refl no_right

ann_joins :
    JoinedRows digit_floats digit_ops same_id
      (some (text "a"))
      (text "b")
      both
      (row 7 (text "ann"))
      rights
      (pair (row 7 (text "ann")) (row 7 (text "kim")) ∷ [])
unfolding from_records add_row evaluate_over_record row_get lower equal_values is_truthy split_name
    text_eq Dict.get people
ann_joins = joined refl refl refl no_right

inner_join-Makes_example :
    Makes store (text "rC") (pair (row 7 (text "ann")) (row 7 (text "kim")) ∷ []) (
      join_recordset digit_floats digit_ops store
        (record { join_type = inner; condition = same_id })
        (text "rA")
        (text "rB")
        (some (text "a"))
        (text "b"))
inner_join-Makes_example =
    inner_join-Makes digit_floats digit_ops store (text "rA") (text "rB") (some (text "a"))
      (text "b") (text "rC") lefts rights joining same_id
      (pair (row 7 (text "ann")) (row 7 (text "kim")) ∷ [])
      (left_joined bob_joins (left_joined ann_joins no_left))

left_join-Makes_example :
    Makes store
      (text "rC")
      (pair (row 2 (text "bob")) (null_row (Schema.simple people))
        ∷ pair (row 7 (text "ann")) (row 7 (text "kim"))
        ∷ [])
      (join_recordset digit_floats digit_ops store
        (record { join_type = left_outer; condition = same_id })
        (text "rA")
        (text "rB")
        (some (text "a"))
        (text "b"))
unfolding from_records add_row text_eq
left_join-Makes_example =
    left_join-Makes digit_floats digit_ops store (text "rA") (text "rB") (some (text "a"))
      (text "b") (text "rC") lefts rights joining same_id
      (pair (row 2 (text "bob")) (null_row (Schema.simple people))
        ∷ pair (row 7 (text "ann")) (row 7 (text "kim"))
        ∷ [])
      (left_alone bob_joins refl (left_joined ann_joins no_left))

-- Joined rows on the left, without an alias.
abbrev joined_lefts : List (Row ℕ)
joined_lefts = pair (row 7 (text "ann")) (row 7 (text "kim")) ∷ []

abbrev three : Schema
three = Schema.scoped (
    Schemas.named (text "a") (Schema.simple people) (
      Schemas.named (text "b") (Schema.simple people)
        (Schemas.named (text "c") (Schema.simple people) no_schemas)))

more_reads_left : source_schema (store_of joined_lefts both) (text "rA") ≡ ok (both)
unfolding source_schema init_recordset get_grouped_recordset_schema Dict.get get_recordset_schema
    text_eq Dict.set find_set from_schemas add_schema people
more_reads_left = refl

more_reads_right :
    source_schema (store_of joined_lefts both) (text "rB") ≡ ok (Schema.simple people)
unfolding source_schema init_recordset get_grouped_recordset_schema Dict.get get_recordset_schema
    text_eq Dict.set find_set from_schemas add_schema people
more_reads_right = refl

more_joins : from_schemas (both) (Schema.simple people) (none) (text "c") ≡ ok (three)
unfolding source_schema init_recordset get_grouped_recordset_schema Dict.get get_recordset_schema
    text_eq Dict.set find_set from_schemas add_schema people
more_joins = refl

more_inits :
    init_recordset (store_of joined_lefts both) (three)
    ≡ ok (text "rC", begun_of (joined_lefts) (both) (three))
unfolding source_schema init_recordset get_grouped_recordset_schema Dict.get get_recordset_schema
    text_eq Dict.set find_set from_schemas add_schema people
more_inits = refl

more_left : view (store_of joined_lefts both) (text "rA") ≡ some (joined_lefts)
unfolding find_set Dict.get text_eq
more_left = refl

more_right : view (store_of joined_lefts both) (text "rB") ≡ some rights
unfolding find_set Dict.get text_eq
more_right = refl

abbrev joining_more :
    JoinOf digit_floats digit_ops
      (store_of joined_lefts both)
      (text "rA")
      (text "rB")
      none
      (text "c")
      (text "rC")
      joined_lefts
      rights
joining_more = record {
  left_schema = both;
  right_schema = Schema.simple people;
  schema = three;
  begun = begun_of joined_lefts both three;
  reads_left = more_reads_left;
  reads_right = more_reads_right;
  joins = more_joins;
  inits = more_inits;
  holds_left = more_left;
  holds_right = more_right;
}
