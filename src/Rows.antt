-- ===== src/Rows.antt =====
-- learndb/schema.py and learndb/record_utils.py: the scoped and grouped schemas and records, which joins,
-- aliases and groups make.
use learndb_py.Prelude.{
  Bool, true, false, not, ◌&&◌, Option, none, some, List, [], ◌∷◌, ◌++◌, if◌then◌else◌, Result, ok,
  err, Error, key, value, index, assert, ◌>>=◌, ◌>>◌,
}
use learndb_py.Bytes.Utf8.{Text}
use learndb_py.Names.{text_eq, lower}
use learndb_py.Datatypes.{Value, null}
use learndb_py.Schema.{Column, SimpleSchema, get_column_by_name}
use learndb_py.Records.{SimpleRecord, get}
use learndb_py.Syntax.{split_name}

-- A non-grouped schema; `Schemas` is the dict from the aliases of a scoped one.
mutual
  pub data Schema : Type 0 where
    simple : SimpleSchema → Schema
    scoped : Schemas → Schema

  pub data Schemas : Type 0 where
    no_schemas : Schemas
    named : Text → Schema → Schemas → Schemas

-- A record of a non-grouped record set.
mutual
  pub data Row (R : Type 0) : Type 0 where
    simple : SimpleRecord R → Row R
    scoped : Rows R → Schema → Row R

  pub data Rows (R : Type 0) : Type 0 where
    no_rows : Rows R
    named : Text → Row R → Rows R → Rows R

pub record GroupedSchema : Type 0 where
  pub schema : Schema
  pub group_by_columns : List Text

pub record GroupedRecord (R : Type 0) : Type 0 where
  pub schema : GroupedSchema
  pub group_key : List (Value R)
  pub group_recordset : List (Row R)

-- `columns`
unfoldable mutual
  pub columns : Schema → List Column
  columns (Schema.simple s) = s.cols
  columns (Schema.scoped ss) = all_columns ss

  pub all_columns : Schemas → List Column
  all_columns no_schemas = []
  all_columns (Schemas.named alias s ss) = columns s ++ all_columns ss

unfoldable pub find_schema : Text → Schemas → Option Schema
find_schema alias no_schemas = none
find_schema alias (Schemas.named a s ss) = if text_eq a alias then some s else find_schema alias ss

-- The search of `ScopedSchema.get_column_by_name`, whose name is not lowered.
unfoldable pub find_lower : Text → List Column → Option Column
find_lower name [] = none
find_lower name (c ∷ cs) = if text_eq (lower c.name) name then some c else find_lower name cs

unfoldable pub scoped_column : Schemas → List Text → Result (Option Column)
unfolding find_schema find_lower columns
scoped_column ss (alias ∷ column ∷ []) = elim (find_schema alias ss) [
  | none ↦ err key
  | some s ↦ ok (find_lower column (columns s))
]
scoped_column ss _ = err Error.assertion

-- `get_column_by_name` of a simple and of a scoped schema.
unfoldable pub get_column : Schema → Text → Result (Option Column)
unfolding get_column_by_name scoped_column split_name
get_column (Schema.simple s) name = ok (get_column_by_name s name)
get_column (Schema.scoped ss) name = scoped_column ss (split_name name)

-- `has_column`
unfoldable pub schema_has_column : Schema → Text → Result Bool
unfolding get_column
schema_has_column s name = do c ← get_column s name; ok (elim c [ none ↦ false | some c ↦ true ])

unfoldable pub add_schema : Text → Schema → Schemas → Schemas
add_schema alias s no_schemas = Schemas.named alias s no_schemas
add_schema alias s (Schemas.named a t ss) =
    if text_eq a alias then Schemas.named a s ss else Schemas.named a t (add_schema alias s ss)

-- `ScopedSchema.from_single_schema`
unfoldable pub from_single_schema : SimpleSchema → Text → Schema
from_single_schema s alias = Schema.scoped (Schemas.named alias (Schema.simple s) no_schemas)

-- `ScopedSchema.from_schemas`
unfoldable pub from_schemas : Schema → Schema → Option Text → Text → Result Schema
unfolding add_schema
from_schemas (Schema.simple left) right (some left_alias) right_alias = ok (
    Schema.scoped
      (add_schema right_alias right (Schemas.named left_alias (Schema.simple left) no_schemas)))
from_schemas (Schema.simple left) right none right_alias = err Error.assertion
from_schemas (Schema.scoped left) right left_alias right_alias =
    ok (Schema.scoped (add_schema right_alias right left))

-- The columns of a schema behind an alias, with the names `alias.name`.
unfoldable pub prefixed : Text → List Column → List Column
prefixed alias [] = []
prefixed alias (c ∷ cs) = record c { name = alias ++ b'.' ∷ c.name } ∷ prefixed alias cs

unfoldable pub prefixed_columns : Schemas → List Column
unfolding prefixed columns
prefixed_columns no_schemas = []
prefixed_columns (Schemas.named alias s ss) = prefixed alias (columns s) ++ prefixed_columns ss

-- `GroupedSchema.columns`
unfoldable pub grouped_columns : GroupedSchema → List Column
unfolding prefixed_columns
grouped_columns g = elim g.schema [
  | Schema.simple s ↦ s.cols
  | Schema.scoped ss ↦ prefixed_columns ss
]

-- `GroupedSchema.get_column_by_name`
unfoldable pub grouped_get_column : GroupedSchema → Text → Option Column
unfolding grouped_columns find_lower
grouped_get_column g name = find_lower (lower name) (grouped_columns g)

-- `GroupedSchema.has_column`
unfoldable pub grouped_has_column : GroupedSchema → Text → Bool
unfolding grouped_get_column
grouped_has_column g name = elim (grouped_get_column g name) [ none ↦ false | some c ↦ true ]

unfoldable pub is_lower_member : Text → List Text → Bool
is_lower_member name [] = false
is_lower_member name (c ∷ cs) = if text_eq name (lower c) then true else is_lower_member name cs

-- `GroupedSchema.is_grouping_column`
unfoldable pub is_grouping_column : GroupedSchema → Text → Bool
unfolding is_lower_member
is_grouping_column g name = is_lower_member (lower name) g.group_by_columns

-- `GroupedSchema.is_non_grouping_column`
unfoldable pub is_non_grouping_column : GroupedSchema → Text → Bool
unfolding grouped_has_column is_grouping_column
is_non_grouping_column g name = grouped_has_column g name && not (is_grouping_column g name)

-- `table, column = parts`
unfoldable pub two_parts : List Text → Result (Text × Text)
two_parts (table ∷ column ∷ []) = ok (table, column)
two_parts _ = err Error.invalid_name

-- A simple record is asked for the column, and a scoped one for the whole name, whose first part is the
-- alias of a record in it.
unfoldable mutual
  unfolding get split_name two_parts

  pub row_lookup : {R : Type 0} → Row R → Text → Text → Result (Value R)
  row_lookup (Row.simple r) name column = get r column
  row_lookup (Row.scoped rows s) name column = do
    (table, part) ← two_parts (split_name name)
    get_named rows name table part

  pub get_named : {R : Type 0} → Rows R → Text → Text → Text → Result (Value R)
  get_named no_rows name table column = err value
  get_named (Rows.named a r rows) name table column =
      let here = row_lookup r name column in
      let rest = get_named rows name table column in if text_eq a table then here else rest

-- `record.get` of a simple and of a scoped record.
unfoldable pub row_get : {R : Type 0} → Row R → Text → Result (Value R)
unfolding row_lookup
row_get r name = row_lookup r name name

module _ {R : Type 0} where
  unfoldable pub has_alias : Text → Rows R → Bool
  has_alias alias no_rows = false
  has_alias alias (Rows.named a r rows) =
      let rest = has_alias alias rows in if text_eq a alias then true else rest

  unfoldable pub add_row : Text → Row R → Rows R → Rows R
  add_row alias r no_rows = Rows.named alias r no_rows
  add_row alias r (Rows.named a q rows) =
      if text_eq a alias then Rows.named a r rows else Rows.named a q (add_row alias r rows)

  -- `ScopedRecord.from_single_simple_record`
  unfoldable pub from_single_simple_record : SimpleRecord R → Text → Schema → Row R
  from_single_simple_record r alias s = Row.scoped (Rows.named alias (Row.simple r) no_rows) s

  -- `ScopedRecord.from_simple_records`
  unfoldable pub from_simple_records : SimpleRecord R → Row R → Text → Text → Schema → Row R
  unfolding add_row
  from_simple_records left right left_alias right_alias s =
      Row.scoped (add_row right_alias right (Rows.named left_alias (Row.simple left) no_rows)) s

  -- `ScopedRecord.from_joined_and_simple_record`
  unfoldable pub from_joined_and_simple_record : Rows R → Row R → Text → Schema → Result (Row R)
  unfolding has_alias add_row
  from_joined_and_simple_record names right right_alias s = do
    assert (not (has_alias right_alias names))
    ok (Row.scoped (add_row right_alias right names) s)

  -- `ScopedRecord.from_records`; `None in names` does not hold.
  unfoldable pub from_records : Row R → Row R → Option Text → Text → Schema → Result (Row R)
  unfolding from_simple_records from_joined_and_simple_record
  from_records (Row.simple left) right (some left_alias) right_alias s =
      ok (from_simple_records left right left_alias right_alias s)
  from_records (Row.simple left) right none right_alias s = err Error.assertion
  from_records (Row.scoped names t) right none right_alias s = err Error.assertion
  from_records (Row.scoped names t) right (some left_alias) right_alias s = do
    assert (has_alias left_alias names)
    from_joined_and_simple_record names right right_alias s

  unfoldable pub group_value : List Text → List (Value R) → Text → Option (Result (Value R))
  group_value [] vs column = none
  group_value (c ∷ cs) [] column =
      if text_eq c column then some (err index) else group_value cs [] column
  group_value (c ∷ cs) (v ∷ vs) column =
      if text_eq c column then some (ok v) else group_value cs vs column

  -- `GroupedRecord.get`
  unfoldable pub grouped_get : GroupedRecord R → Text → Result (Value R)
  unfolding group_value
  grouped_get r column = elim (group_value r.schema.group_by_columns r.group_key (lower column)) [
    | some v ↦ v
    | none ↦ if grouped_has_column r.schema (lower column) then err Error.unaggregated else ok null
  ]

  unfoldable pub values_of_column : List (Row R) → Text → Result (List (Value R))
  values_of_column [] column = ok []
  values_of_column (r ∷ rs) column =
      let rest = values_of_column rs column in (do v ← row_get r column; vs ← rest; ok (v ∷ vs))

  -- `GroupedRecord.recordset_to_values`
  unfoldable pub recordset_to_values : GroupedRecord R → Text → Result (List (Value R))
  unfolding values_of_column
  recordset_to_values r column = values_of_column r.group_recordset column
