-- ===== src/Schema.antt =====
-- learndb/schema.py: columns, the simple schema, its validation and its generation from a parsed
-- create statement.
pub mod Valid
use learndb_py.Prelude.{
  ℕ, zero, suc, ◌+◌, ◌≡◌, Bool, true, false, Option, none, some, List, [], ◌∷◌, length, ◌==◌,
  if◌then◌else◌,
}
use learndb_py.Bytes.Utf8.{Text}
use learndb_py.Names.{text, text_eq, lower}
use learndb_py.Datatypes.{DataType, integer_type, real_type, text_type, blob_type, null_type}
use learndb_py.Responses.{
  Response, success, failure, missing_primary_key, primary_key_not_integer, duplicate_column_name,
  unrecognized_datatype, unparsed_datatype, schema_validation,
}

pub record Column : Type 0 where
  pub name : Text
  pub datatype : DataType
  pub is_primary_key : Bool
  pub is_nullable : Bool

-- `Column(name, datatype, is_primary_key, is_nullable)`
unfoldable pub column : Text → DataType → Bool → Bool → Column
column name datatype pk nullable = record {
  name = lower name;
  datatype = datatype;
  is_primary_key = pk;
  is_nullable = nullable;
}

pub record SimpleSchema : Type 0 where
  pub name : Text
  pub cols : List Column

unfoldable pub first_primary_key : List Column → Option Column
first_primary_key [] = none
first_primary_key (c ∷ cs) = if c.is_primary_key then some c else first_primary_key cs

-- `SimpleSchema.get_primary_key_column`
unfoldable pub get_primary_key_column : SimpleSchema → Option Text
unfolding first_primary_key
get_primary_key_column s = elim (first_primary_key s.cols) [ none ↦ none | some c ↦ some c.name ]

unfoldable pub find_column : Text → List Column → Option Column
find_column name [] = none
find_column name (c ∷ cs) = if text_eq (lower c.name) name then some c else find_column name cs

-- `SimpleSchema.get_column_by_name`
unfoldable pub get_column_by_name : SimpleSchema → Text → Option Column
unfolding find_column
get_column_by_name s name = find_column (lower name) s.cols

-- `SimpleSchema.has_column`
unfoldable pub has_column : SimpleSchema → Text → Bool
unfolding get_column_by_name
has_column s name = elim (get_column_by_name s name) [ none ↦ false | some c ↦ true ]

-- `[col for col in schema.columns if col.is_primary_key]`
unfoldable pub primary_keys : List Column → List Column
primary_keys [] = []
primary_keys (c ∷ cs) = if c.is_primary_key then c ∷ primary_keys cs else primary_keys cs

abbrev pub is_integer : DataType → Bool
is_integer integer_type = true
is_integer _ = false

unfoldable pub text_member : Text → List Text → Bool
text_member a [] = false
text_member a (b ∷ bs) = if text_eq a b then true else text_member a bs

-- The loop over `names`, the set of what has been seen.
unfoldable pub check_unique : List Text → List Column → Response (Unit {0})
unfolding text_member
check_unique names [] = success tt
check_unique names (c ∷ cs) =
    let rest = check_unique (c.name ∷ names) cs in
    if text_member c.name names then failure (duplicate_column_name c.name) else rest

-- `validate_schema`. The test of the datatypes holds by the type of a column.
unfoldable pub validate_schema : SimpleSchema → Response (Unit {0})
unfolding primary_keys first_primary_key check_unique
validate_schema s =
    if length (primary_keys s.cols) == 1
    then elim (first_primary_key s.cols) [
      | none ↦ failure missing_primary_key
      | some pkey ↦
          if is_integer pkey.datatype
          then check_unique [] s.cols
          else failure primary_key_not_integer
    ]
    else failure missing_primary_key

-- `SymbolicDataType` of learndb/lang_parser/symbols.py.
pub data SymbolicDataType : Type 0 where
  integer_sym text_sym real_sym blob_sym boolean_sym : SymbolicDataType

unfoldable pub token_to_datatype : SymbolicDataType → Response DataType
token_to_datatype integer_sym = success integer_type
token_to_datatype text_sym = success text_type
token_to_datatype blob_sym = success blob_type
token_to_datatype real_sym = success real_type
token_to_datatype boolean_sym = failure unrecognized_datatype

-- A column definition of a create statement, as the parser returns it.
pub record ColumnDef : Type 0 where
  pub column_name : Text
  pub datatype : SymbolicDataType
  pub is_primary_key : Bool
  pub is_nullable : Bool

pub record CreateStmnt : Type 0 where
  pub table_name : Text
  pub columns : List ColumnDef

-- The loop of `generate_schema`, with the columns read so far.
unfoldable pub generate_columns : List ColumnDef → Response (List Column)
unfolding token_to_datatype column
generate_columns [] = success []
generate_columns (d ∷ ds) =
    let rest = generate_columns ds in
    elim (token_to_datatype d.datatype) [
      | failure m ↦ failure unparsed_datatype
      | success t ↦ elim rest [
        | failure m ↦ failure m
        | success cs ↦ success (column (lower d.column_name) t d.is_primary_key d.is_nullable ∷ cs)
      ]
    ]

-- `generate_schema`
unfoldable pub generate_schema : CreateStmnt → Response SimpleSchema
unfolding generate_columns validate_schema
generate_schema stmnt = elim (generate_columns stmnt.columns) [
  | failure m ↦ failure m
  | success cols ↦
      let schema : SimpleSchema = record { name = stmnt.table_name; cols = cols } in
      elim (validate_schema schema) [
        | failure m ↦ failure (schema_validation m)
        | success _ ↦ success schema
      ]
]

-- The schema of the catalog, `CatalogSchema`.
abbrev pub catalog_schema : SimpleSchema
unfolding column lower
catalog_schema = record {
  name = text "catalog";
  cols =
      column (text "pkey") integer_type true true
      ∷ column (text "name") text_type false true
      ∷ column (text "root_pagenum") integer_type false true
      ∷ column (text "sql_text") text_type false true
      ∷ [];
}
