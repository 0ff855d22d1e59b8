-- ===== src/Records.antt =====
-- learndb/record_utils.py: the simple record, its validation and its creation. The parser's
-- `Literal` boxes are taken off: a value list holds values.
pub mod Checks
use learndb_py.Prelude.{
  ℕ, zero, suc, ◌≡◌, Bool, true, false, not, ◌&&◌, Option, none, some, List, [], ◌∷◌, length, ◌==◌,
  if◌then◌else◌, Result, Error, ok, err, ◌>>=◌, key, value, get_elem?, ltb, pos,
}
use learndb_py.Bytes.Utf8.{Text}
use learndb_py.Names.{text, lower}
use learndb_py.Dict
use learndb_py.Dict.{Dict}
use learndb_py.Datatypes.{FloatFormat, Value, null, int, str, is_valid_term}
use learndb_py.Responses.{
  Response, success, failure, unset_non_nullable, unset_primary_key, invalid_term, count_mismatch,
  record_validation,
}
use learndb_py.Schema.{Column, SimpleSchema, get_primary_key_column, catalog_schema}

pub record SimpleRecord (R : Type 0) : Type 0 where
  pub values : Dict (Value R)
  pub schema : SimpleSchema

module _ {R : Type 0} where
  abbrev pub or_null : Option (Value R) → Value R
  or_null none = null
  or_null (some v) = v

  -- `record.values.get(name)`, where None stands for a missing key too.
  unfoldable pub value_of : Dict (Value R) → Text → Value R
  value_of d name = or_null (Dict.get name d)

  abbrev pub or_key_error : Option (Value R) → Result (Value R)
  or_key_error none = err key
  or_key_error (some v) = ok v

  -- `SimpleRecord.get`
  unfoldable pub get : SimpleRecord R → Text → Result (Value R)
  get r column = or_key_error (Dict.get (lower column) r.values)

  -- `SimpleRecord.at_index`
  unfoldable pub at_index : SimpleRecord R → ℕ → Result (Value R)
  at_index r i = elim (get_elem? r.schema.cols i) [
    | none ↦ err value
    | some c ↦ or_key_error (Dict.get (lower c.name) r.values)
  ]

  -- `SimpleRecord.has_column`
  unfoldable pub has_column : SimpleRecord R → Text → Bool
  has_column r column = Dict.contains (lower column) r.values

  -- `SimpleRecord.get_primary_key`; `None.lower()` is an AttributeError.
  unfoldable pub get_primary_key : SimpleRecord R → Result (Value R)
  unfolding get
  get_primary_key r = elim (get_primary_key_column r.schema) [
    | none ↦ err Error.attribute
    | some k ↦ get r k
  ]

  unfoldable pub null_values : List Column → Dict (Value R) → Dict (Value R)
  null_values [] d = d
  null_values (c ∷ cs) d = null_values cs (Dict.set c.name null d)

  -- The loop of `create_record` over the names, which are lowered, and the values beside them.
  unfoldable pub fill_values : List Text → List (Value R) → Dict (Value R) → Dict (Value R)
  fill_values [] vs d = d
  fill_values (n ∷ ns) [] d = d
  fill_values (n ∷ ns) (v ∷ vs) d = fill_values ns vs (Dict.set (lower n) v d)

  -- The loop of `create_record_from_raw_values`, which keeps the names as they are.
  unfoldable pub fill_raw_values : List Text → List (Value R) → Dict (Value R) → Dict (Value R)
  fill_raw_values [] vs d = d
  fill_raw_values (n ∷ ns) [] d = d
  fill_raw_values (n ∷ ns) (v ∷ vs) d = fill_raw_values ns vs (Dict.set n v d)

module _ (f : FloatFormat) where
  open f use {Real}

  -- One round of the loop of `validate_record`.
  unfoldable pub validate_column : Column → Value Real → Result (Response (Unit {0}))
  validate_column c null =
      if not c.is_nullable
      then ok (failure (unset_non_nullable c.name))
      else if c.is_primary_key
      then ok (failure (unset_primary_key c.name))
      else ok (success tt)
  validate_column c v = do
    valid ← is_valid_term f c.datatype v
    ok (if valid then success tt else failure (invalid_term c.name))

  unfoldable pub validate_columns : List Column → Dict (Value Real) → Result (Response (Unit {0}))
  unfolding validate_column value_of
  validate_columns [] d = ok (success tt)
  validate_columns (c ∷ cs) d =
      let rest = validate_columns cs d in
      (validate_column c (value_of d c.name))
      >>= elim [ failure m ↦ ok (failure m) | success _ ↦ rest ]

  -- `validate_record`
  unfoldable pub validate_record : SimpleRecord Real → Result (Response (Unit {0}))
  unfolding validate_columns
  validate_record r = validate_columns r.schema.cols r.values

  abbrev pub checked : SimpleRecord Real → Response (Unit {0}) → Response (SimpleRecord Real)
  checked r (success _) = success r
  checked r (failure m) = failure (record_validation m)

  -- `create_record`
  unfoldable pub create_record :
      List Text → List (Value Real) → SimpleSchema → Result (Response (SimpleRecord Real))
  create_record names vs schema =
      if not (length names == length vs)
      then ok (failure (count_mismatch (length names) (length vs)))
      else do
        let r : SimpleRecord Real = record { values = fill_values names vs []; schema = schema }
        resp ← validate_record r
        ok (checked r resp)

  -- `create_record_from_raw_values`
  unfoldable pub create_record_from_raw_values :
      List Text → List (Value Real) → SimpleSchema → Result (Response (SimpleRecord Real))
  create_record_from_raw_values names vs schema =
      if not (length names == length vs)
      then ok (failure (count_mismatch (length names) (length vs)))
      else do
        let r : SimpleRecord Real = record { values = fill_raw_values names vs []; schema = schema }
        resp ← validate_record r
        ok (checked r resp)

  -- `create_catalog_record`
  unfoldable pub create_catalog_record :
      ℕ → Text → ℕ → Text → SimpleSchema → Result (Response (SimpleRecord Real))
  unfolding create_record
  create_catalog_record pkey table_name root_page_num sql_text schema =
      create_record (text "pkey" ∷ text "name" ∷ text "root_pagenum" ∷ text "sql_text" ∷ [])
        (int (pos pkey) ∷ str table_name ∷ int (pos root_page_num) ∷ str sql_text ∷ []) schema

-- `create_null_record`
unfoldable pub create_null_record : {R : Type 0} → SimpleSchema → SimpleRecord R
unfolding null_values
create_null_record s = record { values = null_values s.cols []; schema = s }
