-- ===== src/Analysis/Columns.antt =====
-- A column of a valid simple record (learndb/record_utils.py) has a value of the type that
-- learndb/name_registry.py reads in the schema (learndb/schema.py).
use learndb_py.Prelude.{◌≡◌, sym, subst, true, List, [], ◌∷◌, arith, ok, Bool-cases, some, inl, inr}
use learndb_py.Bytes.Utf8.{Text}
use learndb_py.Datatypes.{FloatFormat, Value, null, DataType, is_valid_term}
use learndb_py.Dict
use learndb_py.Names.{text_eq, lower}
use learndb_py.Responses.{success}
use learndb_py.Interp.{record_get, scalar}
use learndb_py.Analysis.{over, column_type}
use learndb_py.Prelude.{All, Option-cases, ap, ◌∙◌}
use learndb_py.Names.{text_eq→eq}
use learndb_py.Schema.{Column, SimpleSchema, get_column_by_name, find_column}
use learndb_py.Records.{SimpleRecord, validate_record, value_of, get}
use learndb_py.Rows.{Schema, Row, row_get, get_column}
use learndb_py.Interp.{resolve_column_name_type}
use learndb_py.Records.Checks.{Fits, validate_record_iff}
use learndb_py.Analysis.Typing.{HasType}

find_column-Fits :
    (P : Column → Type 0) (name : Text) (cs : List Column) (c : Column)
    → All P cs
    → All (λ (d : Column). lower d.name ≡ d.name) cs
    → find_column name cs ≡ some c
    → P c × (c.name ≡ name)
unfolding find_column
find_column-Fits P name [] c ps ls h = cc
find_column-Fits P name (d ∷ cs) c ps ls h = elim (Bool-cases (text_eq (lower d.name) name)) [
  | inl e ↦
      let same : d ≡ c = cc (rw e at h) in
      (
        subst P same ps.0,
        subst (λ (k : Column). k.name ≡ name) same (sym ls.0 ∙ text_eq→eq (lower d.name) name e),
      )
  | inr e ↦ find_column-Fits P name cs c ps.1 ls.1 (rw e at h)
]

module _ (f : FloatFormat) where
  open f use {Real}

  valid-HasType : (t : DataType) (v : Value Real) → is_valid_term f t v ≡ ok true → HasType t v
  unfolding is_valid_term
  valid-HasType t v h = ground arith

  Fits-HasType : (c : Column) (v : Value Real) → Fits f c v → HasType c.datatype v
  Fits-HasType c null h = tt
  Fits-HasType c v h = valid-HasType c.datatype v h

  found_type :
      (s : SimpleSchema) (name : Text) (t : DataType)
      → column_type (over (Schema.simple s)) name ≡ ok t
      → (c : Column) × (find_column (lower name) s.cols ≡ some c) × (c.datatype ≡ t)
  unfolding column_type resolve_column_name_type get_column get_column_by_name
  found_type s name t h = elim (Option-cases (find_column (lower name) s.cols)) [
    | inl e ↦ absurd (cc (rw e at h))
    | inr (c, e) ↦ (c, e, cc (rw e at h))
  ]

  found_value :
      (r : SimpleRecord Real) (name : Text) (v : Value Real)
      → record_get (scalar (Row.simple r)) name ≡ ok v
      → value_of r.values (lower name) ≡ v
  unfolding record_get row_get get value_of
  found_value r name v h = elim (Option-cases (Dict.get (lower name) r.values)) [
    | inl e ↦ absurd (cc (rw e at h))
    | inr (w, e) ↦ rw e (cc (rw e at h))
  ]

  pub simple-HasType :
      (r : SimpleRecord Real)
      → validate_record f r ≡ ok (success tt)
      → All (λ (c : Column). lower c.name ≡ c.name) r.schema.cols
      → (name : Text) (t : DataType) (v : Value Real)
      → column_type (over (Schema.simple r.schema)) name ≡ ok t
      → record_get (scalar (Row.simple r)) name ≡ ok v
      → HasType t v
  simple-HasType r valid lowered name t v h k =
      let (c, found, same) = found_type r.schema name t h in
      let (fits, named) =
        find_column-Fits (λ (d : Column). Fits f d (value_of r.values d.name)) (lower name)
          r.schema.cols c ((validate_record_iff f r).0 valid) lowered found in
      let held : value_of r.values c.name ≡ v =
        ap (value_of r.values) named ∙ found_value r name v k in
      subst (λ (u : DataType). HasType u v) same (Fits-HasType c v (subst (Fits f c) held fits))
