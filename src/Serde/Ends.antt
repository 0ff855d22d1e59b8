-- ===== src/Serde/Ends.antt =====
-- The end of the runs of `deserialize_cell` of learndb/serde.py.
use learndb_py.Prelude.{
  ℕ, zero, suc, ◌+◌, ◌≤◌, ◌<◌, ◌≡◌, ◌≢◌, ap, List, length, arith, Result, ok, err, stuck, assert,
  >>=-eq-ok, >>=-ne-stuck, assert-ne-stuck, Bool-cases, inl, inr, ltb, ◌==◌,
}
use learndb_py.Bytes.Slices.{Bytes}
use learndb_py.Bytes.Utf8.{decode, decode-ne-stuck}
use learndb_py.Datatypes.{
  FloatFormat, DataType, integer_type, real_type, text_type, blob_type, null_type, is_fixed_length,
  is_serializable, deserialize,
}
use learndb_py.Constants.{word}
use learndb_py.Schema.{Column, SimpleSchema, primary_keys}
use learndb_py.Serde.{
  Reader, serial_type, serialtype_to_datatype, column_at, next_column, read_varlen, read_body,
  read_column, read_columns, deserialize_cell,
}

column_at-ne-stuck : (cols : List Column) (i : ℕ) → column_at cols i ≢ err stuck
unfolding column_at
column_at-ne-stuck cols i = ground arith

next_column-ne-stuck : (cols : List Column) (i : ℕ) → next_column cols i ≢ err stuck
unfolding next_column
next_column-ne-stuck cols i =
    >>=-ne-stuck (column_at cols i) _ (column_at-ne-stuck cols i)
      λ c _. ground (arith, column_at-ne-stuck cols (i + 1))

serial_type-ne-stuck : (n : ℕ) → serial_type n ≢ err stuck
unfolding serial_type
serial_type-ne-stuck n = ground arith

read_varlen-le : (cell : Bytes) (t : DataType) (o : ℕ) → o ≤ (read_varlen cell t o).1
unfolding read_varlen
read_varlen-le cell t o = ground arith

module _ (f : FloatFormat) where
  open f use {Real, unpack, unpack_other, unpack_four}

  unpack-ne-stuck : (b : Bytes) → unpack b ≢ err stuck
  unpack-ne-stuck b = elim (Bool-cases (length b == 4)) [
    | inl e ↦ let (r, p) = unpack_four b (ground arith) in λ h. cc
    | inr e ↦ let p = unpack_other b (ground arith) in λ h. cc
  ]

  deserialize-ne-stuck : (t : DataType) (b : Bytes) → deserialize f t b ≢ err stuck
  unfolding deserialize
  deserialize-ne-stuck integer_type b = λ h. cc
  deserialize-ne-stuck real_type b = >>=-ne-stuck (unpack b) _ (unpack-ne-stuck b) (λ r _ h. cc)
  deserialize-ne-stuck text_type b = >>=-ne-stuck (decode b) _ (decode-ne-stuck b) (λ r _ h. cc)
  deserialize-ne-stuck blob_type b = λ h. cc
  deserialize-ne-stuck null_type b = λ h. cc

  read_body-ne-stuck : (cell : Bytes) (t : DataType) (n o : ℕ) → read_body f cell t n o ≢ err stuck
  unfolding read_body
  read_body-ne-stuck cell t n o = elim (Bool-cases (is_fixed_length t)) [
    | inl x ↦ elim (Bool-cases (is_serializable t)) [
      | inr z ↦ rw (x, z) (λ h. cc)
      | inl z ↦
          rw (x, z) (>>=-ne-stuck (deserialize f t _) _ (deserialize-ne-stuck t _) (λ v _ h. cc))
    ]
    | inr x ↦ rw x (
        >>=-ne-stuck (assert (ltb 0 n)) _ (assert-ne-stuck (ltb 0 n))
          λ _ _. >>=-ne-stuck (deserialize f t _) _ (deserialize-ne-stuck t _) (λ v _ h. cc))
  ]

  -- A round moves the header's offset on, and is not stuck itself.
  read_column-ne-stuck :
      (cell : Bytes) (cols : List Column) (s : Reader f) → read_column f cell cols s ≢ err stuck
  unfolding read_column
  read_column-ne-stuck cell cols s = >>=-ne-stuck (serial_type _) _ (serial_type-ne-stuck _) λ st _.
      >>=-ne-stuck (next_column cols s.col_pos) _ (next_column-ne-stuck cols s.col_pos) λ c _.
        >>=-ne-stuck (read_body f cell (serialtype_to_datatype st) _ s.data_offset) _
          (read_body-ne-stuck cell (serialtype_to_datatype st) _ s.data_offset) (λ v _ e. cc)

  abbrev offset_of : Reader f → Result (Reader f) → ℕ
  offset_of s (ok s') = s'.header_offset
  offset_of s (err e) = s.header_offset

  read_column_moves :
      (cell : Bytes) (cols : List Column) (s s' : Reader f)
      → read_column f cell cols s ≡ ok s'
      → s.header_offset < s'.header_offset
  unfolding read_column
  read_column_moves cell cols s s' h =
      let (st, _, h₁) = >>=-eq-ok (serial_type _) _ h in
      let (c, _, h₂) = >>=-eq-ok (next_column cols s.col_pos) _ h₁ in
      let (v, _, h₃) =
        >>=-eq-ok (read_body f cell (serialtype_to_datatype st) _ s.data_offset) _ h₂ in
      let moved : (read_varlen cell (serialtype_to_datatype st) (s.header_offset + word)).1
          ≡ s'.header_offset =
        ap (offset_of s) h₃ in
      omega (arith, moved, read_varlen-le cell (serialtype_to_datatype st) (s.header_offset + word))

  read_columns-ne-stuck :
      (fuel : ℕ) (cell : Bytes) (cols : List Column) (ubound : ℕ) (s : Reader f)
      → ubound ≤ s.header_offset + fuel
      → read_columns f fuel cell cols ubound s ≢ err stuck
  unfolding read_columns
  read_columns-ne-stuck zero cell cols ubound s h = ground arith
  read_columns-ne-stuck (suc fuel) cell cols ubound s h =
      elim (Bool-cases (ltb s.header_offset ubound)) [
        | inr e ↦ rw e (λ p. cc)
        | inl e ↦ rw e (
            >>=-ne-stuck (read_column f cell cols s) _ (read_column-ne-stuck cell cols s) λ s' q.
              read_columns-ne-stuck fuel cell cols ubound s'
                (omega (arith, read_column_moves cell cols s s' q)))
      ]

  -- Deserializing ends on all bytes, under every schema: the loop never runs out of fuel.
  pub deserialize_cell-ne-stuck :
      (cell : Bytes) (schema : SimpleSchema) → deserialize_cell f cell schema ≢ err stuck
  unfolding deserialize_cell
  deserialize_cell-ne-stuck cell schema =
      >>=-ne-stuck (assert (length (primary_keys schema.cols) == 1)) _
        (assert-ne-stuck (length (primary_keys schema.cols) == 1))
        λ _ _.
          >>=-ne-stuck (column_at (primary_keys schema.cols) 0) _
            (column_at-ne-stuck (primary_keys schema.cols) 0)
            λ c _.
              >>=-ne-stuck (read_columns f _ cell schema.cols _ _) _
                (read_columns-ne-stuck _ cell schema.cols _ _ (omega arith)) (λ s _ e. cc)
