-- ===== src/Serde/Sound.antt =====
-- The loop of `deserialize_cell` in learndb/serde.py over the entries of an encoding.
use learndb_py.Prelude.{
  ℕ, ◌+◌, ◌<◌, ◌≡◌, refl, sym, ap, ◌∙◌, true, false, List, [], ◌++◌, append_assoc, length,
  length-append, arith, ok, inl, inr, ◌⊎◌, lt→ltb,
}
use learndb_py.Bytes.Slices.{Bytes, slice, slice-append}
use learndb_py.Bytes.Numbers.{to_bytes, from_bytes, to_bytes_ok}
use learndb_py.Bytes.Utf8.{Text}
use learndb_py.Dict
use learndb_py.Dict.{Dict}
use learndb_py.Datatypes.{
  FloatFormat, Value, null, DataType, is_serializable, is_fixed_length, fixed_length, deserialize,
}
use learndb_py.Constants.{word}
use learndb_py.Datatypes.RoundTrip.{
  NonEmpty, stored, length-serialize_fixed, length-serialize_varying, deserialize_total, stored_ok,
}
use learndb_py.Schema.{Column}
use learndb_py.Serde.{
  SerialType, null_st, integer_st, real_st, text_st, blob_st, serial_value, serial_type,
  serialtype_to_datatype, datatype_to_serialtype, Reader, next_column, read_varlen, read_body,
  read_column,
}
use learndb_py.Serde.Encoded.{Entry, of_null, of_fixed, of_varying}

serial_type-serial_value : (s : SerialType) → serial_type (serial_value s) ≡ ok s
unfolding serial_type
serial_type-serial_value null_st = refl
serial_type-serial_value integer_st = refl
serial_type-serial_value real_st = refl
serial_type-serial_value text_st = refl
serial_type-serial_value blob_st = refl

datatype_of_serialtype : (t : DataType) → serialtype_to_datatype (datatype_to_serialtype t) ≡ t
datatype_of_serialtype DataType.integer_type = refl
datatype_of_serialtype DataType.real_type = refl
datatype_of_serialtype DataType.text_type = refl
datatype_of_serialtype DataType.blob_type = refl
datatype_of_serialtype DataType.null_type = refl

-- A number that was written between a front and a rest is read there.
pub read_word :
    (n : ℕ) (w pre post : Bytes) (a : ℕ)
    → to_bytes word n ≡ ok w
    → a ≡ length pre
    → from_bytes (slice (pre ++ (w ++ post)) a (a + word)) ≡ n
read_word n w pre post a h e =
    let (l, v, _) = to_bytes_ok word n w h in
    ap from_bytes (slice-append pre w post a (a + word) e (omega (arith, l))) ∙ v

module _ (f : FloatFormat) where
  open f use {Real}

  -- The reader behind a column's entry.
  abbrev pub advance : Reader f → ℕ → ℕ → ℕ → Text → Value Real → Reader f
  advance s e x k name w = record {
    header_offset = s.header_offset + e;
    data_offset = s.data_offset + x;
    col_pos = k;
    values = Dict.set name w s.values;
  }

  -- Where an entry's header and bytes stand in the cell.
  pub record Placed (cell : Bytes) (s : Reader f) (e x : Bytes) : Type 0 where
    pub pre : Bytes
    pub mid : Bytes
    pub post : Bytes
    pub cell_eq : cell ≡ pre ++ (e ++ (mid ++ (x ++ post)))
    pub header_eq : s.header_offset ≡ length pre
    pub data_eq : s.data_offset ≡ length pre + length e + length mid

  read_body_at :
      (cell pre b post : Bytes) (t : DataType) (len a : ℕ) (w : Value Real)
      → cell ≡ pre ++ (b ++ post)
      → a ≡ length pre
      → deserialize f t b ≡ ok w
      → (is_fixed_length t ≡ true) × (is_serializable t ≡ true) × (length b ≡ fixed_length t)
        ⊎ (is_fixed_length t ≡ false) × (0 < length b) × (len ≡ length b)
      → read_body f cell t len a ≡ ok (w, a + length b)
  unfolding read_body
  read_body_at cell pre b post t len a w ce ae d (inl (fx, sz, l)) =
      let e : slice cell a (a + fixed_length t) ≡ b =
        rw ce (slice-append pre b post a (a + fixed_length t) ae (omega (arith, l))) in
      rw (fx, sz, e, d) (ap (λ (n : ℕ). ok (w, a + n)) (sym l))
  read_body_at cell pre b post t len a w ce ae d (inr (fx, p, l)) =
      let e : slice cell a (a + length b) ≡ b =
        rw ce (slice-append pre b post a (a + length b) ae refl) in
      rw (l, fx, lt→ltb 0 (length b) p, e, d)

  read_column_parts :
      (cell : Bytes) (cols : List Column) (s : Reader f) (c : Column) (st : SerialType)
      (w : Value Real) (k len h d e x : ℕ)
      → serial_type (from_bytes (slice cell s.header_offset (s.header_offset + word))) ≡ ok st
      → read_varlen cell (serialtype_to_datatype st) (s.header_offset + word) ≡ (len, h)
      → next_column cols s.col_pos ≡ ok (c, k)
      → read_body f cell (serialtype_to_datatype st) len s.data_offset ≡ ok (w, d)
      → h ≡ s.header_offset + e
      → d ≡ s.data_offset + x
      → read_column f cell cols s ≡ ok (advance s e x k c.name w)
  unfolding read_column
  read_column_parts cell cols s c st w k len h d e x p q nc r eh ed = rw (p, q, nc, r, eh, ed) refl

  -- The serial type of an entry, read at its front.
  read_serial_type :
      (cell pre st post : Bytes) (a : ℕ) (t : SerialType)
      → cell ≡ pre ++ (st ++ post)
      → a ≡ length pre
      → to_bytes word (serial_value t) ≡ ok st
      → serial_type (from_bytes (slice cell a (a + word))) ≡ ok t
  read_serial_type cell pre st post a t ce ae h =
      rw ce (
        ap serial_type (read_word (serial_value t) st pre post a h ae) ∙ serial_type-serial_value t)

  data_front :
      (cell : Bytes) (s : Reader f) (e x : Bytes) (p : Placed cell s e x)
      → (cell ≡ (p.pre ++ (e ++ p.mid)) ++ (x ++ p.post))
        × (s.data_offset ≡ length (p.pre ++ (e ++ p.mid)))
  data_front cell s e x p = (
    p.cell_eq ∙ simp append_assoc,
    omega (arith, p.data_eq, length-append p.pre (e ++ p.mid), length-append e p.mid),
  )

  -- An entry of the header is read back to the stored value of its column, under the column's name,
  -- and both offsets move behind the entry.
  pub read_column-Entry :
      (cell : Bytes) (cols : List Column) (s : Reader f) (c : Column) (k : ℕ) (v : Value Real)
      (e x : Bytes)
      → Placed cell s e x
      → next_column cols s.col_pos ≡ ok (c, k)
      → Entry f c v e x
      → NonEmpty f v
      → (w : Value Real) × (stored f c.datatype v ≡ ok w)
        × (read_column f cell cols s ≡ ok (advance s (length e) (length x) k c.name w))
  read_column-Entry cell cols s c k v e x p nc (of_null st q t) ne = (
    null,
    rw q (unfold stored in refl),
    read_column_parts cell cols s c null_st null k 0 (s.header_offset + word) s.data_offset
        (length st) 0
        (read_serial_type cell p.pre st (p.mid ++ p.post) s.header_offset null_st p.cell_eq
          p.header_eq t)
        (unfold read_varlen in refl) nc (unfold read_body in refl)
        (omega (arith, (to_bytes_ok word 0 st t).0)) (omega arith),
  )
  read_column-Entry cell cols s c k v e x p nc (of_fixed st b nn sz fx t q) ne =
      let ty = datatype_of_serialtype c.datatype in
      let (w, d) = deserialize_total f c.datatype v b q in
      let l = length-serialize_fixed f c.datatype v b sz fx q in
      let (front, off) = data_front cell s (st ++ []) b p in
      (
        w,
        stored_ok f c.datatype v w b nn q d,
        read_column_parts cell cols s c (datatype_to_serialtype c.datatype) w k 0
            (s.header_offset + word) (s.data_offset + length b) (length (st ++ [])) (length b)
            (read_serial_type cell p.pre st ([] ++ (p.mid ++ (b ++ p.post))) s.header_offset _
              (p.cell_eq ∙ simp append_assoc) p.header_eq t)
            (rw ty (unfold read_varlen in rw fx)) nc
            (rw ty (
              read_body_at cell (p.pre ++ ((st ++ []) ++ p.mid)) b p.post c.datatype 0 s.data_offset
                w front off d (inl (fx, sz, l))))
            (omega (arith, (to_bytes_ok word _ st t).0, length-append st [])) refl,
      )
  read_column-Entry cell cols s c k v e x p nc (of_varying st len b nn fx t l q) ne =
      let ty = datatype_of_serialtype c.datatype in
      let (w, d) = deserialize_total f c.datatype v b q in
      let pos_b = length-serialize_varying f c.datatype v b fx ne q in
      let (front, off) = data_front cell s (st ++ len) b p in
      let lst = (to_bytes_ok word _ st t).0 in
      let second : cell ≡ (p.pre ++ st) ++ (len ++ (p.mid ++ (b ++ p.post))) =
        p.cell_eq ∙ simp append_assoc in
      let size : from_bytes (slice cell (s.header_offset + word) (s.header_offset + word + word))
          ≡ length b =
        rw second (
          read_word (length b) len (p.pre ++ st) (p.mid ++ (b ++ p.post)) (s.header_offset + word) l
            (omega (arith, lst, p.header_eq, length-append p.pre st))) in
      (
        w,
        stored_ok f c.datatype v w b nn q d,
        read_column_parts cell cols s c (datatype_to_serialtype c.datatype) w k (length b)
            (s.header_offset + word + word) (s.data_offset + length b) (length (st ++ len))
            (length b)
            (read_serial_type cell p.pre st (len ++ (p.mid ++ (b ++ p.post))) s.header_offset _
              (p.cell_eq ∙ simp append_assoc) p.header_eq t)
            (rw ty (unfold read_varlen in rw (fx, size))) nc
            (rw ty (
              read_body_at cell (p.pre ++ ((st ++ len) ++ p.mid)) b p.post c.datatype (length b)
                s.data_offset w front off d (inr (fx, pos_b, refl))))
            (omega (arith, lst, (to_bytes_ok word _ len l).0, length-append st len)) refl,
      )
