-- ===== src/Serde.antt =====
-- learndb/serde.py: serial types, the serialization of a record into a cell, its inverse, and the
-- functions that read a cell's key and size.
pub mod Encoded
pub mod Sound
pub mod Loop
pub mod Keys
pub mod Ends
pub mod RoundTrip
use learndb_py.Prelude.{
  ℕ, zero, suc, ◌+◌, ◌≡◌, Bool, true, false, not, Option, none, some, List, [], ◌∷◌, ◌++◌, length,
  ◌==◌, ltb, leb, if◌then◌else◌, Result, Error, ok, err, assert, ◌>>=◌, ◌>>◌, get_elem?, pos,
}
use learndb_py.Bytes.Slices.{Bytes, slice}
use learndb_py.Bytes.Numbers.{to_bytes, from_bytes}
use learndb_py.Bytes.Utf8.{Text}
use learndb_py.Dict
use learndb_py.Dict.{Dict}
use learndb_py.Datatypes.{
  FloatFormat, Value, null, is_null, int, DataType, integer_type, real_type, text_type, blob_type,
  null_type, is_serializable, is_fixed_length, fixed_length, serialize, deserialize,
}
use learndb_py.Constants.{word}
use learndb_py.Responses.{Response, success, failure, required_column}
use learndb_py.Schema.{Column, SimpleSchema, primary_keys, is_integer}
use learndb_py.Records.{SimpleRecord, value_of}

pub data SerialType : Type 0 where
  null_st integer_st real_st text_st blob_st : SerialType

-- `serial_type.value`
abbrev pub serial_value : SerialType → ℕ
serial_value null_st = 0
serial_value integer_st = 1
serial_value real_st = 2
serial_value text_st = 3
serial_value blob_st = 4

-- `SerialType(value)`, which raises ValueError on any other number.
unfoldable pub serial_type : ℕ → Result SerialType
serial_type n =
    if n == 0
    then ok null_st
    else if n == 1
    then ok integer_st
    else if n == 2
    then ok real_st
    else if n == 3
    then ok text_st
    else if n == 4
    then ok blob_st
    else err Error.value

abbrev pub serialtype_to_datatype : SerialType → DataType
serialtype_to_datatype null_st = null_type
serialtype_to_datatype integer_st = integer_type
serialtype_to_datatype real_st = real_type
serialtype_to_datatype text_st = text_type
serialtype_to_datatype blob_st = blob_type

abbrev pub datatype_to_serialtype : DataType → SerialType
datatype_to_serialtype null_type = null_st
datatype_to_serialtype integer_type = integer_st
datatype_to_serialtype real_type = real_st
datatype_to_serialtype text_type = text_st
datatype_to_serialtype blob_type = blob_st

-- The three byte strings that the loop of `serialize_record` adds to.
pub record Chunks : Type 0 where
  pub key : Bytes
  pub data_header : Bytes
  pub body : Bytes

abbrev pub no_chunks : Chunks
no_chunks = record { key = []; data_header = []; body = [] }

-- Step 2 of `serialize_record`: the chunks become a cell.
unfoldable pub assemble : Chunks → Result Bytes
assemble c = do
  header_len ← to_bytes word (word + length c.data_header)
  key_size ← to_bytes word (length c.key)
  let payload = (header_len ++ c.data_header) ++ c.body
  data_size ← to_bytes word (length payload)
  ok (key_size ++ (data_size ++ (c.key ++ payload)))

abbrev pub assembled : Response Chunks → Result (Response Bytes)
assembled (failure m) = ok (failure m)
assembled (success c) = do cell ← assemble c; ok (success cell)

abbrev pub then_columns :
    Result (Response Chunks) → (Chunks → Result (Response Chunks)) → Result (Response Chunks)
then_columns (ok (success c)) k = k c
then_columns (ok (failure m)) k = ok (failure m)
then_columns (err e) k = err e

module _ (f : FloatFormat) where
  open f use {Real}

  -- The branch of a primary key.
  unfoldable pub serialize_key : Column → Value Real → Chunks → Result (Response Chunks)
  serialize_key col v c = do
    assert (is_integer col.datatype)
    assert (not (is_null v))
    key ← serialize f col.datatype v
    ok (success (record c { key = key }))

  -- The branch of a value that is not null.
  unfoldable pub serialize_value : Column → Value Real → Chunks → Result (Response Chunks)
  serialize_value col v c = do
    assert (is_serializable col.datatype)
    st ← to_bytes word (serial_value (datatype_to_serialtype col.datatype))
    b ← serialize f col.datatype v
    len ← if is_fixed_length col.datatype then ok [] else to_bytes word (length b)
    ok (success (record c { data_header = c.data_header ++ (st ++ len); body = c.body ++ b }))

  -- The branches of a null.
  unfoldable pub serialize_null : Column → Chunks → Result (Response Chunks)
  serialize_null col c = if not col.is_nullable then ok (failure (required_column col.name)) else do
    st ← to_bytes word (serial_value null_st)
    ok (success (record c { data_header = c.data_header ++ st }))

  -- One round of the loop of `serialize_record`.
  unfoldable pub serialize_column : Column → Value Real → Chunks → Result (Response Chunks)
  serialize_column col v c =
      if col.is_primary_key
      then serialize_key col v c
      else if is_null v
      then serialize_null col c
      else serialize_value col v c

  unfoldable pub serialize_columns :
      List Column → Dict (Value Real) → Chunks → Result (Response Chunks)
  serialize_columns [] d c = ok (success c)
  serialize_columns (col ∷ cols) d c =
      then_columns (serialize_column col (value_of d col.name) c)
        (λ c'. serialize_columns cols d c')

  -- `serialize_record`
  unfoldable pub serialize_record : SimpleRecord Real → Result (Response Bytes)
  serialize_record r = serialize_columns r.schema.cols r.values no_chunks >>= assembled

  -- The variables of the loop of `deserialize_cell`.
  pub record Reader : Type 0 where
    pub header_offset : ℕ
    pub data_offset : ℕ
    pub col_pos : ℕ
    pub values : Dict (Value Real)

-- `schema.columns[i]`
unfoldable pub column_at : List Column → ℕ → Result Column
column_at cols i = elim (get_elem? cols i) [ none ↦ err Error.index | some c ↦ ok c ]

-- The next column that is no primary key, and the position after it.
unfoldable pub next_column : List Column → ℕ → Result (Column × ℕ)
next_column cols i = do
  c ← column_at cols i
  if c.is_primary_key then (do c' ← column_at cols (i + 1); ok (c', i + 1 + 1)) else ok (c, i + 1)

-- The length of a value in the header, and where the header goes on.
unfoldable pub read_varlen : Bytes → DataType → ℕ → ℕ × ℕ
read_varlen cell t offset =
    if is_fixed_length t
    then (0, offset)
    else (from_bytes (slice cell offset (offset + word)), offset + word)

module _ (f : FloatFormat) where
  open f use {Real}

  -- The value at `offset`, and where the data goes on.
  unfoldable pub read_body : Bytes → DataType → ℕ → ℕ → Result (Value Real × ℕ)
  read_body cell t varlen offset =
      if is_fixed_length t
      then (if not (is_serializable t) then ok (null, offset) else do
        v ← deserialize f t (slice cell offset (offset + fixed_length t))
        ok (v, offset + fixed_length t))
      else do
        assert (ltb 0 varlen)
        v ← deserialize f t (slice cell offset (offset + varlen))
        ok (v, offset + varlen)

  -- One round of the loop of `deserialize_cell`.
  unfoldable pub read_column : Bytes → List Column → Reader f → Result (Reader f)
  read_column cell cols s = do
    st ← serial_type (from_bytes (slice cell s.header_offset (s.header_offset + word)))
    let t = serialtype_to_datatype st
    let (varlen, header_offset) = read_varlen cell t (s.header_offset + word)
    (c, col_pos) ← next_column cols s.col_pos
    (v, data_offset) ← read_body cell t varlen s.data_offset
    ok (record {
      header_offset = header_offset;
      data_offset = data_offset;
      col_pos = col_pos;
      values = Dict.set c.name v s.values;
    })

  unfoldable pub read_columns : ℕ → Bytes → List Column → ℕ → Reader f → Result (Reader f)
  read_columns zero cell cols ubound s =
      if ltb s.header_offset ubound then err Error.stuck else ok s
  read_columns (suc fuel) cell cols ubound s =
      if ltb s.header_offset ubound
      then read_column cell cols s >>= (λ s'. read_columns fuel cell cols ubound s')
      else ok s

  -- The columns that the cell has no value for are null.
  unfoldable pub add_missing : List Column → Dict (Value Real) → Dict (Value Real)
  add_missing [] d = d
  add_missing (c ∷ cs) d =
      add_missing cs (if Dict.contains c.name d then d else Dict.set c.name null d)

  -- `deserialize_cell`. A round moves the header's offset on, so the upper bound is fuel enough.
  unfoldable pub deserialize_cell : Bytes → SimpleSchema → Result (Response (SimpleRecord Real))
  deserialize_cell cell schema = do
    let key_size = from_bytes (slice cell 0 word)
    let offset = word + word
    let key_bytes = slice cell offset (offset + key_size)
    let keys = primary_keys schema.cols
    assert (length keys == 1)
    kc ← column_at keys 0
    let offset' = offset + length key_bytes
    let header_size = from_bytes (slice cell offset' (offset' + word))
    let ubound = offset' + header_size
    s ← read_columns ubound cell schema.cols ubound (record {
      header_offset = offset' + word;
      data_offset = offset' + header_size;
      col_pos = 0;
      values = Dict.set kc.name (int (pos (from_bytes key_bytes))) [];
    })
    ok (success (record { values = add_missing schema.cols s.values; schema = schema }))

-- `get_cell_key_in_page`
unfoldable pub get_cell_key_in_page : Bytes → ℕ → ℕ
get_cell_key_in_page node offset =
    let key_size = from_bytes (slice node offset (offset + word)) in
    let start = offset + word + word in from_bytes (slice node start (start + key_size))

-- `get_cell_key`
unfoldable pub get_cell_key : Bytes → ℕ
unfolding get_cell_key_in_page
get_cell_key cell = get_cell_key_in_page cell 0

-- `get_cell_size`. The second read is at the start of the data size, after the key size.
unfoldable pub get_cell_size : Bytes → ℕ → ℕ
get_cell_size node offset =
    let key_size = from_bytes (slice node offset (offset + word)) in
    let data_size = from_bytes (slice node (offset + word) (offset + word + word)) in
    word + word + key_size + data_size
