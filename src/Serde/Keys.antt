-- ===== src/Serde/Keys.antt =====
-- `get_cell_key` and `get_cell_size` of learndb/serde.py on the cells that `serialize_record` makes.
use learndb_py.Prelude.{
  ◌+◌, ◌≡◌, refl, sym, ap, [], ◌∷◌, ◌++◌, length, length-append, arith, ok, pos,
}
use learndb_py.Bytes.Slices.{Bytes, slice}
use learndb_py.Bytes.Numbers.{from_bytes, to_bytes_ok}
use learndb_py.Datatypes.{FloatFormat, int, deserialize}
use learndb_py.Constants.{word}
use learndb_py.Datatypes.RoundTrip.{stored, stored_ok, serialize_not_null}
use learndb_py.Responses.{success}
use learndb_py.Schema.{Column, primary_keys}
use learndb_py.Records.{SimpleRecord, value_of}
use learndb_py.Serde.{serialize_record, get_cell_key, get_cell_size}
use learndb_py.Serde.Sound.{read_word}
use learndb_py.Serde.RoundTrip.{
  Serialized, serialize_record-Serialized, read_key_size, read_key, rest,
}

module _ (f : FloatFormat) where
  open f use {Real}

  module _ (r : SimpleRecord Real) (cell : Bytes) (z : Serialized f r cell) where
    open z use {chunks, parts}

    get_cell_key-Serialized : get_cell_key cell ≡ from_bytes chunks.key
    unfolding get_cell_key
    get_cell_key-Serialized = rw (read_key_size f r cell z) (ap from_bytes (read_key f r cell z))

    read_data_size : from_bytes (slice cell word (word + word)) ≡ length (rest f r cell z)
    read_data_size = rw parts.cell_eq (
        read_word (length (rest f r cell z)) parts.data_size parts.key_size
          (chunks.key ++ rest f r cell z) word parts.data_size_eq
          (sym (to_bytes_ok word _ parts.key_size parts.key_size_eq).0))

    get_cell_size-Serialized : get_cell_size cell 0 ≡ length cell
    unfolding get_cell_size
    get_cell_size-Serialized = rw (read_key_size f r cell z) (
        rw read_data_size (
          omega (
            arith,
            ap length parts.cell_eq,
            length-append parts.key_size (parts.data_size ++ (chunks.key ++ rest f r cell z)),
            length-append parts.data_size (chunks.key ++ rest f r cell z),
            length-append chunks.key (rest f r cell z),
            (to_bytes_ok word _ parts.key_size parts.key_size_eq).0,
            (to_bytes_ok word _ parts.data_size parts.data_size_eq).0,
          )))

  -- The key that is read from a serialized cell is the stored form of the record's primary key, and the size
  -- that is read is the length of the cell, if the schema has one primary key.
  pub get_cell_key-serialize_record :
      (r : SimpleRecord Real) (cell : Bytes)
      → length (primary_keys r.schema.cols) ≡ 1
      → serialize_record f r ≡ ok (success cell)
      → (p : Column) × (primary_keys r.schema.cols ≡ p ∷ [])
        × (stored f p.datatype (value_of r.values p.name) ≡ ok (int (pos (get_cell_key cell))))
        × (get_cell_size cell 0 ≡ length cell)
  get_cell_key-serialize_record r cell one h =
      let z = serialize_record-Serialized f r cell one h in
      (
        z.key_col,
        z.key_eq,
        rw (get_cell_key-Serialized r cell z) (
            stored_ok f z.key_col.datatype _ _ z.chunks.key
              (serialize_not_null f z.key_col.datatype _ z.chunks.key z.key_bytes) z.key_bytes
              (rw z.key_integer (unfold deserialize in refl))),
        get_cell_size-Serialized r cell z,
      )
