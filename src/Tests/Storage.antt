-- ===== src/Tests/Storage.antt =====
-- Schemas, records and cells at concrete inputs.
use learndb_py.Prelude.{
  ℕ, ◌≡◌, ◌≢◌, refl, true, false, List, [], ◌∷◌, ◌++◌, length, arith, ok, err, pos, none, some, All,
  stuck, overflow, negsuc,
}
use learndb_py.Bytes.Slices.{Bytes}
use learndb_py.Bytes.Numbers.{to_bytes, digits}
use learndb_py.Bytes.Utf8.{Text, encode}
use learndb_py.Names.{text, text_eq, lower}
use learndb_py.Dict
use learndb_py.Dict.{Dict}
use learndb_py.Datatypes.{
  Value, int, str, blob, integer_type, real_type, text_type, blob_type, serialize, is_valid_term,
}
use learndb_py.Datatypes.RoundTrip.{stored, stored_same}
use learndb_py.Responses.{success}
use learndb_py.Schema.{
  Column, SimpleSchema, CreateStmnt, integer_sym, text_sym, real_sym, generate_schema,
  validate_schema, primary_keys, primary_keys,
}
use learndb_py.Schema.Valid.{IsValid, Generated, validate_schema_iff, generate_schema_success}
use learndb_py.Records.{
  SimpleRecord, value_of, create_record, validate_record, validate_columns, fill_values,
}
use learndb_py.Records.Checks.{Fits, create_record_success, last_value}
use learndb_py.Serde.{
  serialize_record, serialize_columns, serialize_column, serialize_key, serialize_value,
  serialize_null, assemble, deserialize_cell, get_cell_key, get_cell_size,
}
use learndb_py.Serde.RoundTrip.{deserialize_cell-serialize_record}
use learndb_py.Serde.Keys.{get_cell_key-serialize_record}
use learndb_py.Serde.Ends.{deserialize_cell-ne-stuck}
use learndb_py.Tests.Floats.{digit_floats}

abbrev people_stmnt : CreateStmnt
people_stmnt = record {
  table_name = text "people";
  columns =
      record {
        column_name = text "Name";
        datatype = text_sym;
        is_primary_key = false;
        is_nullable = false;
      }
      ∷ record {
        column_name = text "ID";
        datatype = integer_sym;
        is_primary_key = true;
        is_nullable = true;
      }
      ∷ record {
        column_name = text "height";
        datatype = real_sym;
        is_primary_key = false;
        is_nullable = true;
      }
      ∷ [];
}

abbrev people_cols : List Column
people_cols =
    record { name = text "name"; datatype = text_type; is_primary_key = false; is_nullable = false }
    ∷ record {
      name = text "id";
      datatype = integer_type;
      is_primary_key = true;
      is_nullable = true;
    }
    ∷ record {
      name = text "height";
      datatype = real_type;
      is_primary_key = false;
      is_nullable = true;
    }
    ∷ []

abbrev people : SimpleSchema
people = record { name = text "people"; cols = people_cols }

people_generated : generate_schema people_stmnt ≡ success people
unfolding generate_schema lower text_eq
people_generated = refl

people_valid : validate_schema people ≡ success tt
unfolding validate_schema text_eq
people_valid = refl

validate_schema_iff_example : IsValid people_cols
validate_schema_iff_example = (validate_schema_iff people).0 people_valid

generate_schema_success_example :
    IsValid people_cols × (people.name ≡ text "people") × Generated people_stmnt.columns people_cols
generate_schema_success_example = generate_schema_success people_stmnt people people_generated

abbrev bob_values : Dict (Value ℕ)
bob_values = (text "id", int (pos 7)) ∷ (text "name", str (text "Bob")) ∷ []

abbrev bob : SimpleRecord ℕ
bob = record { values = bob_values; schema = people }

bob_created :
    create_record digit_floats
      (text "ID" ∷ text "name" ∷ [])
      (int (pos 7) ∷ str (text "Bob") ∷ [])
      people
    ≡ ok (success bob)
unfolding create_record fill_values validate_record validate_columns is_valid_term lower text_eq
    Dict.set Dict.get
bob_created = refl

create_record_success_example :
    (◌≡◌ {A = ℕ} 2 2)
    × (people ≡ people)
    × ((j : Text)
        → Dict.get j bob_values
          ≡ last_value digit_floats j
              (text "ID" ∷ text "name" ∷ [])
              (int (pos 7) ∷ str (text "Bob") ∷ [])
              none)
    × All (λ (c : Column). Fits digit_floats c (value_of bob_values c.name)) people_cols
create_record_success_example =
    create_record_success digit_floats (text "ID" ∷ text "name" ∷ [])
      (int (pos 7) ∷ str (text "Bob") ∷ []) people bob bob_created

bob_cell : Bytes
bob_cell =
    (4 ∷ 0 ∷ 0 ∷ 0 ∷ [])
    ++ ((19 ∷ 0 ∷ 0 ∷ 0 ∷ [])
        ++ ((7 ∷ 0 ∷ 0 ∷ 0 ∷ [])
            ++ ((16 ∷ 0 ∷ 0 ∷ 0 ∷ [])
                ++ ((3 ∷ 0 ∷ 0 ∷ 0 ∷ [])
                    ++ ((3 ∷ 0 ∷ 0 ∷ 0 ∷ []) ++ ((0 ∷ 0 ∷ 0 ∷ 0 ∷ []) ++ (66 ∷ 111 ∷ 98 ∷ [])))))))

bob_serialized : serialize_record digit_floats bob ≡ ok (success bob_cell)
unfolding bob_cell serialize_record serialize_columns serialize_column serialize_key serialize_value
    serialize_null assemble serialize value_of text_eq Dict.get to_bytes digits encode
bob_serialized = refl

deserialize_cell-serialize_record_example :
    (d : Dict (Value ℕ)) × (deserialize_cell digit_floats bob_cell people
      ≡ ok (success (record { values = d; schema = people })))
    × All
        (λ (c : Column).
          (w : Value ℕ) × (stored digit_floats c.datatype (value_of bob_values c.name) ≡ ok w)
          × (Dict.get c.name d ≡ some w))
        people_cols
unfolding value_of text_eq Dict.get
deserialize_cell-serialize_record_example =
    deserialize_cell-serialize_record digit_floats bob bob_cell validate_schema_iff_example
      (tt, (tt, (tt, tt))) bob_serialized

get_cell_key-serialize_record_example :
    (p : Column) × (primary_keys people_cols ≡ p ∷ [])
    × (stored digit_floats p.datatype (value_of bob_values p.name)
        ≡ ok (int (pos (get_cell_key bob_cell))))
    × (get_cell_size bob_cell 0 ≡ length bob_cell)
get_cell_key-serialize_record_example =
    get_cell_key-serialize_record digit_floats bob bob_cell validate_schema_iff_example.one_key
      bob_serialized

deserialize_cell-ne-stuck_example :
    deserialize_cell digit_floats (1 ∷ 2 ∷ 3 ∷ []) people ≢ err stuck
deserialize_cell-ne-stuck_example = deserialize_cell-ne-stuck digit_floats (1 ∷ 2 ∷ 3 ∷ []) people

abbrev snowman : Text
snowman = 0x2603 ∷ 0x1f600 ∷ []

snowman_bytes : encode snowman ≡ ok (0xe2 ∷ 0x98 ∷ 0x83 ∷ 0xf0 ∷ 0x9f ∷ 0x98 ∷ 0x80 ∷ [])
unfolding encode
snowman_bytes = refl

stored_same_example :
    (stored digit_floats integer_type (int (pos 300)) ≡ ok (int (pos 300)))
    × (stored digit_floats text_type (str snowman) ≡ ok (str snowman))
    × (stored digit_floats blob_type (blob (1 ∷ [])) ≡ ok (blob (1 ∷ [])))
stored_same_example = stored_same digit_floats 300 snowman _ (1 ∷ []) (omega arith) snowman_bytes

-- A negative number has no cell, and a lone surrogate has no bytes.
negative_overflows : serialize digit_floats integer_type (int (negsuc 0)) ≡ err overflow
unfolding serialize
negative_overflows = refl
