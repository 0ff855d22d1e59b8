-- ===== src/Datatypes.antt =====
-- learndb/datatypes.py: the datatypes of the storage layer, and the serialization of one value.
pub mod RoundTrip
use learndb_py.Prelude.{
  ℕ, ◌^◌, ◌≡◌, ◌≢◌, Bool, true, false, List, [], ◌∷◌, length, Result, ok, err, overflow, type_err,
  attribute, struct_err, not_implemented, ◌>>=◌, ℤ, pos, negsuc,
}
use learndb_py.Bytes.Slices.{Bytes}
use learndb_py.Constants.{word}
use learndb_py.Bytes.Numbers.{to_bytes, from_bytes}
use learndb_py.Bytes.Utf8.{Text, encode, decode}

-- `struct.pack("=f", v)` and `struct.unpack("=f", b)` on Python's floats, which the language has
-- and this logic lacks.
pub record FloatFormat : Type 1 where
  pub Real : Type 0
  -- An int becomes a float, or is too large for one.
  pub of_int : ℤ → Result Real
  pub pack : Real → Result Bytes
  pub unpack : Bytes → Result Real
  -- The format has four bytes, every four bytes are a float, and no others are.
  pub length-pack : (r : Real) (b : Bytes) → pack r ≡ ok b → length b ≡ 4
  pub unpack_other : (b : Bytes) → length b ≢ 4 → unpack b ≡ err struct_err
  pub unpack_four : (b : Bytes) → length b ≡ 4 → (r : Real) × (unpack b ≡ ok r)

-- The values of Python that a record holds; `None` is `null`.
pub data Value (R : Type 0) : Type 0 where
  null : Value R
  int : ℤ → Value R
  real : R → Value R
  str : Text → Value R
  blob : Bytes → Value R
  bool : Bool → Value R

abbrev pub is_null : {R : Type 0} → Value R → Bool
is_null null = true
is_null _ = false

-- The subclasses of `DataType` that a `SerialType` stands for.
pub data DataType : Type 0 where
  integer_type real_type text_type blob_type null_type : DataType

abbrev pub is_serializable : DataType → Bool
is_serializable null_type = false
is_serializable _ = true

abbrev pub is_fixed_length : DataType → Bool
is_fixed_length text_type = false
is_fixed_length blob_type = false
is_fixed_length _ = true

abbrev pub fixed_length : DataType → ℕ
fixed_length integer_type = word
fixed_length real_type = word
fixed_length _ = 0

-- `int.to_bytes`, unsigned: a negative number raises OverflowError.
unfoldable pub serialize_int : ℤ → Result Bytes
serialize_int (pos n) = to_bytes word n
serialize_int (negsuc n) = err overflow

module _ (f : FloatFormat) where
  open f use {Real, of_int, pack, unpack}

  -- `datatype.serialize(value)`. A bool is an int. The blob of a value that is no bytes is refused
  -- where the caller concatenates it, one statement later.
  unfoldable pub serialize : DataType → Value Real → Result Bytes
  unfolding serialize_int
  serialize integer_type (int i) = serialize_int i
  serialize integer_type (bool true) = to_bytes word 1
  serialize integer_type (bool false) = to_bytes word 0
  serialize integer_type _ = err attribute
  serialize real_type (real r) = pack r
  serialize real_type (int i) = do r ← of_int i; pack r
  serialize real_type (bool true) = do r ← of_int (pos 1); pack r
  serialize real_type (bool false) = do r ← of_int (pos 0); pack r
  serialize real_type _ = err struct_err
  serialize text_type (str s) = encode s
  serialize text_type _ = err attribute
  serialize blob_type (blob b) = ok b
  serialize blob_type _ = err type_err
  serialize null_type _ = err not_implemented

  -- `datatype.deserialize(bstring)`
  unfoldable pub deserialize : DataType → Bytes → Result (Value Real)
  deserialize integer_type b = ok (int (pos (from_bytes b)))
  deserialize real_type b = do r ← unpack b; ok (real r)
  deserialize text_type b = do s ← decode b; ok (str s)
  deserialize blob_type b = ok (blob b)
  deserialize null_type b = err not_implemented

  -- `datatype.is_valid_term(term)`: `Blob` and `Null` inherit the method of `DataType`, which raises.
  unfoldable pub is_valid_term : DataType → Value Real → Result Bool
  is_valid_term integer_type (int i) = ok true
  is_valid_term integer_type (bool b) = ok true
  is_valid_term integer_type _ = ok false
  is_valid_term real_type (real r) = ok true
  is_valid_term real_type _ = ok false
  is_valid_term text_type (str s) = ok true
  is_valid_term text_type _ = ok false
  is_valid_term blob_type _ = err not_implemented
  is_valid_term null_type _ = err not_implemented
