-- ===== src/Datatypes/RoundTrip.antt =====
-- Serializing one value of learndb/datatypes.py and reading it back.
use learndb_py.Prelude.{
  ℕ, ◌^◌, ◌<◌, ◌≡◌, refl, ap, true, false, [], ◌∷◌, length, arith, Result, ok, err, ◌>>=◌, pos,
}
use learndb_py.Bytes.Slices.{Bytes}
use learndb_py.Bytes.Numbers.{from_bytes, to_bytes_ok, to_bytes_fits, from_bytes-digits}
use learndb_py.Bytes.Utf8.{Text, encode, decode, decode-encode, length-encode}
use learndb_py.Datatypes.{
  FloatFormat, Value, null, int, real, str, blob, bool, is_null, DataType, integer_type, real_type,
  text_type, blob_type, null_type, is_serializable, is_fixed_length, fixed_length, serialize,
  deserialize,
}
use learndb_py.Constants.{word}

module _ (f : FloatFormat) where
  open f use {Real, of_int, pack, unpack, length-pack, unpack_four}

  -- A text or a blob that has something in it, or any other value.
  abbrev pub NonEmpty : Value Real → Type 0
  NonEmpty (str []) = ⊥
  NonEmpty (blob []) = ⊥
  NonEmpty _ = Unit

  -- The value that a column of datatype `t` gives back for `v`.
  unfoldable pub stored : DataType → Value Real → Result (Value Real)
  stored t null = ok null
  stored t v = do b ← serialize f t v; deserialize f t b

  length-pack_int : (r : Result Real) (b : Bytes) → (r >>= pack) ≡ ok b → length b ≡ 4
  length-pack_int (ok r) b h = length-pack r b h
  length-pack_int (err e) b h = cc

  length-serialize_real :
      (v : Value Real) (b : Bytes) → serialize f real_type v ≡ ok b → length b ≡ 4
  unfolding serialize
  length-serialize_real (real r) b h = length-pack r b h
  length-serialize_real (int i) b h = length-pack_int (of_int i) b h
  length-serialize_real (bool true) b h = length-pack_int (of_int (pos 1)) b h
  length-serialize_real (bool false) b h = length-pack_int (of_int (pos 0)) b h
  length-serialize_real _ b h = cc

  length-serialize_integer :
      (v : Value Real) (b : Bytes) → serialize f integer_type v ≡ ok b → length b ≡ 4
  unfolding serialize
  length-serialize_integer (int (pos n)) b h = (to_bytes_ok word n b h).0
  length-serialize_integer (bool true) b h = (to_bytes_ok word 1 b h).0
  length-serialize_integer (bool false) b h = (to_bytes_ok word 0 b h).0
  length-serialize_integer _ b h = cc

  pub length-serialize_fixed :
      (t : DataType) (v : Value Real) (b : Bytes)
      → is_serializable t ≡ true
      → is_fixed_length t ≡ true
      → serialize f t v ≡ ok b
      → length b ≡ fixed_length t
  length-serialize_fixed integer_type v b s x h = length-serialize_integer v b h
  length-serialize_fixed real_type v b s x h = length-serialize_real v b h
  length-serialize_fixed _ v b s x h = cc

  pub length-serialize_varying :
      (t : DataType) (v : Value Real) (b : Bytes)
      → is_fixed_length t ≡ false
      → NonEmpty v
      → serialize f t v ≡ ok b
      → 0 < length b
  unfolding serialize
  length-serialize_varying text_type (str []) b x n h = absurd n
  length-serialize_varying text_type (str (c ∷ s)) b x n h = length-encode c s b h
  length-serialize_varying blob_type (blob []) b x n h = absurd n
  length-serialize_varying blob_type (blob (c ∷ s)) b x n h = ground arith
  length-serialize_varying _ _ b x n h = cc

  decode_text :
      (v : Value Real) (b : Bytes)
      → serialize f text_type v ≡ ok b
      → (s : Text) × (v ≡ str s) × (decode b ≡ ok s)
  unfolding serialize
  decode_text (str s) b h = (s, refl, decode-encode s b h)
  decode_text _ b h = cc

  -- What a datatype wrote it can read.
  pub deserialize_total :
      (t : DataType) (v : Value Real) (b : Bytes)
      → serialize f t v ≡ ok b
      → (w : Value Real) × (deserialize f t b ≡ ok w)
  unfolding deserialize
  deserialize_total integer_type v b h = (int (pos (from_bytes b)), refl)
  deserialize_total real_type v b h =
      let (r, e) = unpack_four b (length-serialize_real v b h) in (real r, rw e)
  deserialize_total text_type v b h = let (s, _, e) = decode_text v b h in (str s, rw e)
  deserialize_total blob_type v b h = (blob b, refl)
  deserialize_total null_type v b h = unfold serialize in absurd (cc)

  -- No datatype serializes null.
  pub serialize_not_null :
      (t : DataType) (v : Value Real) (b : Bytes) → serialize f t v ≡ ok b → is_null v ≡ false
  unfolding serialize
  serialize_not_null integer_type null b h = absurd (cc)
  serialize_not_null real_type null b h = absurd (cc)
  serialize_not_null text_type null b h = absurd (cc)
  serialize_not_null blob_type null b h = absurd (cc)
  serialize_not_null null_type null b h = absurd (cc)
  serialize_not_null t _ b h = refl

  pub stored_ok :
      (t : DataType) (v w : Value Real) (b : Bytes)
      → is_null v ≡ false
      → serialize f t v ≡ ok b
      → deserialize f t b ≡ ok w
      → stored t v ≡ ok w
  unfolding stored
  stored_ok t null w b n h k = cc
  stored_ok t v w b n h k = rw h k

  -- An integer from 0 to 2^32 - 1, a text without lone surrogates and a blob come back as they were.
  pub stored_same :
      (n : ℕ) (s : Text) (b b' : Bytes)
      → n < 2 ^ 32
      → encode s ≡ ok b
      → (stored integer_type (int (pos n)) ≡ ok (int (pos n)))
        × (stored text_type (str s) ≡ ok (str s))
        × (stored blob_type (blob b') ≡ ok (blob b'))
  unfolding stored serialize deserialize
  stored_same n s b b' lt e = (
    rw (to_bytes_fits word n lt) (ap (λ (k : ℕ). ok (int (pos k))) (from_bytes-digits word n lt)),
    rw e (rw (decode-encode s b e)),
    refl,
  )
