-- ===== src/Tests/Floats.antt =====
-- A float format: a real is the number that its four bytes spell.
use learndb_py.Prelude.{
  ℕ, ◌≡◌, ◌≢◌, length, arith, Result, ok, err, overflow, struct_err, ◌==◌, if◌then◌else◌, ℤ, pos,
  negsuc,
}
use learndb_py.Bytes.Slices.{Bytes}
use learndb_py.Bytes.Numbers.{to_bytes, from_bytes, to_bytes_ok}
use learndb_py.Datatypes.{FloatFormat}

abbrev of_int : ℤ → Result ℕ
of_int (pos n) = ok n
of_int (negsuc n) = err overflow

abbrev unpack : Bytes → Result ℕ
unpack b = if length b == 4 then ok (from_bytes b) else err struct_err

pub unpack_other : (b : Bytes) → length b ≢ 4 → unpack b ≡ err struct_err
unpack_other b h = ground arith

pub unpack_four : (b : Bytes) → length b ≡ 4 → (r : ℕ) × (unpack b ≡ ok r)
unpack_four b h = (from_bytes b, ground arith)

abbrev pub digit_floats : FloatFormat
digit_floats = record {
  Real = ℕ;
  of_int = of_int;
  pack = λ r. to_bytes 4 r;
  unpack = unpack;
  length-pack = λ r b h. (to_bytes_ok 4 r b h).0;
  unpack_other = unpack_other;
  unpack_four = unpack_four;
}
