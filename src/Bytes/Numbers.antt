-- ===== src/Bytes/Numbers.antt =====
-- `int.to_bytes` and `int.from_bytes`, little-endian and unsigned.
use learndb_py.Prelude.{
  ℕ, zero, suc, ◌+◌, ◌*◌, ◌/◌, ◌%◌, ◌^◌, ◌<◌, ◌≡◌, refl, ap, [], ◌∷◌, arith, length, All, Result,
  ok, err, overflow, ltb, if◌then◌else◌, lt→ltb, ltb→lt, Bool-cases, inl, inr,
}
use learndb_py.Bytes.Slices.{Bytes}
use native.Mathlib.Nat.{pow-suc}

abbrev pub IsByte : ℕ → Type 0
IsByte b = b < 256

-- The lowest `n` digits of `v` in base 256, lowest first.
unfoldable pub digits : ℕ → ℕ → Bytes
digits zero v = []
digits (suc n) v = (v % 256) ∷ digits n (v / 256)

-- `v.to_bytes(n, sys.byteorder)`, which raises OverflowError where `v` does not fit.
unfoldable pub to_bytes : ℕ → ℕ → Result Bytes
to_bytes n v = if ltb v (256 ^ n) then ok (digits n v) else err overflow

-- `int.from_bytes(b, sys.byteorder)`
unfoldable pub from_bytes : Bytes → ℕ
from_bytes [] = 0
from_bytes (b ∷ bs) = b + 256 * from_bytes bs

pub length-digits : (n v : ℕ) → length (digits n v) ≡ n
unfolding digits
length-digits zero v = refl
length-digits (suc n) v = ap suc (length-digits n (v / 256))

pub digits-IsByte : (n v : ℕ) → All IsByte (digits n v)
unfolding digits
digits-IsByte zero v = tt
digits-IsByte (suc n) v = (omega arith, digits-IsByte n (v / 256))

pow_step : (n : ℕ) → 256 ^ suc n ≡ 256 * 256 ^ n
pow_step n = rw pow-suc (omega arith)

pub from_bytes-digits : (n v : ℕ) → v < 256 ^ n → from_bytes (digits n v) ≡ v
unfolding digits from_bytes
from_bytes-digits zero v h = omega arith
from_bytes-digits (suc n) v h =
    let b : v / 256 < 256 ^ n = omega (arith, pow_step n) in
    omega (arith, from_bytes-digits n (v / 256) b)

pub to_bytes_fits : (n v : ℕ) → v < 256 ^ n → to_bytes n v ≡ ok (digits n v)
unfolding to_bytes
to_bytes_fits n v h = rw (lt→ltb _ _ h)

-- What `to_bytes` returns has the asked length and reads back as the number.
pub to_bytes_ok :
    (n v : ℕ) (b : Bytes)
    → to_bytes n v ≡ ok b
    → (length b ≡ n) × (from_bytes b ≡ v) × (v < 256 ^ n)
unfolding to_bytes
to_bytes_ok n v b h = elim (Bool-cases (ltb v (256 ^ n))) [
  | inl e ↦
      let lt = ltb→lt _ _ e in
      let q : ok (digits n v) ≡ ok b = rw e at h in
      ground (arith, length-digits n v, from_bytes-digits n v)
  | inr e ↦ cc
]
