-- ===== src/Prelude/Results.antt =====
-- Python's exceptions as values. What a raise leaves behind in mutated objects is not kept: an
-- exception that these modules raise ends the statement that is being run.
use mathlib.Core.Path.{◌≡◌, refl}
use mathlib.Core.Logic.{◌≢◌, ◌⊎◌, inl, inr}
use native.Mathlib.Omega.{arith}
use mathlib.Core.Bool.{Bool, true, false}

-- `exited` is `sys.exit(EXIT_FAILURE)`; `stuck` is no exception: a loop's fuel ran out.
pub data Error : Type 0 where
  assertion overflow key value index type_err unicode attribute struct_err not_implemented : Error
  invalid_page_access lock_unavailable exited zero_division handler_not_found : Error
  invalid_name invalid_arguments unaggregated semantic_analysis unbound stuck : Error

-- The outcome of a Python call: an exception that was raised, or the value that was returned.
pub data Result {ℓ} (R : Type ℓ) : Type ℓ where
  err : Error → Result R
  ok : R → Result R

pub Result-cases {ℓ} :
    {R : Type ℓ} (m : Result R) → ((r : R) × (m ≡ ok r)) ⊎ ((x : Error) × (m ≡ err x))
Result-cases (err x) = inr (x, refl)
Result-cases (ok r) = inl (r, refl)

-- `assert test`
abbrev pub assert : Bool → Result (Unit {0})
assert false = err assertion
assert true = ok tt

pub assert-ne-stuck : (test : Bool) → assert test ≢ err stuck
assert-ne-stuck false p = cc
assert-ne-stuck true p = cc

module _ {ℓ κ} {R : Type ℓ} {S : Type κ} where
  infixl 5 ◌>>=◌
  -- The statements behind a call run where the call has not raised.
  abbrev pub ◌>>=◌ : Result R → (R → Result S) → Result S
  err x >>= later = err x
  ok r >>= later = later r

  -- A block that returned: its first call did, and so did the rest.
  pub >>=-eq-ok :
      (m : Result R) (later : R → Result S) {s : S}
      → (m >>= later) ≡ ok s
      → (r : R) × (m ≡ ok r) × (later r ≡ ok s)
  >>=-eq-ok (err x) later p = cc
  >>=-eq-ok (ok r) later p = (r, refl, p)

  -- A run that is not stuck, followed by runs that are not, is not stuck.
  pub >>=-ne-stuck :
      (m : Result R) (later : R → Result S)
      → m ≢ err stuck
      → ((r : R) → m ≡ ok r → later r ≢ err stuck)
      → (m >>= later) ≢ err stuck
  >>=-ne-stuck (err x) later h g = λ p. h (ground (arith, p))
  >>=-ne-stuck (ok r) later h g = g r refl

infixl 5 ◌>>◌
abbrev pub ◌>>◌ {κ} : {S : Type κ} → Result (Unit {0}) → Result S → Result S
m >> later = m >>= (λ _. later)
