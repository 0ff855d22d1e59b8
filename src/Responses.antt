-- ===== src/Responses.antt =====
-- learndb/dataexchange.py: `Response`, with the reason of a failure in place of its text.
use learndb_py.Prelude.{ℕ, ◌≡◌, refl, ◌⊎◌, inl, inr}
use learndb_py.Bytes.Utf8.{Text}

-- One constructor for each error message of schema.py, record_utils.py, serde.py and
-- name_registry.py, with the names and numbers that the message shows. A message that wraps
-- another one holds it.
pub data Message : Type 0 where
  missing_primary_key primary_key_not_integer : Message
  duplicate_column_name : Text → Message
  unrecognized_datatype unparsed_datatype : Message
  schema_validation : Message → Message
  unset_non_nullable unset_primary_key invalid_term required_column : Text → Message
  count_mismatch : ℕ → ℕ → Message
  record_validation : Message → Message
  unresolved_column : Text → Message
  arity_mismatch : ℕ → ℕ → Message
  invalid_argument : ℕ → Message
  unexpected_named_argument invalid_named_argument : Text → Message
  scalar_function_not_found aggregate_function_not_found : Text → Message

pub data Response {ℓ} (A : Type ℓ) : Type ℓ where
  success : A → Response A
  failure : Message → Response A

pub Response-cases {ℓ} :
    {A : Type ℓ} (r : Response A) → ((a : A) × (r ≡ success a)) ⊎ ((m : Message) × (r ≡ failure m))
Response-cases (success a) = inl (a, refl)
Response-cases (failure m) = inr (m, refl)
