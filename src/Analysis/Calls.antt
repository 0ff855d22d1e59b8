-- ===== src/Analysis/Calls.antt =====
-- The scalar functions of learndb/functions.py return values of their return types.
use learndb_py.Prelude.{
  ◌≡◌, sym, subst, List, [], ◌∷◌, arith, Result, ok, >>=-eq-ok, Bool-cases, ◌⊎◌, inl, inr,
}
use learndb_py.Bytes.Utf8.{Text}
use learndb_py.Datatypes.{FloatFormat, Value, DataType, integer_type, real_type, is_valid_term}
use learndb_py.Values.{FloatOps, multiply_values}
use learndb_py.Dict
use learndb_py.Names.{text, text_eq, lower}
use learndb_py.Responses.{Response, success, failure}
use learndb_py.Functions.{
  FunctionDefinition, resolve_scalar_func_name, is_scalar_function, resolve_function_name,
  integer_square_function, float_square_function, apply, validate_args, validate_pos_args,
  argument_is_valid, is_valid_param, run_body, Argument, atom, values,
}
use learndb_py.Interp.{call_scalar}
use learndb_py.Analysis.{scalar_type}
use learndb_py.Analysis.Typing.{HasType}

-- The scalar functions that the registry has.
resolved_scalar :
    (name : Text) (d : FunctionDefinition)
    → resolve_scalar_func_name name ≡ ok (success d)
    → (d ≡ integer_square_function) ⊎ (d ≡ float_square_function)
unfolding resolve_scalar_func_name is_scalar_function resolve_function_name Dict.get Dict.contains
resolved_scalar name d h = elim (Bool-cases (text_eq (text "square") (lower name))) [
  | inl e ↦ inl (cc (rw (e, resolve_scalar_func_name) at h))
  | inr e ↦ elim (Bool-cases (text_eq (text "square_float") (lower name))) [
    | inl q ↦ inr (cc (rw (e, q, resolve_scalar_func_name) at h))
    | inr q ↦ absurd (cc (rw (e, q, resolve_scalar_func_name) at h))
  ]
]

module _ (f : FloatFormat) (o : FloatOps f) where
  open f use {Real}

  apply_integer_square :
      (as' : List (Argument Real)) (v : Value Real)
      → apply f o integer_square_function as' [] ≡ ok v
      → HasType integer_type v
  unfolding apply validate_args validate_pos_args argument_is_valid is_valid_param is_valid_term
      run_body multiply_values
  apply_integer_square [] v h = cc
  apply_integer_square (atom w ∷ []) v h = ground arith
  apply_integer_square (values ws ∷ []) v h = cc
  apply_integer_square (a ∷ b ∷ as') v h = ground arith

  apply_float_square :
      (as' : List (Argument Real)) (v : Value Real)
      → apply f o float_square_function as' [] ≡ ok v
      → HasType real_type v
  unfolding apply validate_args validate_pos_args argument_is_valid is_valid_param is_valid_term
      run_body multiply_values
  apply_float_square [] v h = cc
  apply_float_square (atom w ∷ []) v h = ground arith
  apply_float_square (values ws ∷ []) v h = cc
  apply_float_square (a ∷ b ∷ as') v h = ground arith

  abbrev Keeps : FunctionDefinition → Type 0
  Keeps d =
      (as' : List (Argument Real)) (v : Value Real)
      → apply f o d as' [] ≡ ok v
      → HasType d.return_type v

  scalar-Keeps :
      (d : FunctionDefinition)
      → (d ≡ integer_square_function) ⊎ (d ≡ float_square_function)
      → Keeps d
  scalar-Keeps d (inl q) = subst Keeps (sym q) apply_integer_square
  scalar-Keeps d (inr q) = subst Keeps (sym q) apply_float_square

  by_response :
      (name : Text) (args : Result (List (Argument Real))) (t : DataType) (v : Value Real)
      (resp : Response FunctionDefinition)
      → resolve_scalar_func_name name ≡ ok resp
      → scalar_type name ≡ ok t
      → call_scalar f o name args ≡ ok v
      → HasType t v
  unfolding call_scalar scalar_type
  by_response name args t v (failure m) e h k = absurd (cc (rw (e, scalar_type) at h))
  by_response name args t v (success d) e h k =
      let same : d.return_type ≡ t = cc (rw (e, scalar_type) at h) in
      let (as', _, run) = >>=-eq-ok args (λ as'. apply f o d as' []) (rw (e, call_scalar) at k) in
      subst (λ (u : DataType). HasType u v) same
        (scalar-Keeps d (resolved_scalar name d e) as' v run)

  pub call_scalar-HasType :
      (name : Text) (args : Result (List (Argument Real))) (t : DataType) (v : Value Real)
      → scalar_type name ≡ ok t
      → call_scalar f o name args ≡ ok v
      → HasType t v
  unfolding scalar_type
  call_scalar-HasType name args t v h k =
      let (resp, e, _) = >>=-eq-ok (resolve_scalar_func_name name) _ h in
      by_response name args t v resp e h k
