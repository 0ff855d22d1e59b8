-- ===== src/Functions.antt =====
-- learndb/functions.py: the definitions of functions, the check of their arguments, their application,
-- and the registries.
use learndb_py.Prelude.{
  ℕ, ◌+◌, Bool, true, false, not, none, some, List, [], ◌∷◌, ◌==◌, length, if◌then◌else◌, Result,
  ok, err, Error, type_err, value, ◌>>=◌, pos,
}
use learndb_py.Bytes.Utf8.{Text}
use learndb_py.Names.{text, lower}
use learndb_py.Dict
use learndb_py.Dict.{Dict}
use learndb_py.Datatypes.{
  FloatFormat, Value, null, int, str, blob, DataType, integer_type, real_type, is_valid_term,
}
use learndb_py.Responses.{
  Response, success, failure, arity_mismatch, invalid_argument, unexpected_named_argument,
  invalid_named_argument, scalar_function_not_found, aggregate_function_not_found,
}
use learndb_py.Values.{FloatOps, multiply_values}

-- The type of a parameter, where `DataType` itself stands for any type.
pub data ParamType : Type 0 where
  any : ParamType
  typed : DataType → ParamType

-- A positional parameter: a value, or a collection whose values have each of the types.
pub data Param : Type 0 where
  one : ParamType → Param
  collection : List ParamType → Param

-- A positional argument: a value, or a list of values.
pub data Argument (R : Type 0) : Type 0 where
  atom : Value R → Argument R
  values : List (Value R) → Argument R

-- The bodies of the native functions.
pub data Body : Type 0 where
  number_square value_count : Body

pub record FunctionDefinition : Type 0 where
  pub name : Text
  pub pos_params : List Param
  pub named_params : Dict ParamType
  pub body : Body
  pub return_type : DataType

abbrev pub integer_square_function : FunctionDefinition
integer_square_function = record {
  name = text "integer_square";
  pos_params = one (typed integer_type) ∷ [];
  named_params = [];
  body = number_square;
  return_type = integer_type;
}

abbrev pub float_square_function : FunctionDefinition
float_square_function = record {
  name = text "float_square";
  pos_params = one (typed real_type) ∷ [];
  named_params = [];
  body = number_square;
  return_type = real_type;
}

abbrev pub count_function : FunctionDefinition
count_function = record {
  name = text "count";
  pos_params = collection (any ∷ []) ∷ [];
  named_params = [];
  body = value_count;
  return_type = integer_type;
}

abbrev pub scalar_function_registry : Dict FunctionDefinition
scalar_function_registry =
    (text "square", integer_square_function) ∷ (text "square_float", float_square_function) ∷ []

abbrev pub aggregate_function_registry : Dict FunctionDefinition
aggregate_function_registry = (text "count", count_function) ∷ []

-- `resolve_function_name`
unfoldable pub resolve_function_name : Text → Result FunctionDefinition
resolve_function_name name = elim (Dict.get (lower name) scalar_function_registry) [
  | some d ↦ ok d
  | none ↦ elim (Dict.get (lower name) aggregate_function_registry) [
    | some d ↦ ok d
    | none ↦ err value
  ]
]

unfoldable pub is_scalar_function : Text → Bool
is_scalar_function name = Dict.contains (lower name) scalar_function_registry

unfoldable pub is_aggregate_function : Text → Bool
is_aggregate_function name = Dict.contains (lower name) aggregate_function_registry

unfoldable pub resolve_scalar_func_name : Text → Result (Response FunctionDefinition)
unfolding is_scalar_function resolve_function_name
resolve_scalar_func_name name =
    if is_scalar_function name
    then (do d ← resolve_function_name name; ok (success d))
    else ok (failure (scalar_function_not_found name))

unfoldable pub resolve_aggregate_func_name : Text → Result (Response FunctionDefinition)
unfolding is_aggregate_function resolve_function_name
resolve_aggregate_func_name name =
    if is_aggregate_function name
    then (do d ← resolve_function_name name; ok (success d))
    else ok (failure (aggregate_function_not_found name))

module _ {R : Type 0} where
  unfoldable pub characters : Text → List (Value R)
  characters [] = []
  characters (c ∷ s) = str (c ∷ []) ∷ characters s

  unfoldable pub byte_values : List ℕ → List (Value R)
  byte_values [] = []
  byte_values (b ∷ bs) = int (pos b) ∷ byte_values bs

  -- `for value in arg`
  unfoldable pub iterate : Argument R → Result (List (Value R))
  unfolding characters byte_values
  iterate (values vs) = ok vs
  iterate (atom (str s)) = ok (characters s)
  iterate (atom (blob bs)) = ok (byte_values bs)
  iterate (atom _) = err type_err

  -- `value_count_function_body`
  unfoldable pub count_values : List (Value R) → ℕ
  count_values [] = 0
  count_values (null ∷ vs) = count_values vs
  count_values (v ∷ vs) = count_values vs + 1

module _ (f : FloatFormat) where
  open f use {Real}

  -- `FunctionDefinition.is_valid_term`
  unfoldable pub is_valid_param : ParamType → Value Real → Result Bool
  is_valid_param any v = ok true
  is_valid_param (typed t) v = is_valid_term f t v

  -- Whether all values of a collection have the type.
  unfoldable pub all_valid : ParamType → List (Value Real) → Result Bool
  unfolding is_valid_param
  all_valid p [] = ok true
  all_valid p (v ∷ vs) =
      let rest = all_valid p vs in
      (is_valid_param p v) >>= (λ valid. if valid then rest else ok false)

  unfoldable pub all_items_valid : List ParamType → Argument Real → Result Bool
  unfolding all_valid iterate
  all_items_valid [] a = ok true
  all_items_valid (p ∷ ps) a =
      let rest = all_items_valid ps a in
      (do vs ← iterate a; all_valid p vs) >>= (λ valid. if valid then rest else ok false)

  -- A list is no valid term of a datatype that has a check, and the others raise.
  unfoldable pub list_is_valid : ParamType → Result Bool
  list_is_valid any = ok true
  list_is_valid (typed t) = is_valid_term f t null

  unfoldable pub argument_is_valid : Param → Argument Real → Result Bool
  unfolding all_items_valid list_is_valid
  argument_is_valid (collection ps) a = all_items_valid ps a
  argument_is_valid (one p) (atom v) = is_valid_param p v
  argument_is_valid (one p) (values vs) = list_is_valid p

  -- The loop over the positional arguments; their number has been compared before.
  unfoldable pub validate_pos_args :
      ℕ → List Param → List (Argument Real) → Result (Response (Unit {0}))
  unfolding argument_is_valid
  validate_pos_args i [] as' = ok (success tt)
  validate_pos_args i (p ∷ ps) [] = ok (success tt)
  validate_pos_args i (p ∷ ps) (a ∷ as') =
      let rest = validate_pos_args (i + 1) ps as' in
      (argument_is_valid p a)
      >>= (λ valid. if valid then rest else ok (failure (invalid_argument i)))

  -- The loop over the named arguments, which returns in its first round.
  unfoldable pub validate_named_args :
      Dict ParamType → Dict (Value Real) → Result (Response (Unit {0}))
  validate_named_args params [] = ok (success tt)
  validate_named_args params ((n, v) ∷ rest) = elim (Dict.get n params) [
    | none ↦ ok (failure (unexpected_named_argument n))
    | some p ↦ do valid ← is_valid_param p v; ok (failure (invalid_named_argument n))
  ]

  -- `FunctionDefinition.validate_args`
  unfoldable pub validate_args :
      FunctionDefinition → List (Argument Real) → Dict (Value Real) → Result (Response (Unit {0}))
  unfolding validate_pos_args validate_named_args
  validate_args d pos_args named_args =
      if not (length pos_args == length d.pos_params)
      then ok (failure (arity_mismatch (length pos_args) (length d.pos_params)))
      else (validate_pos_args 0 d.pos_params pos_args) >>= elim [
        | failure m ↦ ok (failure m)
        | success _ ↦
            if not (length named_args == length d.named_params)
            then ok (failure (arity_mismatch (length named_args) (length d.named_params)))
            else validate_named_args d.named_params named_args
      ]

module _ (f : FloatFormat) (o : FloatOps f) where
  open f use {Real}

  -- `self.body(*pos_args)`; a call with other arguments than one is a TypeError.
  unfoldable pub run_body : Body → List (Argument Real) → Result (Value Real)
  unfolding iterate count_values
  run_body number_square (atom v ∷ []) = multiply_values f o v v
  run_body number_square _ = err type_err
  run_body value_count (a ∷ []) = do vs ← iterate a; ok (int (pos (count_values vs)))
  run_body value_count _ = err type_err

  -- `FunctionDefinition.apply`
  unfoldable pub apply :
      FunctionDefinition → List (Argument Real) → Dict (Value Real) → Result (Value Real)
  unfolding validate_args run_body
  apply d pos_args named_args =
      (validate_args f d pos_args named_args)
      >>= elim [ failure m ↦ err Error.invalid_arguments | success _ ↦ run_body d.body pos_args ]
