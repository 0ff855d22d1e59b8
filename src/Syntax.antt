-- ===== src/Syntax.antt =====
-- learndb/lang_parser/symbols.py: the enumerations and the symbols that an expression is made of, and the
-- search for the descendents of a symbol.
use learndb_py.Prelude.{
  ℕ, zero, suc, ◌+◌, Bool, true, false, Option, none, some, List, [], ◌∷◌, ◌++◌, ◌==◌,
  if◌then◌else◌,
}
use learndb_py.Bytes.Utf8.{Text}
use learndb_py.Datatypes.{Value}
use learndb_py.Schema.{SymbolicDataType}

pub data ComparisonOp : Type 0 where
  greater less less_equal greater_equal equal not_equal : ComparisonOp

pub data ArithmeticOp : Type 0 where
  addition subtraction multiplication division : ArithmeticOp

pub data OrderingQualifier : Type 0 where
  ascending descending : OrderingQualifier

pub data JoinType : Type 0 where
  inner left_outer right_outer full_outer cross : JoinType

-- The subclasses of `Symbol` that an expression is made of, and the lists of symbols that they hold.
mutual
  pub data Symbol (R : Type 0) : Type 0 where
    expr : Symbol R → Symbol R
    or_clause : Symbols R → Symbol R
    and_clause : Symbols R → Symbol R
    comparison : Symbol R → Symbol R → ComparisonOp → Symbol R
    arithmetic : ArithmeticOp → Symbol R → Symbol R → Symbol R
    func_call : Text → Symbols R → Symbol R
    column_name : Text → Symbol R
    literal : Value R → SymbolicDataType → Symbol R

  pub data Symbols (R : Type 0) : Type 0 where
    nil : Symbols R
    cons : Symbol R → Symbols R → Symbols R

pub record OrderedColumn : Type 0 where
  pub column : Text
  pub qualifier : OrderingQualifier

-- `name.split(".")`, with the characters of the current part in `part`.
unfoldable pub split_from : Text → Text → List Text
split_from part [] = part ∷ []
split_from part (c ∷ s) =
    let here = split_from (part ++ c ∷ []) s in
    let next = split_from [] s in if c == b'.' then part ∷ next else here

unfoldable pub split_name : Text → List Text
unfolding split_from
split_name s = split_from [] s

-- `".".join(parts[:-1])`
unfoldable pub join_but_last : List Text → Text
join_but_last [] = []
join_but_last (p ∷ []) = []
join_but_last (p ∷ q ∷ []) = p
join_but_last (p ∷ q ∷ r ∷ ps) = p ++ b'.' ∷ join_but_last (q ∷ r ∷ ps)

-- `ColumnName.get_parent_alias`
unfoldable pub get_parent_alias : Text → Option Text
unfolding split_name join_but_last
get_parent_alias name = elim (split_name name) [
  | [] ↦ none
  | p ∷ ps ↦ elim ps [ [] ↦ none | q ∷ qs ↦ some (join_but_last (p ∷ q ∷ qs)) ]
]

unfoldable pub last_part : Text → List Text → Text
last_part p [] = p
last_part p (q ∷ qs) = last_part q qs

-- `ColumnName.get_base_name`
unfoldable pub get_base_name : Text → Text
unfolding split_name last_part
get_base_name name = last_part [] (split_name name)

module _ {R : Type 0} where
  unfoldable pub to_list : Symbols R → List (Symbol R)
  to_list nil = []
  to_list (cons s ss) = s ∷ to_list ss

  -- The attributes of a symbol that are symbols, or lists of them, in the order of their names.
  unfoldable pub children : Symbol R → List (Symbol R)
  unfolding to_list
  children (expr e) = e ∷ []
  children (or_clause ss) = to_list ss
  children (and_clause ss) = to_list ss
  children (comparison l r op) = l ∷ r ∷ []
  children (arithmetic op a b) = a ∷ b ∷ []
  children (func_call name args) = to_list args
  children (column_name name) = []
  children (literal v t) = []

  -- The loop over the queue, with fuel for one symbol each round.
  unfoldable pub search_queue : ℕ → (Symbol R → Bool) → List (Symbol R) → List (Symbol R)
  unfolding children
  search_queue zero matches queue = []
  search_queue (suc fuel) matches [] = []
  search_queue (suc fuel) matches (node ∷ queue) =
      let rest = search_queue fuel matches (queue ++ children node) in
      if matches node then node ∷ rest else rest

unfoldable mutual
  pub size : {R : Type 0} → Symbol R → ℕ
  size (expr e) = suc (size e)
  size (or_clause ss) = suc (size_all ss)
  size (and_clause ss) = suc (size_all ss)
  size (comparison l r op) = suc (size l + size r)
  size (arithmetic op a b) = suc (size a + size b)
  size (func_call name args) = suc (size_all args)
  size (column_name name) = 1
  size (literal v t) = 1

  pub size_all : {R : Type 0} → Symbols R → ℕ
  size_all nil = 0
  size_all (cons s ss) = size s + size_all ss

module _ {R : Type 0} where
  -- `symbol.find_descendents(types)`, with the test `isinstance(node, types)`.
  unfoldable pub find_descendents : (Symbol R → Bool) → Symbol R → List (Symbol R)
  unfolding search_queue size
  find_descendents matches s = search_queue (size s) matches (s ∷ [])

  unfoldable pub is_primitive : Symbol R → Bool
  is_primitive (literal v t) = true
  is_primitive (column_name name) = true
  is_primitive (func_call name args) = true
  is_primitive _ = false

  unfoldable pub is_column_name : Symbol R → Bool
  is_column_name (column_name name) = true
  is_column_name _ = false

  -- `ExpressionInterpreter.simplify_expr`, and `ToAst.simplify_or_clause`, which is the same code.
  unfoldable pub simplify_expr : Symbol R → Symbol R
  unfolding find_descendents is_primitive
  simplify_expr e = elim (find_descendents is_primitive e) [
    | [] ↦ e
    | d ∷ ds ↦ elim ds [ [] ↦ d | c ∷ cs ↦ e ]
  ]
