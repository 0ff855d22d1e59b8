-- ===== src/Store/Groups.antt =====
-- learndb/statemanager.py: the grouped record sets, which are indexed by the keys of their groups.
use learndb_py.Prelude.{
  Bool, true, false, ◌&&◌, none, some, List, [], ◌∷◌, ◌++◌, if◌then◌else◌, Result, ok, err, Error,
  ◌>>=◌,
}
use learndb_py.Bytes.Utf8.{Text}
use learndb_py.Dict
use learndb_py.Datatypes.{FloatFormat, Value}
use learndb_py.Values.{FloatOps, equal_values}
use learndb_py.Rows.{Row, GroupedSchema, GroupedRecord}
use learndb_py.Store.{Groups, Scope, Store, find_grouped_recordset_scope}

module _ (f : FloatFormat) (o : FloatOps f) where
  open f use {Real}

  -- Whether two tuples are equal.
  unfoldable pub same_key : List (Value Real) → List (Value Real) → Bool
  same_key [] [] = true
  same_key [] (w ∷ ws) = false
  same_key (v ∷ vs) [] = false
  same_key (v ∷ vs) (w ∷ ws) = equal_values f o v w && same_key vs ws

  -- `recordset[group_key].append(record)`: a key that is not there gets a new group.
  unfoldable pub append_group : List (Value Real) → Row Real → Groups Real → Groups Real
  unfolding same_key
  append_group k r [] = (k, r ∷ []) ∷ []
  append_group k r ((j, rs) ∷ gs) =
      if same_key j k then (j, rs ++ r ∷ []) ∷ gs else (j, rs) ∷ append_group k r gs

  unfoldable pub append_group_to :
      Text → List (Value Real) → Row Real → List (Scope Real) → Result (List (Scope Real))
  unfolding append_group
  append_group_to name k r [] = err Error.assertion
  append_group_to name k r (c ∷ cs) =
      let rest = (do ds ← append_group_to name k r cs; ok (c ∷ ds)) in
      elim (Dict.get name c.group_rsets) [
        | none ↦ rest
        | some gs ↦
            ok (record c { group_rsets = Dict.set name (append_group k r gs) c.group_rsets } ∷ cs)
      ]

  unfoldable pub append_grouped_recordset :
      Store Real → Text → List (Value Real) → Row Real → Result (Store Real)
  unfolding append_group_to
  append_grouped_recordset s name k r = do
    scopes ← append_group_to name k r s.scopes
    ok (record s { scopes = scopes })

module _ {R : Type 0} where
  unfoldable pub group_records : GroupedSchema → Groups R → List (GroupedRecord R)
  group_records schema [] = []
  group_records schema ((k, rs) ∷ gs) =
      record { schema = schema; group_key = k; group_recordset = rs } ∷ group_records schema gs

  -- `grouped_recordset_iter`
  unfoldable pub grouped_recordset_iter : Store R → Text → Result (List (GroupedRecord R))
  unfolding group_records find_grouped_recordset_scope
  grouped_recordset_iter s name = elim (find_grouped_recordset_scope name s.scopes) [
    | none ↦ err Error.assertion
    | some c ↦ elim (Dict.get name c.group_rsets) [
      | none ↦ err Error.assertion
      | some gs ↦ elim (Dict.get name c.group_rsets_schemas) [
        | none ↦ err Error.assertion
        | some schema ↦ ok (group_records schema gs)
      ]
    ]
  ]
