-- ===== src/Store.antt =====
-- learndb/statemanager.py: the scopes, the record sets in them, and the tables that are registered. The
-- pager and the trees are those of the modules Pager and Btree: a tree is its root page here. The names
-- of record sets are drawn at random: the draws are a list that the store carries.
pub mod Groups
pub mod Sets
use learndb_py.Prelude.{
  ℕ, zero, suc, Bool, true, false, not, ◌&&◌, Option, none, some, List, [], ◌∷◌, ◌++◌,
  if◌then◌else◌, Result, ok, err, Error, key, index, assert, ◌>>=◌, ◌>>◌,
}
use learndb_py.Bytes.Utf8.{Text}
use learndb_py.Names.{text_eq}
use learndb_py.Dict
use learndb_py.Dict.{Dict}
use learndb_py.Datatypes.{FloatFormat, Value}
use learndb_py.Schema.{SimpleSchema}
use learndb_py.Values.{FloatOps, equal_values}
use learndb_py.Rows.{Schema, Row, GroupedSchema, GroupedRecord}

-- `GroupedRecordSet`: the groups in the order in which their keys came.
abbrev pub Groups : Type 0 → Type 0
Groups R = List (List (Value R) × List (Row R))

pub record Scope (R : Type 0) : Type 0 where
  pub record_sets : Dict (List (Row R))
  pub group_rsets : Dict (Groups R)
  pub rsets_schemas : Dict Schema
  pub group_rsets_schemas : Dict GroupedSchema

-- `StateManager`. The innermost scope stands first.
pub record Store (R : Type 0) : Type 0 where
  pub schemas : Dict SimpleSchema
  pub trees : Dict ℕ
  pub scopes : List (Scope R)
  pub draws : List Text

unfoldable pub remove_key {ℓ} : {V : Type ℓ} → Text → Dict V → Result (Dict V)
remove_key k [] = err key
remove_key k ((j, v) ∷ d) =
    let rest = (do e ← remove_key k d; ok ((j, v) ∷ e)) in if text_eq j k then ok d else rest

abbrev pub or_key {ℓ} : {V : Type ℓ} → Option V → Result V
or_key none = err key
or_key (some v) = ok v

-- The loops of `unique_recordset_name` and `unique_grouped_recordset_name` over the draws, with the
-- prefix of the names and the test whether a scope has a name.
unfoldable pub unique_name : Text → (Text → Bool) → List Text → Result (Text × List Text)
unique_name prefix taken [] = err Error.stuck
unique_name prefix taken (d ∷ ds) =
    let rest = unique_name prefix taken ds in
    if taken (prefix ++ d) then rest else ok (prefix ++ d, ds)

module _ {R : Type 0} where
  abbrev pub new_scope : Scope R
  new_scope = record {
    record_sets = [];
    group_rsets = [];
    rsets_schemas = [];
    group_rsets_schemas = [];
  }

  unfoldable pub table_exists : Store R → Text → Bool
  table_exists s name = Dict.contains name s.trees

  unfoldable pub register_tree : Store R → Text → ℕ → Store R
  register_tree s name root = record s { trees = Dict.set name root s.trees }

  unfoldable pub register_schema : Store R → Text → SimpleSchema → Store R
  register_schema s name schema = record s { schemas = Dict.set name schema s.schemas }

  unfoldable pub unregister_table : Store R → Text → Result (Store R)
  unfolding remove_key
  unregister_table s name = do
    trees ← remove_key name s.trees
    schemas ← remove_key name s.schemas
    ok (record s { trees = trees; schemas = schemas })

  unfoldable pub has_schema : Store R → Text → Bool
  has_schema s name = Dict.contains name s.schemas

  unfoldable pub get_schema : Store R → Text → Result SimpleSchema
  get_schema s name = or_key (Dict.get name s.schemas)

  unfoldable pub get_tree : Store R → Text → Result ℕ
  get_tree s name = or_key (Dict.get name s.trees)

  unfoldable pub begin_scope : Store R → Store R
  begin_scope s = record s { scopes = new_scope ∷ s.scopes }

  abbrev pub pop_scope : Store R → List (Scope R) → Result (Store R)
  pop_scope s [] = err index
  pop_scope s (c ∷ cs) = ok (record s { scopes = cs })

  unfoldable pub end_scope : Store R → Result (Store R)
  end_scope s = pop_scope s s.scopes

  -- The first set of that name, from the innermost scope on.
  unfoldable pub find_set : Text → List (Scope R) → Option (List (Row R))
  find_set name [] = none
  find_set name (c ∷ cs) =
      let rest = find_set name cs in
      elim (Dict.get name c.record_sets) [ none ↦ rest | some rs ↦ some rs ]

  unfoldable pub find_recordset_scope : Text → List (Scope R) → Option (Scope R)
  find_recordset_scope name [] = none
  find_recordset_scope name (c ∷ cs) =
      let rest = find_recordset_scope name cs in
      elim (Dict.get name c.record_sets) [ none ↦ rest | some rs ↦ some c ]

  unfoldable pub find_grouped_recordset_scope : Text → List (Scope R) → Option (Scope R)
  find_grouped_recordset_scope name [] = none
  find_grouped_recordset_scope name (c ∷ cs) =
      let rest = find_grouped_recordset_scope name cs in
      elim (Dict.get name c.group_rsets) [ none ↦ rest | some gs ↦ some c ]

  unfoldable pub get_recordset_schema : Store R → Text → Option Schema
  unfolding find_recordset_scope
  get_recordset_schema s name = elim (find_recordset_scope name s.scopes) [
    | none ↦ none
    | some c ↦ Dict.get name c.rsets_schemas
  ]

  unfoldable pub get_grouped_recordset_schema : Store R → Text → Option GroupedSchema
  unfolding find_grouped_recordset_scope
  get_grouped_recordset_schema s name = elim (find_grouped_recordset_scope name s.scopes) [
    | none ↦ none
    | some c ↦ Dict.get name c.group_rsets_schemas
  ]

  unfoldable pub has_set : List (Scope R) → Text → Bool
  unfolding find_recordset_scope
  has_set cs name = Dict.has (find_recordset_scope name cs)

  unfoldable pub has_group_set : List (Scope R) → Text → Bool
  unfolding find_grouped_recordset_scope
  has_group_set cs name = Dict.has (find_grouped_recordset_scope name cs)

  abbrev pub add_to_first : (Scope R → Scope R) → List (Scope R) → Result (List (Scope R))
  add_to_first change [] = err index
  add_to_first change (c ∷ cs) = ok (change c ∷ cs)

  -- `Scope.add_recordset`, with a new record set.
  unfoldable pub add_recordset : Text → Schema → Scope R → Scope R
  add_recordset name schema c = record c {
    rsets_schemas = Dict.set name schema c.rsets_schemas;
    record_sets = Dict.set name [] c.record_sets;
  }

  unfoldable pub add_grouped_recordset : Text → GroupedSchema → Scope R → Scope R
  add_grouped_recordset name schema c = record c {
    group_rsets_schemas = Dict.set name schema c.group_rsets_schemas;
    group_rsets = Dict.set name [] c.group_rsets;
  }

  unfoldable pub init_recordset : Store R → Schema → Result (Text × Store R)
  unfolding unique_name has_set add_recordset
  init_recordset s schema = do
    (name, draws) ← unique_name (b'r' ∷ []) (has_set s.scopes) s.draws
    scopes ← add_to_first (add_recordset name schema) s.scopes
    ok (name, record s { scopes = scopes; draws = draws })

  unfoldable pub init_grouped_recordset : Store R → GroupedSchema → Result (Text × Store R)
  unfolding unique_name has_group_set add_grouped_recordset
  init_grouped_recordset s schema = do
    (name, draws) ← unique_name (b'g' ∷ []) (has_group_set s.scopes) s.draws
    scopes ← add_to_first (add_grouped_recordset name schema) s.scopes
    ok (name, record s { scopes = scopes; draws = draws })

  -- The search of `append_recordset` and the change of the set that it finds.
  unfoldable pub append_to : Text → Row R → List (Scope R) → Result (List (Scope R))
  append_to name r [] = err Error.assertion
  append_to name r (c ∷ cs) =
      let rest = (do ds ← append_to name r cs; ok (c ∷ ds)) in
      elim (Dict.get name c.record_sets) [
        | none ↦ rest
        | some rs ↦ ok (record c { record_sets = Dict.set name (rs ++ r ∷ []) c.record_sets } ∷ cs)
      ]

  unfoldable pub append_recordset : Store R → Text → Row R → Result (Store R)
  unfolding append_to
  append_recordset s name r = do
    scopes ← append_to name r s.scopes
    ok (record s { scopes = scopes })

  unfoldable pub drop_from : Text → List (Scope R) → Result (List (Scope R))
  unfolding remove_key
  drop_from name [] = err Error.assertion
  drop_from name (c ∷ cs) =
      let rest = (do ds ← drop_from name cs; ok (c ∷ ds)) in
      elim (Dict.get name c.record_sets) [
        | none ↦ rest
        | some rs ↦ (do
          sets ← remove_key name c.record_sets
          ok (record c { record_sets = sets } ∷ cs))
      ]

  unfoldable pub drop_recordset : Store R → Text → Result (Store R)
  unfolding drop_from
  drop_recordset s name = do scopes ← drop_from name s.scopes; ok (record s { scopes = scopes })

  -- `recordset_iter`, as the list that the iterator runs over.
  unfoldable pub recordset_iter : Store R → Text → Result (List (Row R))
  unfolding find_set
  recordset_iter s name = elim (find_set name s.scopes) [
    | none ↦ err Error.assertion
    | some rs ↦ ok rs
  ]
