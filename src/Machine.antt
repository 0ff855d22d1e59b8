-- ===== src/Machine.antt =====
-- learndb/virtual_machine.py: the materialization of a source, and a select statement as a whole. The state is
-- that of the pager and of the state manager. `height` is that of the tree that is read, and `rounds` the
-- number of its cells at least.
pub mod Tables
use learndb_py.Prelude.{
  ℕ, zero, suc, Bool, true, false, not, ◌&&◌, Option, none, some, List, [], ◌∷◌, if◌then◌else◌,
  Result, ok, err, Error, stuck, ◌>>=◌, ◌>>◌,
}
use learndb_py.Bytes.Utf8.{Text}
use learndb_py.Names.{text, text_eq, lower}
use learndb_py.Datatypes.{FloatFormat}
use learndb_py.Schema.{SimpleSchema, catalog_schema}
use learndb_py.Records.{SimpleRecord}
use learndb_py.Serde.{deserialize_cell}
use learndb_py.Values.{FloatOps}
use learndb_py.Syntax.{Symbol}
use learndb_py.Rows.{Schema, Row, from_single_schema, from_single_simple_record}
use learndb_py.Pager.{Pager}
use learndb_py.Cursor.{Cursor, open_cursor, get_cell, advance}
use learndb_py.Store.{
  Store, has_schema, get_schema, get_tree, init_recordset, append_recordset, begin_scope,
}
use learndb_py.Query.Joins.{JoinClause, join_recordset}
use learndb_py.Query.Select.{Answer, expect_success}
use learndb_py.Query.Statement.{FromClause, select_from, select_values}

pub record Machine (R : Type 0) : Type 0 where
  pub pager : Pager
  pub store : Store R

-- `SingleSource`
pub record SingleSource : Type 0 where
  pub table_name : Text
  pub table_alias : Option Text

-- The source of a from clause: a table, or a joining, which has the joinings before it on its left.
pub data Source (R : Type 0) : Type 0 where
  single : SingleSource → Source R
  joining : JoinClause R → Source R → SingleSource → Source R

-- `CATALOG`
abbrev pub catalog : Text
catalog = text "catalog"

-- `CATALOG_ROOT_PAGE_NUM`
abbrev pub catalog_root_page_num : ℕ
catalog_root_page_num = 0

module _ {R : Type 0} where
  -- `get_schema`
  unfoldable pub schema_of : Store R → Text → Result SimpleSchema
  schema_of s name =
      if text_eq (lower name) catalog then ok catalog_schema else get_schema s (lower name)

  -- `get_tree`
  unfoldable pub tree_of : Store R → Text → Result ℕ
  tree_of s name =
      if text_eq (lower name) catalog then ok catalog_root_page_num else get_tree s (lower name)

-- `table_alias or table_name`
unfoldable pub source_name : SingleSource → Text
source_name s = elim s.table_alias [
  | none ↦ s.table_name
  | some [] ↦ s.table_name
  | some (c ∷ cs) ↦ c ∷ cs
]

-- The schema of the records that a table gives.
unfoldable pub aliased_schema : SimpleSchema → Option Text → Schema
aliased_schema schema none = Schema.simple schema
aliased_schema schema (some alias) = from_single_schema schema alias

-- A record of a table, behind its alias where there is one.
unfoldable pub aliased_row : {R : Type 0} → SimpleSchema → Option Text → SimpleRecord R → Row R
unfolding aliased_schema
aliased_row schema none r = Row.simple r
aliased_row schema (some []) r = Row.simple r
aliased_row schema (some (c ∷ cs)) r =
    from_single_simple_record r (c ∷ cs) (aliased_schema schema (some (c ∷ cs)))

-- A scope for the statement.
abbrev pub with_scope : {R : Type 0} → Machine R → Machine R
with_scope m = record m { store = begin_scope m.store }

module _ (f : FloatFormat) (height : ℕ) where
  open f use {Real}

  -- The loop over the cells of the table.
  unfoldable pub read_table :
      ℕ → SimpleSchema → Option Text → Text → Cursor → Machine Real → Result (Machine Real)
  unfolding expect_success aliased_row
  read_table zero schema alias rsname c m = if c.end_of_table then ok m else err stuck
  read_table (suc rounds) schema alias rsname c m = elim c.end_of_table [
    | true ↦ ok m
    | false ↦ (do
      (cell, p₁) ← get_cell m.pager c
      resp ← deserialize_cell f cell schema
      r ← expect_success resp
      s ← append_recordset m.store rsname (aliased_row schema alias r)
      (c', p₂) ← advance height p₁ c
      read_table rounds schema alias rsname c' (record { pager = p₂; store = s }))
  ]

  -- `materialize_source_from_name`, behind the test whether there is such a table.
  unfoldable pub materialize_table : ℕ → SingleSource → Machine Real → Result (Text × Machine Real)
  unfolding schema_of tree_of aliased_schema read_table
  materialize_table rounds source m = do
    let name = lower source.table_name
    schema ← schema_of m.store name
    root ← tree_of m.store name
    (rsname, s) ← init_recordset m.store (aliased_schema schema source.table_alias)
    (c, p) ← open_cursor height m.pager root
    m' ← read_table rounds schema source.table_alias rsname c (record { pager = p; store = s })
    ok (rsname, m')

  -- `materialize_single_source` and `materialize_source_from_name`
  unfoldable pub materialize_single_source :
      ℕ → SingleSource → Machine Real → Answer (Text × Machine Real)
  unfolding materialize_table
  materialize_single_source rounds source m =
      let name = lower source.table_name in
      if not (text_eq name catalog) && not (has_schema m.store name)
      then ok none
      else (do r ← materialize_table rounds source m; ok (some r))

module _ (f : FloatFormat) (o : FloatOps f) (height rounds : ℕ) where
  open f use {Real}

  -- A joining of a record set with the next table, whose materialization is asserted to succeed. Behind it
  -- the left source has no name.
  unfoldable pub join_next :
      JoinClause Real
      → SingleSource
      → Text × Option Text × Machine Real
      → Result (Text × Option Text × Machine Real)
  unfolding source_name
  join_next clause right (rsname, left_source_name, m) = do
    answer ← materialize_single_source f height rounds right m
    elim answer [
      | none ↦ err Error.assertion
      | some (next_rsname, m') ↦ (do
        (joined, s) ←
            join_recordset f o m'.store clause rsname next_rsname left_source_name
              (source_name right)
        ok (joined, none, record m' { store = s }))
    ]

  -- `materialize_joining`: the stack of the source has the innermost left source on its top, and then the
  -- joinings outwards. With the record set comes `left_source_name`.
  unfoldable pub materialize_named :
      Source Real → Machine Real → Answer (Text × Option Text × Machine Real)
  unfolding source_name join_next
  materialize_named (single source) m = do
    answer ← materialize_single_source f height rounds source m
    ok (elim answer [
      | none ↦ none
      | some (rsname, m') ↦ some (rsname, some (source_name source), m')
    ])
  materialize_named (joining clause left right) m = do
    answer ← materialize_named left m
    elim answer [ none ↦ ok none | some first ↦ (do r ← join_next clause right first; ok (some r)) ]

  -- `materialize`
  unfoldable pub materialize : Source Real → Machine Real → Answer (Text × Machine Real)
  unfolding materialize_named
  materialize source m = do
    answer ← materialize_named source m
    ok (elim answer [ none ↦ none | some (rsname, left_source_name, m') ↦ some (rsname, m') ])

  module _ (show : Symbol Real → Text) where
    -- `visit_select_stmnt`: the records that are written to the output, and the state behind it.
    unfoldable pub visit_select_stmnt :
        List (Symbol Real)
        → Option (Source Real × FromClause Real)
        → Machine Real
        → Answer (List (Row Real) × Machine Real)
    unfolding materialize
    visit_select_stmnt es none m = do
      answer ← select_values f o show es (with_scope m).store
      ok (elim answer [ none ↦ none | some (rows, s) ↦ some (rows, record m { store = s }) ])
    visit_select_stmnt es (some (source, clauses)) m = do
      answer ← materialize source (with_scope m)
      elim answer [
        | none ↦ ok none
        | some (rsname, m') ↦ (do
          result ← select_from f o show es clauses m'.store rsname
          ok (elim result [ none ↦ none | some (rows, s) ↦ some (rows, record m' { store = s }) ]))
      ]
