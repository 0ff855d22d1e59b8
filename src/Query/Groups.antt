-- ===== src/Query/Groups.antt =====
-- learndb/virtual_machine.py: the group by and the having clause, over the grouped record sets of the store.
use learndb_py.Prelude.{
  Option, none, some, List, [], ◌∷◌, if◌then◌else◌, Result, ok, err, Error, not_implemented, ◌>>=◌,
}
use learndb_py.Bytes.Utf8.{Text}
use learndb_py.Datatypes.{FloatFormat, Value}
use learndb_py.Values.{FloatOps}
use learndb_py.Syntax.{Symbol}
use learndb_py.Rows.{Schema, Row, row_get, GroupedSchema, GroupedRecord}
use learndb_py.Store.{
  Store, get_recordset_schema, get_grouped_recordset_schema, init_grouped_recordset, recordset_iter,
}
use learndb_py.Store.Groups.{append_grouped_recordset, grouped_recordset_iter}
use learndb_py.Interp.{evaluate_over_grouped_record}
use learndb_py.Query.Sources.{source_schema, expect_bool}

-- `make_grouped_schema`
unfoldable pub make_grouped_schema : Schema → List Text → GroupedSchema
make_grouped_schema schema group_by_columns = record {
  schema = schema;
  group_by_columns = group_by_columns;
}

module _ {R : Type 0} where
  -- The values of the grouping columns.
  unfoldable pub group_key : List Text → Row R → Result (List (Value R))
  group_key [] r = ok []
  group_key (c ∷ cs) r = do v ← row_get r c; vs ← group_key cs r; ok (v ∷ vs)

module _ (f : FloatFormat) (o : FloatOps f) where
  open f use {Real}

  -- The loop of `group_recordset`.
  unfoldable pub group_rows : List Text → Text → List (Row Real) → Store Real → Result (Store Real)
  unfolding group_key
  group_rows cs rsname [] s = ok s
  group_rows cs rsname (r ∷ rs) s = do
    k ← group_key cs r
    t ← append_grouped_recordset f o s rsname k r
    group_rows cs rsname rs t

  -- `group_recordset`
  unfoldable pub group_recordset : Store Real → List Text → Text → Result (Text × Store Real)
  unfolding source_schema make_grouped_schema group_rows
  group_recordset s cs source = do
    schema ← source_schema s source
    (rsname, s') ← init_grouped_recordset s (make_grouped_schema schema cs)
    records ← recordset_iter s' source
    t ← group_rows cs rsname records s'
    ok (rsname, t)

  -- The records of a group that the having clause keeps, appended under the key of the group.
  unfoldable pub append_group_rows :
      Text → List (Value Real) → List (Row Real) → Store Real → Result (Store Real)
  append_group_rows rsname k [] s = ok s
  append_group_rows rsname k (r ∷ rs) s =
      (append_grouped_recordset f o s rsname k r) >>= append_group_rows rsname k rs

  -- The loop of `filter_grouped_recordset`.
  unfoldable pub filter_groups :
      Symbol Real → Text → List (GroupedRecord Real) → Store Real → Result (Store Real)
  unfolding append_group_rows expect_bool
  filter_groups condition rsname [] s = ok s
  filter_groups condition rsname (g ∷ gs) s = do
    v ← evaluate_over_grouped_record f o condition g
    b ← expect_bool v
    t ← if b then append_group_rows rsname g.group_key g.group_recordset s else ok s
    filter_groups condition rsname gs t

  -- Where no record set is grouped: a joined one is a case that is left open, and any other is refused.
  unfoldable pub ungrouped_having : Option Schema → Result (Text × Store Real)
  ungrouped_having none = err Error.assertion
  ungrouped_having (some (Schema.simple s)) = err Error.assertion
  ungrouped_having (some (Schema.scoped ss)) = err not_implemented

  -- `filter_grouped_recordset`
  unfoldable pub filter_grouped_recordset :
      Store Real → Symbol Real → Text → Result (Text × Store Real)
  unfolding filter_groups ungrouped_having
  filter_grouped_recordset s condition source = elim (get_grouped_recordset_schema s source) [
    | none ↦ ungrouped_having (get_recordset_schema s source)
    | some schema ↦ (do
      (rsname, s') ← init_grouped_recordset s schema
      groups ← grouped_recordset_iter s' source
      t ← filter_groups condition rsname groups s'
      ok (rsname, t))
  ]
