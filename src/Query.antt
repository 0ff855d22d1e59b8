-- ===== src/Query.antt =====
-- learndb/virtual_machine.py: the clauses of a select statement over the record sets of the store. A loop
-- over a record set runs over the list that the set was when the loop began: it appends to another set.
pub mod Sources
pub mod Ordering
pub mod Joins
pub mod Held
pub mod Filtered
pub mod Ordered
pub mod Joined
pub mod JoinedSets
pub mod Groups
pub mod Select
pub mod Statement
use learndb_py.Prelude.{
  ℕ, zero, suc, ◌+◌, Bool, true, false, Option, none, some, List, [], ◌∷◌, if◌then◌else◌, Result,
  ok, err, Error, ◌>>=◌, ◌>>◌, ℤ, pos, ltb_ℤ,
}
use learndb_py.Bytes.Utf8.{Text}
use learndb_py.Datatypes.{FloatFormat, Value, bool}
use learndb_py.Values.{FloatOps}
use learndb_py.Syntax.{Symbol, OrderedColumn}
use learndb_py.Rows.{Schema, Row}
use learndb_py.Store.{
  Store, get_recordset_schema, get_grouped_recordset_schema, init_recordset, append_recordset,
  recordset_iter,
}
use learndb_py.Interp.{evaluate_over_record}
use learndb_py.Query.Sources.{source_schema, expect_bool}
use learndb_py.Query.Ordering.{quicksort}

module _ {R : Type 0} where
  -- `for record in records: self.append_recordset(rsname, record)`
  unfoldable pub append_all : Text → List (Row R) → Store R → Result (Store R)
  append_all rsname [] s = ok s
  append_all rsname (r ∷ rs) s = (append_recordset s rsname r) >>= append_all rsname rs

  -- The loop of `evaluate_limit_clause`.
  unfoldable pub append_limited : ℤ → Text → ℕ → List (Row R) → Store R → Result (Store R)
  append_limited limit rsname i [] s = ok s
  append_limited limit rsname i (r ∷ rs) s =
      let rest = (append_recordset s rsname r) >>= append_limited limit rsname (i + 1) rs in
      if ltb_ℤ (pos i) limit then rest else ok s

  -- `evaluate_limit_clause`, which reads no offset.
  unfoldable pub evaluate_limit_clause : Store R → ℤ → Text → Result (Text × Store R)
  unfolding source_schema append_limited
  evaluate_limit_clause s limit source = do
    schema ← source_schema s source
    (rsname, s') ← init_recordset s schema
    records ← recordset_iter s' source
    t ← append_limited limit rsname 0 records s'
    ok (rsname, t)

module _ (f : FloatFormat) (o : FloatOps f) where
  open f use {Real}

  -- The loop of `filter_recordset`.
  unfoldable pub filter_records :
      Symbol Real → Text → List (Row Real) → Store Real → Result (Store Real)
  unfolding expect_bool
  filter_records condition rsname [] s = ok s
  filter_records condition rsname (r ∷ rs) s = do
    v ← evaluate_over_record f o condition r
    b ← expect_bool v
    s' ← if b then append_recordset s rsname r else ok s
    filter_records condition rsname rs s'

  -- `filter_recordset`
  unfoldable pub filter_recordset : Store Real → Symbol Real → Text → Result (Text × Store Real)
  unfolding source_schema filter_records
  filter_recordset s condition source = do
    schema ← source_schema s source
    (rsname, s') ← init_recordset s schema
    records ← recordset_iter s' source
    t ← filter_records condition rsname records s'
    ok (rsname, t)

  -- `evaluate_order_by_clause`
  unfoldable pub evaluate_order_by_clause :
      Store Real → List OrderedColumn → Text → Result (Text × Store Real)
  unfolding source_schema append_all
  evaluate_order_by_clause s columns source = do
    schema ← source_schema s source
    (rsname, s') ← init_recordset s schema
    records ← recordset_iter s' source
    sorted ← quicksort f o columns records
    t ← append_all rsname sorted s'
    ok (rsname, t)
