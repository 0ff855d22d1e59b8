-- ===== src/Query/Sources.antt =====
-- learndb/virtual_machine.py: the schema of a record set that a clause reads, and the test of a condition.
use learndb_py.Prelude.{Bool, none, some, Result, ok, err, Error}
use learndb_py.Bytes.Utf8.{Text}
use learndb_py.Datatypes.{Value, bool}
use learndb_py.Rows.{Schema}
use learndb_py.Store.{Store, get_recordset_schema, get_grouped_recordset_schema}

-- `assert isinstance(value, bool)`
unfoldable pub expect_bool : {R : Type 0} → Value R → Result Bool
expect_bool (bool b) = ok b
expect_bool _ = err Error.assertion

module _ {R : Type 0} where
  -- `get_recordset_schema` for a record set whose records are read next: with a grouped set of that name,
  -- and with none, the reading raises.
  unfoldable pub source_schema : Store R → Text → Result Schema
  source_schema s name = elim (get_grouped_recordset_schema s name) [
    | some g ↦ err Error.assertion
    | none ↦ elim (get_recordset_schema s name) [
      | none ↦ err Error.assertion
      | some schema ↦ ok schema
    ]
  ]
