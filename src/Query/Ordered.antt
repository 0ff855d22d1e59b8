-- ===== src/Query/Ordered.antt =====
-- The order by clause of learndb/virtual_machine.py, from the record set it reads to the one it makes.
use mathlib.Core.List.{Perm}
use learndb_py.Prelude.{◌≡◌, List, ok, some, All}
use learndb_py.Bytes.Utf8.{Text}
use learndb_py.Datatypes.{FloatFormat}
use learndb_py.Values.{FloatOps}
use learndb_py.Syntax.{OrderedColumn}
use learndb_py.Rows.{Schema, Row}
use learndb_py.Store.{Store, init_recordset}
use learndb_py.Store.Sets.{view}
use learndb_py.Query.Sources.{source_schema}
use learndb_py.Query.{evaluate_order_by_clause}
use learndb_py.Query.Held.{Makes}
use learndb_py.Query.Filtered.{evaluate_order_by_clause-view}
use learndb_py.Query.Ordering.Parts.{Ascending, IsUniform}
use learndb_py.Query.Ordering.Sorted.{quicksort-Ascending}

module _ (f : FloatFormat) (o : FloatOps f) where
  open f use {Real}

  -- An order by clause over a record set whose values in each ordering column are all ints or all texts makes
  -- a new record set, under a name that no scope had: the records of its source in another order, in which
  -- no record stands before one that the clause puts first. No other record set changes.
  pub evaluate_order_by_clause-Ascending :
      (s s' : Store Real) (source n : Text) (schema : Schema) (rs : List (Row Real))
      (cs : List OrderedColumn)
      → source_schema s source ≡ ok schema
      → init_recordset s schema ≡ ok (n, s')
      → view s source ≡ some rs
      → All (IsUniform rs) cs
      → (out : List (Row Real)) × Perm out rs
        × Ascending cs out
        × Makes s n out (evaluate_order_by_clause f o s cs source)
  evaluate_order_by_clause-Ascending s s' source n schema rs cs hs hi hv h =
      let (out, runs, perm, sorted) = quicksort-Ascending f o cs rs h in
      (
        out,
        perm,
        sorted,
        evaluate_order_by_clause-view f o s source n schema s' rs hs hi hv cs out runs,
      )
