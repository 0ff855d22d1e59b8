-- ===== src/Machine/Tables.antt =====
-- The record set that learndb/virtual_machine.py makes of a table.
use learndb_py.Prelude.{
  ℕ, zero, suc, ◌≤◌, ◌==◌, Bool, ◌≡◌, refl, ◌∙◌, subst, arith, true, false, not, ◌&&◌, Option, none,
  some, List, [], ◌∷◌, ◌++◌, append_assoc, append-nil, map, length, Result, ok,
}
use learndb_py.Bytes.Utf8.{Text}
use learndb_py.Bytes.Slices.{Bytes}
use learndb_py.Names.{text_eq, lower}
use learndb_py.Datatypes.{FloatFormat}
use learndb_py.Responses.{success}
use learndb_py.Schema.{SimpleSchema}
use learndb_py.Records.{SimpleRecord}
use learndb_py.Serde.{deserialize_cell}
use learndb_py.Rows.{Row}
use learndb_py.Pager.{Pager}
use learndb_py.Btree.Node.{node_leaf, get_node_type, is_node_root}
use learndb_py.Btree.Leaf.{leaf_node_num_cells}
use learndb_py.Btree.Search.Descent.{Page, get_page-there}
use learndb_py.Cursor.{Cursor, open_cursor, first_leaf, get_cell, advance}
use learndb_py.Cursor.Order.{Ordered, Entries, cells_of}
use learndb_py.Cursor.Traversal.{Visits, ended, at_cell, open_cursor-Visits}
use learndb_py.Store.{Store, has_schema, init_recordset, append_recordset}
use learndb_py.Store.Sets.{view, changed, init_recordset-view, append_recordset-view}
use learndb_py.Query.Select.{expect_success}
use learndb_py.Query.Held.{Holds, Holds-self, Holds-trans, same_Holds}
use learndb_py.Machine.{
  Machine, SingleSource, catalog, schema_of, tree_of, aliased_schema, aliased_row, read_table,
  materialize_table, materialize_single_source,
}

-- The tree of a table: its root is an empty leaf, or it is a tree of ordered nodes.
pub data Table (p : Pager) : ℕ → ℕ → List Bytes → Type 0 where
  empty :
      {h root : ℕ} {node : Bytes}
      → Page p root node
      → get_node_type node ≡ ok node_leaf
      → leaf_node_num_cells node ≡ 0
      → Table p (suc h) root []
  filled :
      {h root low max : ℕ} {node : Bytes} {es : Entries}
      → Ordered p h root node low max es
      → is_node_root node ≡ true
      → Table p h root (cells_of es)

open_empty :
    (p : Pager) (h root : ℕ) (node : Bytes)
    → Page p root node
    → get_node_type node ≡ ok node_leaf
    → leaf_node_num_cells node ≡ 0
    → open_cursor (suc h) p root
      ≡ ok (record { page_num = root; cell_num = 0; end_of_table = true }, p)
unfolding open_cursor first_leaf
open_empty p h root node page t e =
    let none_there : (leaf_node_num_cells node == 0) ≡ true = ground (arith, e) in
    rw (get_page-there p root node page) (rw t (rw none_there refl))

Table-Visits :
    (p : Pager) (h root : ℕ) (cells : List Bytes)
    → Table p h root cells
    → (c : Cursor) × (open_cursor h p root ≡ ok (c, p)) × Visits p h c cells
Table-Visits p (suc h) root [] (empty {node = node} page t e) = (
  record { page_num = root; cell_num = 0; end_of_table = true },
  open_empty p h root node page t e,
  ended refl,
)
Table-Visits p h root cells (filled {low = low} {max = max} {node = node} {es = es} t top) =
    open_cursor-Visits p h root low max node es t top

module _ (f : FloatFormat) where
  open f use {Real}

  -- The records that are read from cells.
  pub data Decoded (schema : SimpleSchema) : List Bytes → List (SimpleRecord Real) → Type 0 where
    no_cell : Decoded schema [] []
    decoded :
        {cell : Bytes} {r : SimpleRecord Real} {cells : List Bytes} {rs : List (SimpleRecord Real)}
        → deserialize_cell f cell schema ≡ ok (success r)
        → Decoded schema cells rs
        → Decoded schema (cell ∷ cells) (r ∷ rs)

  -- A run of the loop over the cells, which leaves the pager as it is.
  abbrev Reads : Result (Machine Real) → Pager → Store Real → Text → List (Row Real) → Type 0
  Reads m p s n out =
      (t : Store Real) × (m ≡ ok (record { pager = p; store = t })) × Holds s t n out

  module _ (p : Pager) (height : ℕ) (schema : SimpleSchema) (alias : Option Text) (n : Text) where
    read_end :
        (rounds : ℕ) (c : Cursor) (m : Machine Real)
        → c.end_of_table ≡ true
        → read_table f height rounds schema alias n c m ≡ ok m
    unfolding read_table
    read_end zero c m e = rw e refl
    read_end (suc rounds) c m e = rw e refl

    read_cell :
        (rounds page j : ℕ) (b : Bool) (cell : Bytes) (r : SimpleRecord Real) (s t : Store Real)
        (c' : Cursor)
        → b ≡ false
        → get_cell p (record { page_num = page; cell_num = j; end_of_table = b }) ≡ ok (cell, p)
        → deserialize_cell f cell schema ≡ ok (success r)
        → append_recordset s n (aliased_row schema alias r) ≡ ok t
        → advance height p (record { page_num = page; cell_num = j; end_of_table = b }) ≡ ok (c', p)
        → read_table f height
            (suc rounds)
            schema
            alias
            n
            (record { page_num = page; cell_num = j; end_of_table = b })
            (record { pager = p; store = s })
          ≡ read_table f height rounds schema alias n c' (record { pager = p; store = t })
    unfolding read_table expect_success
    read_cell rounds page j true cell r s t c' more g e a next = absurd (cc more)
    read_cell rounds page j false cell r s t c' more g e a next = rw (g, e, a, next) refl

    read_table-Reads :
        (rounds : ℕ) (c : Cursor) (cells : List Bytes) (rs : List (SimpleRecord Real))
        (acc : List (Row Real)) (s : Store Real)
        → Visits p height c cells
        → Decoded schema cells rs
        → length rs ≤ rounds
        → view s n ≡ some acc
        → Reads
            (read_table f height rounds schema alias n c (record { pager = p; store = s }))
            p
            s
            n
            (acc ++ map (aliased_row schema alias) rs)
    read_table-Reads rounds c [] [] acc s (ended e) no_cell k v = (
      s,
      read_end rounds c (record { pager = p; store = s }) e,
      rw append-nil (same_Holds s n acc v),
    )
    read_table-Reads rounds c [] (r ∷ rs) acc s vs ds k v = elim ds [ ]
    read_table-Reads zero c (cell ∷ cells) [] acc s vs ds k v = elim ds [ ]
    read_table-Reads (suc rounds) c (cell ∷ cells) [] acc s vs ds k v = elim ds [ ]
    read_table-Reads zero c (cell ∷ cells) (r ∷ rs) acc s vs ds k v = absurd (omega (arith, k))
    read_table-Reads (suc rounds) c (cell ∷ cells) (r ∷ rs) acc s (at_cell {c' = c'} more g next vs)
          (decoded e ds) k v =
        let row = aliased_row schema alias r in
        let (t, runs, reads) = append_recordset-view s n row acc v in
        let held : Holds s t n (acc ++ row ∷ []) = record { reads = reads } in
        let (u, runs', holds) =
          read_table-Reads rounds c' cells rs (acc ++ row ∷ []) t vs ds (omega (arith, k))
            (Holds-self held) in
        (
          u,
          read_cell rounds c.page_num c.cell_num c.end_of_table cell r s t c' more g e runs next
              ∙ runs',
          subst (Holds s u n) (append_assoc acc (row ∷ []) (map (aliased_row schema alias) rs))
              (Holds-trans held holds),
        )

  -- A table whose tree is ordered, or empty, and all of whose cells are records, is materialized: the new
  -- record set, under a name that no scope had, has the records in the order of the cells, behind the alias
  -- where the source has one. The pager stays as it is, and so does each other record set. The height of the
  -- tree and the number of its cells are enough fuel.
  pub materialize_single_source-Makes :
      (height rounds root : ℕ) (n : Text) (cells : List Bytes) (schema : SimpleSchema)
      (source : SingleSource) (m : Machine Real) (s : Store Real) (rs : List (SimpleRecord Real))
      → (not (text_eq (lower source.table_name) catalog)
          && not (has_schema m.store (lower source.table_name)))
        ≡ false
      → schema_of m.store (lower source.table_name) ≡ ok schema
      → tree_of m.store (lower source.table_name) ≡ ok root
      → init_recordset m.store (aliased_schema schema source.table_alias) ≡ ok (n, s)
      → Table m.pager height root cells
      → Decoded schema cells rs
      → length rs ≤ rounds
      → (t : Store Real) × (materialize_single_source f height rounds source m
          ≡ ok (some (n, record { pager = m.pager; store = t })))
        × (view m.store n ≡ none)
        × ((k : Text)
            → view t k
              ≡ changed (view m.store) n (some (map (aliased_row schema source.table_alias) rs)) k)
  unfolding materialize_single_source materialize_table
  materialize_single_source-Makes height rounds root n cells schema source m s rs known es et ei
        table d k =
      let (fresh, reads) =
        init_recordset-view m.store s (aliased_schema schema source.table_alias) n ei in
      let held : Holds m.store s n [] = record { reads = reads } in
      let (c, opens, visits) = Table-Visits m.pager height root cells table in
      let (t, runs, holds) =
        read_table-Reads m.pager height schema source.table_alias n rounds c cells rs [] s visits d
          k (Holds-self held) in
      (
        t,
        rw known (rw (es, et, ei) (rw opens (rw runs refl))),
        fresh,
        (Holds-trans held holds).reads,
      )
