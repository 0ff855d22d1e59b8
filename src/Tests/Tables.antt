-- ===== src/Tests/Tables.antt =====
-- The materialization of a table at a concrete input.
use learndb_py.Prelude.{
  ◌<◌, ◌≤◌, ◌++◌, Option, zero, suc, ℕ, ◌≡◌, refl, true, false, not, ◌&&◌, some, none, List, [],
  ◌∷◌, map, ok, pos, arith, take, drop, get_elem?,
}
use learndb_py.Bytes.Slices.{Bytes, slice}
use learndb_py.Bytes.Numbers.{from_bytes}
use learndb_py.Bytes.Utf8.{Text}
use learndb_py.Names.{text, lower, text_eq}
use learndb_py.Dict
use learndb_py.Datatypes.{int, null}
use learndb_py.Responses.{success}
use learndb_py.Schema.{primary_keys}
use learndb_py.Records.{SimpleRecord}
use learndb_py.Pager.{Pager}
use learndb_py.Serde.{
  deserialize_cell, get_cell_size, get_cell_key_in_page, column_at, read_columns, add_missing,
}
use learndb_py.Btree.Words.{get_word}
use learndb_py.Btree.Node.{
  is_node_root, get_node_type, node_type, node_leaf, node_internal, get_parent_page_num,
}
use learndb_py.Btree.Internal.{
  internal_node_has_right_child, internal_node_num_keys, internal_node_key,
  internal_node_key_offset, internal_node_child, internal_node_child_offset,
  internal_node_cell_offset, internal_node_right_child,
}
use learndb_py.Btree.Search.Position.{cell_key}
use learndb_py.Btree.Search.Descent.{LeafPage, InternalPage}
use learndb_py.Cursor.{Cursor, open_cursor}
use learndb_py.Btree.Search.{find}
use learndb_py.Cursor.Lookup.{Found, find-Found}
use learndb_py.Cursor.Order.{
  Entries, cells_of, low_at, Ordered, Child, leaf, internal, child, no_child,
}
use learndb_py.Cursor.Traversal.{Visits}
use learndb_py.Cursor.Increase.{Rising, open_cursor-Rising}
use learndb_py.Btree.Leaf.{
  leaf_node_cell, leaf_node_num_cells, leaf_node_cellptr, leaf_node_cell_ptr_offset,
  leaf_node_cell_offset,
}
use learndb_py.Store.{Store, Scope, new_scope, has_schema, get_schema, get_tree, init_recordset}
use learndb_py.Store.Sets.{view, changed}
use learndb_py.Machine.{
  Machine, SingleSource, catalog, schema_of, tree_of, aliased_schema, aliased_row,
  materialize_single_source,
}
use learndb_py.Machine.Tables.{filled, Decoded, no_cell, decoded, materialize_single_source-Makes}
use learndb_py.Tests.Floats.{digit_floats}
use learndb_py.Tests.Queries.{people}

abbrev cell_of : ℕ → Bytes
cell_of i = 4 ∷ 0 ∷ 0 ∷ 0 ∷ 4 ∷ 0 ∷ 0 ∷ 0 ∷ i ∷ 0 ∷ 0 ∷ 0 ∷ 4 ∷ 0 ∷ 0 ∷ 0 ∷ []

-- The root, on page 1, has the leaf with the key 7 on page 2, and that with the key 9 on page 3.
abbrev root_node : Bytes
root_node =
    (1 ∷ 0 ∷ 0 ∷ 0 ∷ 1 ∷ 0 ∷ 0 ∷ 0 ∷ 1 ∷ 0 ∷ 0 ∷ 0 ∷ [])
    ++ ((1 ∷ 0 ∷ 0 ∷ 0 ∷ 3 ∷ 0 ∷ 0 ∷ 0 ∷ 1 ∷ 0 ∷ 0 ∷ 0 ∷ [])
        ++ (2 ∷ 0 ∷ 0 ∷ 0 ∷ 7 ∷ 0 ∷ 0 ∷ 0 ∷ []))

abbrev leaf_node : ℕ → Bytes
leaf_node i =
    (2 ∷ 0 ∷ 0 ∷ 0 ∷ 0 ∷ 0 ∷ 0 ∷ 0 ∷ 1 ∷ 0 ∷ 0 ∷ 0 ∷ 1 ∷ 0 ∷ 0 ∷ 0 ∷ [])
    ++ ((32 ∷ 0 ∷ 0 ∷ 0 ∷ 0 ∷ 0 ∷ 0 ∷ 0 ∷ 0 ∷ 0 ∷ 0 ∷ 0 ∷ 32 ∷ 0 ∷ 0 ∷ 0 ∷ []) ++ cell_of i)

abbrev pages : ℕ → Option Bytes
pages (suc zero) = some root_node
pages (suc (suc zero)) = some (leaf_node 7)
pages (suc (suc (suc zero))) = some (leaf_node 9)
pages n = none

abbrev pager : Pager
pager = record {
  header = [];
  pages = pages;
  file = [];
  file_length = 0;
  num_pages = 4;
  num_pages_on_disk = 0;
  next_allocatable_page_num = 4;
  returned_pages = [];
  has_free_page_list = false;
  free_page_list_head = 0;
}

leaf_fields :
    (i : ℕ)
    → (get_node_type (leaf_node i) ≡ ok node_leaf)
      × (leaf_node_num_cells (leaf_node i) ≡ 1)
      × (leaf_node_cell (leaf_node i) 0 ≡ cell_of i)
unfolding get_node_type node_type leaf_node_num_cells leaf_node_cell leaf_node_cellptr
    leaf_node_cell_ptr_offset get_cell_size get_word slice take drop from_bytes
leaf_fields i = (refl, refl, refl)

leaf_links : (i : ℕ) → Child (leaf_node i) 1
unfolding is_node_root get_parent_page_num get_word slice take drop from_bytes
leaf_links i = record { inner = refl; parent_page = refl }

leaf_keys : (cell_key (leaf_node 7) 0 ≡ 7) × (cell_key (leaf_node 9) 0 ≡ 9)
unfolding leaf_node_cell_offset leaf_node_cellptr leaf_node_cell_ptr_offset get_cell_key_in_page
    get_word slice take drop from_bytes
leaf_keys = (refl, refl)

leaf_page : (n i : ℕ) → n < 100 → pages n ≡ some (leaf_node i) → LeafPage pager n (leaf_node i)
leaf_page n i few there = record {
  page = record { few = few; there = there };
  type = (leaf_fields i).0;
  increasing = λ a b p q. absurd (omega (arith, (leaf_fields i).1));
}

abbrev entry : ℕ → ℕ × Bytes
entry i = (cell_key (leaf_node i) 0, leaf_node_cell (leaf_node i) 0)

leaf_tree :
    (n i low : ℕ)
    → n < 100
    → pages n ≡ some (leaf_node i)
    → low ≤ cell_key (leaf_node i) 0
    → Ordered pager 1 n (leaf_node i) low (cell_key (leaf_node i) 0) (entry i ∷ [])
leaf_tree n i low few there b = leaf (leaf_page n i few there) ((leaf_fields i).1) b

root_fields :
    (get_node_type root_node ≡ ok node_internal)
    × (internal_node_has_right_child root_node ≡ true)
    × (is_node_root root_node ≡ true)
    × (internal_node_num_keys root_node ≡ 1)
    × (internal_node_key root_node 0 ≡ 7)
    × (internal_node_child root_node 0 ≡ 2)
    × (internal_node_right_child root_node ≡ 3)
unfolding get_node_type node_type internal_node_has_right_child is_node_root internal_node_num_keys
    internal_node_key internal_node_key_offset internal_node_child internal_node_child_offset
    internal_node_cell_offset internal_node_right_child get_word slice take drop from_bytes
root_fields = (refl, refl, refl, refl, refl, refl, refl)

root_page : InternalPage pager 1 root_node
root_page = record {
  page = record { few = omega arith; there = refl };
  type = root_fields.0;
  right = root_fields.1;
  increasing = λ a b p q. absurd (omega (arith, root_fields.3));
}

abbrev entries : Entries
entries = entry 7 ∷ entry 9 ∷ []

root_low : low_at root_node 0 (internal_node_num_keys root_node) ≤ cell_key (leaf_node 9) 0
root_low = rw (root_fields.3) (omega (arith, root_fields.4, leaf_keys.1))

root_tree : Ordered pager 2 1 root_node 0 (cell_key (leaf_node 9) 0) entries
root_tree =
    internal {right_es = entry 9 ∷ []} root_page (omega (arith, root_fields.3))
      (child {key = cell_key (leaf_node 7) 0} {below = leaf_node 7} {es = entry 7 ∷ []}
        (omega (arith, root_fields.3)) (leaf_links 7)
        (rw (root_fields.5) (leaf_tree 2 7 0 (omega arith) refl (omega arith)))
        (omega (arith, root_fields.4, leaf_keys.0)) (omega (arith, leaf_keys.0, leaf_keys.1))
        (no_child (root_fields.3)))
      (leaf_links 9) (rw (root_fields.6) (leaf_tree 3 9 _ (omega arith) refl root_low))

open_cursor-Rising_example :
    (c : Cursor) × (open_cursor 2 pager 1 ≡ ok (c, pager))
    × Visits pager 2 c (cells_of entries)
    × Rising 0 entries
open_cursor-Rising_example =
    open_cursor-Rising pager 2 1 0 (cell_key (leaf_node 9) 0) root_node entries root_tree
      (root_fields.2)

find-Found_example :
    (page : ℕ) × (c : ℕ) × (find 2 pager 9 1 ≡ ok ((page, c), pager)) × Found pager entries 9 page c
find-Found_example = find-Found pager 2 root_node 1 0 (cell_key (leaf_node 9) 0) 9 entries root_tree

-- The table tasks has its root on page 1.
abbrev store_of : Scope ℕ → List Text → Store ℕ
store_of c draws = record {
  schemas = (text "tasks", people) ∷ [];
  trees = (text "tasks", 1) ∷ [];
  scopes = c ∷ [];
  draws = draws;
}

abbrev machine : Machine ℕ
machine = record { pager = pager; store = store_of new_scope (text "C" ∷ []) }

abbrev tasks : SingleSource
tasks = record { table_name = text "Tasks"; table_alias = some (text "t") }

abbrev begun : Store ℕ
begun =
    store_of
      (record new_scope {
        record_sets = (text "rC", []) ∷ [];
        rsets_schemas = (text "rC", aliased_schema people (some (text "t"))) ∷ [];
      })
      []

abbrev person : ℕ → SimpleRecord ℕ
person i = record { values = (text "id", int (pos i)) ∷ (text "name", null) ∷ []; schema = people }

known :
    (not (text_eq (lower tasks.table_name) catalog)
      && not (has_schema machine.store (lower tasks.table_name)))
    ≡ false
unfolding lower text_eq has_schema Dict.contains
known = refl

schema_found : schema_of machine.store (lower tasks.table_name) ≡ ok people
unfolding schema_of get_schema lower text_eq Dict.get
schema_found = refl

tree_found : tree_of machine.store (lower tasks.table_name) ≡ ok 1
unfolding tree_of get_tree lower text_eq Dict.get
tree_found = refl

set_begun :
    init_recordset machine.store (aliased_schema people tasks.table_alias) ≡ ok (text "rC", begun)
unfolding init_recordset text_eq Dict.get Dict.set
set_begun = refl

read_7 : deserialize_cell digit_floats (cell_of 7) people ≡ ok (success (person 7))
unfolding deserialize_cell slice take drop from_bytes people Dict.set Dict.contains text_eq
    primary_keys lower column_at get_elem? read_columns add_missing
read_7 = refl

read_9 : deserialize_cell digit_floats (cell_of 9) people ≡ ok (success (person 9))
unfolding deserialize_cell slice take drop from_bytes people Dict.set Dict.contains text_eq
    primary_keys lower column_at get_elem? read_columns add_missing
read_9 = refl

records : Decoded digit_floats people (cells_of entries) (person 7 ∷ person 9 ∷ [])
unfolding cells_of
records = decoded (rw ((leaf_fields 7).2) read_7) (decoded (rw ((leaf_fields 9).2) read_9) no_cell)

materialize_single_source-Makes_example :
    (t : Store ℕ) × (materialize_single_source digit_floats 2 5 tasks machine
      ≡ ok (some (text "rC", record { pager = pager; store = t })))
    × (view machine.store (text "rC") ≡ none)
    × ((k : Text)
        → view t k
          ≡ changed
              (view machine.store)
              (text "rC")
              (some (map (aliased_row people (some (text "t"))) (person 7 ∷ person 9 ∷ [])))
              k)
materialize_single_source-Makes_example =
    materialize_single_source-Makes digit_floats 2 5 1 (text "rC") (cells_of entries) people tasks
      machine begun (person 7 ∷ person 9 ∷ []) known schema_found tree_found set_begun
      (filled root_tree (root_fields.2)) records (omega arith)
