-- ===== src/Lib.antt =====
-- A model of learndb (learndb/), a relational database with a SQL front end, and its correctness.
--
-- The storage layer is modelled, from the values of a record down to the bytes of the database
-- file. A record (Records, of a schema from Schema) is serialized as a cell (Serde, with the
-- datatypes of Datatypes). A cell is kept in a leaf of a B-tree, whose nodes are pages (Btree). The
-- pages are kept, allocated and written to the file by the pager (Pager). Constants has the sizes
-- and the offsets that all of these share.
--
-- The files, and the code that they model:
--   Prelude    the names that the other files share: numbers, lists, and Result, a Python call
--              that returned or raised. An exception that leaves these functions ends the statement,
--              and what it leaves in mutated objects is not modelled.
--   Bytes      Python's bytes and bytearray, of learndb/datatypes.py, learndb/serde.py,
--              learndb/pager.py and learndb/btree.py: slices, slice assignment, int.to_bytes and
--              int.from_bytes, and the UTF-8 codec. sys.byteorder is read as "little".
--   Names      texts, their comparison and lower().
--   Dict       a Python dict as an association list.
--   Constants  learndb/constants.py.
--   Datatypes  learndb/datatypes.py: Value, DataType with the attributes of its classes, serialize,
--              deserialize, is_valid_term. The conversion of a float to four bytes and back
--              (struct.pack and struct.unpack) is the parameter FloatFormat.
--   Responses  Response of learndb/dataexchange.py.
--   Schema     learndb/schema.py: Column, SimpleSchema, validate_schema, generate_schema, and the
--              schema of the catalog. Schema/Valid has what passes validation.
--   Records    learndb/record_utils.py: SimpleRecord, create_record, validate_record and the other
--              constructors. Records/Checks has what passes validation.
--   Serde      learndb/serde.py: serialize_record, deserialize_cell, get_cell_key, get_cell_size.
--              The children are about the round trip, the key of a cell, and the end of reading.
--   Pager      learndb/pager.py. Pager is the state: the cache, the file, the returned pages and the
--              list of free pages; Pager/File opens and closes it. Flush, Persist and Head say what
--              close leaves in the file, Opening and Reopen what is read from it again, Owners and
--              Alloc who owns the pages.
--   Btree      learndb/btree.py, the nodes as bytes: Words, Node, Internal and Leaf have the getters
--              and setters, Shape says where the cells of a leaf are, Initial has new nodes,
--              Insertion the insertion of a cell into a leaf whose allocation block has room,
--              Deletion the deletion from a leaf that is not compacted, Pairs the writes of the
--              children of an internal node, Search the searches in a node and from the root down.
--   Values     Python's operators on the values of expressions. The arithmetic of floats is the
--              parameter FloatOps.
--   Syntax     learndb/lang_parser/symbols.py: the symbols of expressions.
--   Functions  learndb/functions.py.
--   Rows       the scoped and grouped schemas and records of learndb/schema.py and
--              learndb/record_utils.py.
--   Interp     learndb/expression_interpreter.py, learndb/name_registry.py and learndb/vm_utils.py.
--   Analysis   learndb/semantic_analysis.py. Its children are about the types of values.
--   Store      learndb/statemanager.py: scopes and record sets. Sets sees them as a function.
--   Query      learndb/virtual_machine.py: the clauses of a select statement over record sets.
--              Ordering has quicksort, Joins the joins, Groups the group by and having clauses, Select the
--              select clause, and Statement the statement from its materialized source on. Joined and
--              JoinedSets say what the joins make, Filtered and Ordered what the other clauses do.
--   Cursor     learndb/cursor.py. Order says which trees it runs over, Traversal how,
--              Increase in which order, and Lookup what the search finds in them.
--   Machine    learndb/virtual_machine.py: the materialization of a source, and the select statement.
--              Tables says what is made of a table.
--   Tests      concrete runs, and the theorems at concrete inputs.
--
-- The rows of a table come from a cursor (Cursor) over the cells of its tree, which the machine
-- (Machine) deserializes into a record set. A select statement runs over record sets, which the
-- store keeps in scopes. Each clause (Query) reads a record set, evaluates expressions on its
-- records (Interp), and appends to a new one (Store). The analysis finds the types of the
-- expressions (Analysis).
--
-- State is passed explicitly. A function of the source that changes a bytearray in place returns
-- the new bytes here, and its caller puts a page back with set_page where the source changes the
-- cached page itself. Numbers are natural numbers; a difference that can be negative in the source
-- is an integer or is tested before it is taken.
--
-- Loops. The loop of deserialize_cell runs on fuel, the length of its header, which is enough: each
-- round reads four bytes of it at least. The loops of the binary searches run on the length of
-- their interval, which is enough since each round makes it shorter. The loops of the pager run over
-- a list or over the number of pages. find and get_node_max_key run on the height of the tree below
-- their page, which is enough on a tree whose pages are in the cache. So do the ways of the cursor
-- down to a leaf and up from one. The loop over the cells of a table runs on their number.
--
-- The draws of random names are a list in the store; where it is used up, the loop that draws is stuck.
-- quicksort runs on the number of the records and one more, which is enough since the parts beside the
-- pivot are shorter. The search for descendents runs on the size of a symbol.
--
-- Not modelled: the split and the compaction of nodes and what they change in the parents
-- (leaf_node_split_and_insert, leaf_node_compact_and_delete and the operations on internal nodes in
-- learndb/btree.py), and in the virtual machine the statements other than select. The grammar is
-- text for a third-party parser, and the command line is input and output.
pub mod Prelude
pub mod Bytes
pub mod Names
pub mod Dict
pub mod Datatypes
pub mod Responses
pub mod Schema
pub mod Records
pub mod Constants
pub mod Pager
pub mod Serde
pub mod Btree
pub mod Values
pub mod Syntax
pub mod Functions
pub mod Rows
pub mod Interp
pub mod Analysis
pub mod Store
pub mod Cursor
pub mod Machine
pub mod Query
mod Tests
