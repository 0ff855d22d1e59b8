-- ===== src/Btree.antt =====
-- learndb/btree.py: the nodes of the tree as pages, their fields, and the search, the insertion and the
-- deletion in them.
pub mod Words
pub mod Node
pub mod Internal
pub mod Leaf
pub mod Pairs
pub mod Shape
pub mod Insertion
pub mod Initial
pub mod Search
pub mod Deletion
