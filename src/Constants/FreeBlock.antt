-- ===== src/Constants/FreeBlock.antt =====
-- The layout of a free block of a leaf node in learndb/constants.py.
use learndb_py.Prelude.{ℕ}

abbrev pub size_offset : ℕ
size_offset = 0

abbrev pub next_block_offset : ℕ
next_block_offset = 4
