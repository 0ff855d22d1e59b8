-- ===== src/Constants/FreePage.antt =====
-- The layout of a free page in learndb/constants.py: both of its fields are at offset 0.
use learndb_py.Prelude.{ℕ}

abbrev pub has_next_offset : ℕ
has_next_offset = 0

abbrev pub next_offset : ℕ
next_offset = 0
