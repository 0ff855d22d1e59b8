-- ===== src/Constants/FileHeader.antt =====
-- The layout of the file header in learndb/constants.py.
use learndb_py.Prelude.{ℕ, [], ◌∷◌}
use learndb_py.Bytes.Slices.{Bytes}

abbrev pub size : ℕ
size = 100

abbrev pub version_offset : ℕ
version_offset = 0

abbrev pub version_size : ℕ
version_size = 16

-- b"learndb v1"
abbrev pub version_value : Bytes
version_value = 108 ∷ 101 ∷ 97 ∷ 114 ∷ 110 ∷ 100 ∷ 98 ∷ 32 ∷ 118 ∷ 49 ∷ []

abbrev pub next_free_page_offset : ℕ
next_free_page_offset = 16

abbrev pub has_free_list_offset : ℕ
has_free_list_offset = 20
