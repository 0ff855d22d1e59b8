-- ===== src/Constants.antt =====
-- learndb/constants.py: the sizes of pages, words and the file.
pub mod FileHeader
pub mod FreePage
pub mod Node
pub mod InternalNode
pub mod LeafNode
pub mod FreeBlock
use learndb_py.Prelude.{ℕ}

abbrev pub page_size : ℕ
page_size = 4096

abbrev pub word : ℕ
word = 4

-- `NULLPTR`
abbrev pub null_ptr : ℕ
null_ptr = 0

abbrev pub table_max_pages : ℕ
table_max_pages = 100

-- `FILE_PAGE_AREA_OFFSET`, the size of the file header.
abbrev pub page_area_offset : ℕ
page_area_offset = 100
