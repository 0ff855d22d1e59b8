-- ===== src/Pager.antt =====
-- learndb/pager.py: the cache of pages, their allocation, and the file that they are kept in.
pub mod File
pub mod Disk
pub mod Counts
pub mod Flush
pub mod Persist
pub mod Head
pub mod Opening
pub mod Reopen
pub mod Owners
pub mod Alloc
use learndb_py.Prelude.{
  ℕ, zero, suc, ◌+◌, ◌-◌, ◌*◌, ◌/◌, ◌%◌, Bool, true, false, not, ◌&&◌, Option, none, some, List, [],
  ◌∷◌, ◌++◌, length, take, drop, replicate, ◌==◌, ltb, leb, if◌then◌else◌, Result, Error, ok, err,
  assert, ◌>>=◌, ◌>>◌, invalid_page_access, lock_unavailable, exited,
}
use mathlib.Core.List.{reverse}
use learndb_py.Bytes.Slices.{Bytes, slice, splice}
use learndb_py.Bytes.Numbers.{to_bytes, from_bytes}
use learndb_py.Constants.{page_size, word, null_ptr, page_area_offset, table_max_pages}
use learndb_py.Constants.FileHeader
use learndb_py.Constants.FreePage

-- `file` is the content of the database file. `pages` is None where a page was not read yet.
pub record Pager : Type 0 where
  pub header : Bytes
  pub pages : ℕ → Option Bytes
  pub file : Bytes
  pub file_length : ℕ
  pub num_pages : ℕ
  pub num_pages_on_disk : ℕ
  pub next_allocatable_page_num : ℕ
  pub returned_pages : List ℕ
  pub has_free_page_list : Bool
  pub free_page_list_head : ℕ

-- `seek` and `read`, `seek` and `write`, and `truncate` of the file object. A write behind the end fills
-- the gap with zeros.
unfoldable pub read_file : Bytes → ℕ → ℕ → Bytes
read_file file offset n = slice file offset (offset + n)

unfoldable pub write_file : Bytes → ℕ → Bytes → Bytes
write_file file offset b =
    splice (file ++ replicate (offset - length file) 0) offset (offset + length b) b

unfoldable pub truncate : Bytes → ℕ → Bytes
truncate file n = take n (file ++ replicate (n - length file) 0)

unfoldable pub zeros : ℕ → Bytes
zeros n = replicate n 0

-- `bool.from_bytes`
unfoldable pub bool_from_bytes : Bytes → Bool
bool_from_bytes b = not (from_bytes b == 0)

abbrev pub bool_number : Bool → ℕ
bool_number false = 0
bool_number true = 1

-- The cell of the cache for page `n` holds `page` from now on.
unfoldable pub cached : (ℕ → Option Bytes) → ℕ → Bytes → ℕ → Option Bytes
cached pages n page m = if n == m then some page else pages m

unfoldable pub page_exists : Pager → ℕ → Bool
page_exists p n = ltb n p.num_pages

-- What a cache miss reads: the page of the file, or a blank page behind its end.
unfoldable pub load_page : Pager → ℕ → Result Bytes
load_page p n =
    if ltb n p.num_pages
    then (do
      let b = read_file p.file (page_area_offset + n * page_size) page_size
      assert (length b == page_size)
      ok b)
    else ok (zeros page_size)

-- The state after a cache miss.
unfoldable pub keep_page : Pager → ℕ → Bytes → Pager
keep_page p n page =
    let num_pages = (if leb p.num_pages n then n + 1 else p.num_pages) in
    record p {
      pages = cached p.pages n page;
      num_pages = num_pages;
      next_allocatable_page_num =
          if ltb p.next_allocatable_page_num num_pages
          then num_pages
          else p.next_allocatable_page_num;
    }

abbrev pub miss : Pager → ℕ → Option Bytes → Result (Bytes × Pager)
miss p n (some page) = ok (page, p)
miss p n none = do page ← load_page p n; ok (page, keep_page p n page)

-- `get_page`. A caller that changes the page writes it back with `set_page`, since the source's callers
-- change the cached bytearray itself.
unfoldable pub get_page : Pager → ℕ → Result (Bytes × Pager)
get_page p n = if leb table_max_pages n then err invalid_page_access else miss p n (p.pages n)

unfoldable pub set_page : Pager → ℕ → Bytes → Pager
set_page p n page = record p { pages = cached p.pages n page }

-- `list.pop()`
unfoldable pub pop_last : List ℕ → Option (List ℕ × ℕ)
pop_last [] = none
pop_last (n ∷ ns) = elim (pop_last ns) [ none ↦ some ([], n) | some (r, m) ↦ some (n ∷ r, m) ]

-- `get_free_page_next`
unfoldable pub get_free_page_next : Bytes → Bool × ℕ
get_free_page_next page =
    let has_next =
      bool_from_bytes (slice page FreePage.has_next_offset (FreePage.has_next_offset + word)) in
    (
      has_next,
      if has_next
          then from_bytes (slice page FreePage.next_offset (FreePage.next_offset + word))
          else 0,
    )

-- `set_free_page_next`: the flag's slice is written from its own offset to an end that is counted from
-- the offset of the next pointer.
unfoldable pub set_free_page_next : Bytes → ℕ → Result Bytes
set_free_page_next page next = do
  flag ← to_bytes word (bool_number true)
  let page' = splice page FreePage.has_next_offset (FreePage.next_offset + word) flag
  ptr ← to_bytes word next
  ok (splice page' FreePage.next_offset (FreePage.next_offset + word) ptr)

-- `set_free_page_next_null`
unfoldable pub set_free_page_next_null : Bytes → Result Bytes
set_free_page_next_null page = do
  flag ← to_bytes word (bool_number false)
  let page' = splice page FreePage.has_next_offset (FreePage.next_offset + word) flag
  ptr ← to_bytes word null_ptr
  ok (splice page' FreePage.next_offset (FreePage.next_offset + word) ptr)

-- The two sources of a page number behind the returned pages: the list on disk, and the end of the file.
unfoldable pub unused_from_disk : Pager → Result (ℕ × Pager)
unused_from_disk p = do
  (page, p') ← get_page p p.free_page_list_head
  let (has_next, next) = get_free_page_next page
  ok (
    p.free_page_list_head,
    if has_next
        then record p' { free_page_list_head = next; has_free_page_list = true }
        else record p' { has_free_page_list = false },
  )

unfoldable pub unused_at_end : Pager → ℕ × Pager
unused_at_end p = (
  p.next_allocatable_page_num,
  record p { next_allocatable_page_num = p.next_allocatable_page_num + 1 },
)

-- `get_unused_page_num`
unfoldable pub get_unused_page_num : Pager → Result (ℕ × Pager)
get_unused_page_num p = elim (pop_last p.returned_pages) [
  | some (rest, n) ↦ ok (n, record p { returned_pages = rest })
  | none ↦ if p.has_free_page_list then unused_from_disk p else ok (unused_at_end p)
]

-- `return_page`
unfoldable pub return_page : Pager → ℕ → Pager
return_page p n = record p { returned_pages = p.returned_pages ++ n ∷ [] }
