-- ===== src/Pager/File.antt =====
-- learndb/pager.py: the file header, and the opening and closing of the database file.
use learndb_py.Prelude.{
  ℕ, zero, suc, ◌+◌, ◌-◌, ◌*◌, ◌/◌, ◌%◌, Bool, true, false, not, ◌&&◌, Option, none, some, List, [],
  ◌∷◌, length, ◌==◌, leb, if◌then◌else◌, Result, ok, err, assert, ◌>>=◌, ◌>>◌, lock_unavailable,
  exited,
}
use mathlib.Core.List.{reverse}
use learndb_py.Bytes.Slices.{Bytes, slice, splice}
use learndb_py.Bytes.Numbers.{to_bytes, from_bytes}
use learndb_py.Constants.{page_size, word, null_ptr, page_area_offset}
use learndb_py.Constants.FileHeader
use learndb_py.Pager.{
  Pager, read_file, write_file, truncate, zeros, bool_from_bytes, bool_number, get_page, set_page,
  set_free_page_next, set_free_page_next_null,
}

-- `create_file_header`. The version is shorter than its field, and the flag is written with
-- FILE_HEADER_HAS_FREE_PAGE_LIST_OFFSET bytes.
unfoldable pub create_file_header : Result Bytes
create_file_header = do
  let header = zeros FileHeader.size
  assert (leb (length FileHeader.version_value) FileHeader.version_size)
  let header₁ =
      splice header FileHeader.version_offset (FileHeader.version_offset + FileHeader.version_size)
        FileHeader.version_value
  head ← to_bytes word null_ptr
  let header₂ =
      splice header₁ FileHeader.next_free_page_offset (FileHeader.next_free_page_offset + word) head
  flag ← to_bytes FileHeader.has_free_list_offset (bool_number false)
  ok (splice header₂ FileHeader.has_free_list_offset (FileHeader.has_free_list_offset + word) flag)

-- `read_file_header`: the header, whether there is a free list, and its head.
unfoldable pub read_file_header : Bytes → Bytes × Bool × ℕ
read_file_header file =
    let header = read_file file 0 FileHeader.size in
    (
      header,
      bool_from_bytes
          (slice header FileHeader.has_free_list_offset (FileHeader.has_free_list_offset + word)),
      from_bytes
          (slice header FileHeader.next_free_page_offset (FileHeader.next_free_page_offset + word)),
    )

-- `set_free_page_head`
unfoldable pub set_free_page_head : Bytes → ℕ → Result Bytes
set_free_page_head header next = do
  flag ← to_bytes word (bool_number true)
  let header' =
      splice header FileHeader.has_free_list_offset (FileHeader.has_free_list_offset + word) flag
  head ← to_bytes word next
  ok (
      splice header' FileHeader.next_free_page_offset (FileHeader.next_free_page_offset + word)
        head)

-- `flush_header`
unfoldable pub flush_header : Pager → Pager
flush_header p = record p { file = write_file p.file 0 p.header }

-- `flush_page`, which exits where the page was not read.
unfoldable pub flush_page : Pager → ℕ → Result Pager
flush_page p n = elim (p.pages n) [
  | none ↦ err exited
  | some page ↦ ok (record p { file = write_file p.file (page_area_offset + n * page_size) page })
]

-- `list.sort()`
unfoldable pub insert : ℕ → List ℕ → List ℕ
insert n [] = n ∷ []
insert n (m ∷ ms) = let rest = insert n ms in if leb n m then n ∷ m ∷ ms else m ∷ rest

unfoldable pub sort : List ℕ → List ℕ
sort [] = []
sort (n ∷ ns) = insert n (sort ns)

-- The loop of `truncate_file` over the returned pages from the last one down. It stops at page 0, which
-- is false as a condition.
unfoldable pub truncate_loop : List ℕ → Pager → Result Pager
truncate_loop [] p = ok (record p { returned_pages = [] })
truncate_loop (n ∷ ns) p =
    let stop = record p { returned_pages = reverse (n ∷ ns) } in
    let more = (do
      assert (leb page_size p.file_length)
      let file_length = p.file_length - page_size
      truncate_loop ns (record p {
        file_length = file_length;
        file = truncate p.file file_length;
        num_pages = p.num_pages - 1;
        num_pages_on_disk = p.num_pages_on_disk - 1;
      })) in
    if n == 0
    then ok stop
    else if (n + 1 == p.num_pages) && (n + 1 == p.num_pages_on_disk)
    then more
    else ok stop

abbrev pub is_empty : List ℕ → Bool
is_empty [] = true
is_empty (n ∷ ns) = false

-- `truncate_file`
unfoldable pub truncate_file : Pager → Result Pager
truncate_file p =
    if is_empty p.returned_pages
    then ok p
    else if p.file_length == 0
    then ok p
    else truncate_loop (reverse (sort p.returned_pages)) p

-- One round of the loop of `close` that links a returned page into the list on disk.
unfoldable pub link_page : Pager → ℕ → Bool → ℕ → Result Pager
link_page p n head_is_defined head = do
  (page, p') ← get_page p n
  page' ← if head_is_defined then set_free_page_next page head else set_free_page_next_null page
  flush_page (set_page p' n page') n

-- The loop, over the returned pages from the last one down; with the pager comes the list's head.
unfoldable pub link_pages : List ℕ → Pager → Bool → ℕ → Result (Pager × ℕ)
link_pages [] p defined head = ok (record p { returned_pages = [] }, head)
link_pages (n ∷ ns) p defined head = do p' ← link_page p n defined head; link_pages ns p' true n

-- The loop of `close` over `range(self.num_pages)`, with the number of rounds left.
unfoldable pub flush_pages : ℕ → ℕ → Pager → Result Pager
flush_pages zero n p = ok p
flush_pages (suc left) n p = elim (p.pages n) [
  | none ↦ flush_pages left (n + 1) p
  | some page ↦ flush_page p n >>= (λ p'. flush_pages left (n + 1) p')
]

-- `close`, and the file that it leaves.
unfoldable pub close : Pager → Result Pager
close p = do
  p₁ ← truncate_file p
  (p₂, head) ←
      link_pages (reverse p₁.returned_pages) p₁ p₁.has_free_page_list p₁.free_page_list_head
  header ← set_free_page_head p₂.header head
  let p₃ = flush_header (record p₂ { header = header })
  flush_pages p₃.num_pages 0 p₃

-- The loop of `init` that warms the cache up.
unfoldable pub warm_up : ℕ → ℕ → Pager → Result Pager
warm_up zero n p = ok p
warm_up (suc left) n p = get_page p n >>= (λ r. warm_up left (n + 1) r.1)

unfoldable pub open_header : Option Bytes → Result (Bytes × Bool × ℕ)
open_header none = do header ← create_file_header; ok (header, false, null_ptr)
open_header (some file) = ok (read_file_header file)

abbrev pub content : Option Bytes → Bytes
content none = []
content (some file) = file

-- `Pager(filename)`: None is a file that does not exist. `locked` tells that another program holds the
-- lock on it.
unfoldable pub init : Option Bytes → Bool → Result Pager
init existing locked = do
  (header, has_free, head) ← open_header existing
  let file = content existing
  let file_length = length file
  if locked then err lock_unavailable else ok tt
  if not (file_length % page_size == 0)
        && not ((file_length + page_size - FileHeader.size) % page_size == 0)
      then err exited
      else ok tt
  let num_pages = if file_length == 0 then 0 else (file_length - FileHeader.size) / page_size
  warm_up num_pages 0 (record {
    header = header;
    pages = λ n. none;
    file = file;
    file_length = file_length;
    num_pages = num_pages;
    num_pages_on_disk = num_pages;
    next_allocatable_page_num = num_pages;
    returned_pages = [];
    has_free_page_list = has_free;
    free_page_list_head = head;
  })
