-- ===== src/Pager/Reopen.antt =====
-- learndb/pager.py: a pager that is closed, and the pager that is opened on its file.
use learndb_py.Prelude.{
  ℕ, zero, suc, ◌+◌, ◌-◌, ◌^◌, ◌≤◌, ◌<◌, ◌≡◌, refl, sym, ap, ◌∙◌, true, false, some, [], ◌++◌,
  arith, length, length-append, length-take, length-drop, length-replicate, take, drop, replicate,
  ok, max,
}
use learndb_py.Bytes.Slices.{Bytes, splice}
use learndb_py.Bytes.Numbers.{to_bytes_fits, digits}
use learndb_py.Constants.{page_size, word, table_max_pages}
use learndb_py.Pager.{Pager, write_file, bool_number}
use learndb_py.Pager.File.{close, init, flush_page, flush_pages, flush_header, set_free_page_head}
use learndb_py.Pager.Counts.{count}
use learndb_py.Pager.Flush.{place}
use learndb_py.Pager.Persist.{before_flush, close-on_file}
use learndb_py.Pager.Head.{
  truncate_file-none, link_all-none, close-read_file_header, set_free_page_head-slices,
}
use learndb_py.Pager.Opening.{Opened, init-Opened}

-- The length of a file behind a write that starts in it or at its end.
length-write_file_within :
    (file b : Bytes) (offset : ℕ)
    → offset ≤ length file
    → length (write_file file offset b) ≡ max (length file) (offset + length b)
unfolding write_file splice
length-write_file_within file b offset h =
    let f = file ++ replicate (offset - length file) 0 in
    omega (
      arith,
      length-append file (replicate (offset - length file) 0),
      length-replicate {A = ℕ} (offset - length file) 0,
      length-append (take offset f) (b ++ drop (max offset (offset + length b)) f),
      length-append b (drop (max offset (offset + length b)) f),
      length-take offset f,
      length-drop (max offset (offset + length b)) f,
    )

-- Every page from `n` on, of the next `left` ones, is in the cache and has the size of a page.
abbrev Cached : Pager → ℕ → ℕ → Type 0
Cached p n left =
    (k : ℕ)
    → n ≤ k
    → k < n + left
    → (page : Bytes) × (p.pages k ≡ some page) × (length page ≡ page_size)

flush_page-returns :
    (p : Pager) (n : ℕ) (page : Bytes)
    → p.pages n ≡ some page
    → flush_page p n ≡ ok (record p { file = write_file p.file (place n) page })
unfolding flush_page
flush_page-returns p n page e = rw (e, flush_page) refl

flush_pages-next :
    (left n : ℕ) (p : Pager) (page : Bytes)
    → p.pages n ≡ some page
    → (p' : Pager)
    → flush_pages left (n + 1) (record p { file = write_file p.file (place n) page }) ≡ ok p'
    → flush_pages (suc left) n p ≡ ok p'
unfolding flush_pages
flush_pages-next left n p page e p' f = rw (e, flush_pages) (rw (flush_page-returns p n page e) f)

flush_pages-returns :
    (left n : ℕ) (p : Pager)
    → Cached p n left
    → place n ≤ length p.file
    → (p' : Pager) × (flush_pages left n p ≡ ok p')
      × (length p'.file ≡ max (length p.file) (place (n + left)))
flush_pages-returns zero n p c h = (p, unfold flush_pages in refl, omega arith)
flush_pages-returns (suc left) n p c h =
    let (page, e, l) = c n (omega arith) (omega arith) in
    let written = write_file p.file (place n) page in
    let lw : length written ≡ max (length p.file) (place n + length page) =
      length-write_file_within p.file page (place n) h in
    let (p', f, lp) =
      flush_pages-returns left (n + 1) (record p { file = written })
        (λ k a b. c k (omega arith) (omega arith)) (omega arith) in
    (p', flush_pages-next left n p page e p' f, omega arith)

-- A pager that can be closed and opened again: no page was returned, every page is in the cache, and the
-- header and the file end before the pages do.
pub record Ready (p : Pager) : Type 0 where
  pub returned : p.returned_pages ≡ []
  pub header : (100 ≤ length p.header) × (length p.header ≤ place p.num_pages)
  pub file : length p.file ≤ place p.num_pages
  pub few : p.num_pages ≤ table_max_pages
  pub head : p.free_page_list_head < 256 ^ 4
  pub pages : Cached p 0 p.num_pages

set_free_page_head-returns :
    (header : Bytes) (head : ℕ)
    → head < 256 ^ 4
    → (header' : Bytes) × (set_free_page_head header head ≡ ok header')
unfolding set_free_page_head
set_free_page_head-returns header head h = (
  splice (splice header 20 24 (digits word 1)) 16 20 (digits word head),
  rw (to_bytes_fits word (bool_number true) (omega arith), to_bytes_fits word head h) refl,
)

close-returns :
    (p : Pager) → Ready p → (p' : Pager) × (close p ≡ ok p') × (length p'.file ≡ place p.num_pages)
unfolding close flush_header
close-returns p r =
    let (header, w) = set_free_page_head-returns p.header p.free_page_list_head r.head in
    let (lh, _, _) =
      set_free_page_head-slices p.header header p.free_page_list_head w
        (omega (arith, r.header.0)) in
    let start = before_flush (record p { returned_pages = [] }) header in
    let ls : length start.file ≡ max (length p.file) (0 + length header) =
      length-write_file_within p.file header 0 (omega arith) in
    let (p', f, lp) = flush_pages-returns p.num_pages 0 start r.pages (omega (arith, r.header.0)) in
    (
      p',
      rw (truncate_file-none p r.returned, link_all-none p r.returned, w) f,
      omega (arith, r.header.1, r.file),
    )

same_pages :
    (p p' q : Pager)
    → Ready p
    → close p ≡ ok p'
    → Opened p'.file p.num_pages q
    → (k : ℕ) → k < p.num_pages
    → q.pages k ≡ p.pages k
same_pages p p' q r e o k h =
    let (page, there, l) = r.pages k (omega arith) (omega arith) in
    o.pages k h
    ∙ ap (λ (x : Bytes). some x) (close-on_file p p' k page e there l h (ap (count k) r.returned))
    ∙ sym there

-- A pager that is ready is closed, and a pager that is opened on its file has the same pages. Its list
-- of free pages starts where that of the first pager did.
pub close-init :
    (p : Pager)
    → Ready p
    → (p' : Pager) × (close p ≡ ok p')
      × (q : Pager) × (init (some p'.file) false ≡ ok q)
      × (q.num_pages ≡ p.num_pages)
      × ((k : ℕ) → k < p.num_pages → q.pages k ≡ p.pages k)
      × (q.has_free_page_list ≡ true)
      × (q.free_page_list_head ≡ p.free_page_list_head)
close-init p r =
    let (p', e, l) = close-returns p r in
    let (q, f, o) = init-Opened p'.file p.num_pages l r.few in
    let (has, head) = close-read_file_header p p' e (omega (arith, r.header.0)) r.returned in
    (p', e, q, f, o.num, same_pages p p' q r e o, o.free.0 ∙ has, o.free.1 ∙ head)
