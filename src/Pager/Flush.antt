-- ===== src/Pager/Flush.antt =====
-- What the flushes of `close` in learndb/pager.py write to the file.
use learndb_py.Prelude.{
  ℕ, zero, suc, ◌+◌, ◌*◌, ◌≤◌, ◌<◌, ◌≡◌, ◌≢◌, ◌∙◌, some, arith, length, ◌==◌, ==_iff, ok, >>=-eq-ok,
  Bool-cases, Option-cases, inl, inr, subst,
}
use learndb_py.Bytes.Slices.{Bytes, slice}
use learndb_py.Constants.{page_size, page_area_offset}
use learndb_py.Pager.{Pager, write_file}
use learndb_py.Pager.File.{flush_page, flush_pages}
use learndb_py.Pager.Disk.{write_file-below, write_file_self, length-write_file}

-- Where page `n` stands in the file.
abbrev pub place : ℕ → ℕ
place n = page_area_offset + n * page_size

-- The bytes of page `n` in the file.
abbrev pub on_file : Pager → ℕ → Bytes
on_file p n = slice p.file (place n) (place n + page_size)

pub flush_page-eq :
    (p p' : Pager) (n : ℕ) (page : Bytes)
    → p.pages n ≡ some page
    → flush_page p n ≡ ok p'
    → record p { file = write_file p.file (place n) page } ≡ p'
unfolding flush_page
flush_page-eq p p' n page e h = ground (arith, rw (e, flush_page) at h)

-- The loop that flushes the pages from `n` on leaves the file before page `n`, and the cache.
pub flush_pages-below :
    (left n : ℕ) (p p' : Pager)
    → flush_pages left n p ≡ ok p'
    → (p'.pages ≡ p.pages)
      × (length p.file ≤ length p'.file)
      × ((c d : ℕ) → d ≤ place n → d ≤ length p.file → slice p'.file c d ≡ slice p.file c d)
unfolding flush_pages
flush_pages-below zero n p p' h = ground arith
flush_pages-below (suc left) n p p' h = elim (Option-cases (p.pages n)) [
  | inl e ↦
      let (a, b, c) = flush_pages-below left (n + 1) p p' (rw (e, flush_pages) at h) in
      (a, b, λ x y k l. c x y (omega arith) l)
  | inr (page, e) ↦
      let (p₁, f, k) = >>=-eq-ok (flush_page p n) _ (rw (e, flush_pages) at h) in
      let q = flush_page-eq p p₁ n page e f in
      let (a, b, c) = flush_pages-below left (n + 1) _ p' (rw (← q) at k) in
      let (_, longer) = length-write_file p.file page (place n) in
      (
        a,
        omega arith,
        λ x y i l.
            c x y (omega arith) (omega arith) ∙ write_file-below p.file page (place n) x y i l,
      )
]

-- The loop's first page is written, and stays.
flush_pages-first :
    (left k : ℕ) (p p' : Pager) (page : Bytes)
    → flush_pages (suc left) k p ≡ ok p'
    → p.pages k ≡ some page
    → length page ≡ page_size
    → on_file p' k ≡ page
unfolding flush_pages
flush_pages-first left k p p' page h e sz =
    let (p₁, f, r) = >>=-eq-ok (flush_page p k) _ (rw (e, flush_pages) at h) in
    let q = flush_page-eq p p₁ k page e f in
    let (a, b, c) = flush_pages-below left (k + 1) _ p' (rw (← q) at r) in
    let (reach, l) = length-write_file p.file page (place k) in
    c (place k) (place k + page_size) (omega arith) (omega (arith, sz))
    ∙ rw sz at (write_file_self p.file page (place k))

-- The loop writes each page that it comes by.
pub flush_pages-writes :
    (left n k : ℕ) (p p' : Pager) (page : Bytes)
    → flush_pages left n p ≡ ok p'
    → n ≤ k
    → k < n + left
    → p.pages k ≡ some page
    → length page ≡ page_size
    → on_file p' k ≡ page
unfolding flush_pages
flush_pages-writes zero n k p p' page h le lt e sz = absurd (omega arith)
flush_pages-writes (suc left) n k p p' page h le lt e sz = elim (Bool-cases (n == k)) [
  | inr ne ↦
      let other_n : n ≢ k = grind (arith, ==_iff n k) in
      elim (Option-cases (p.pages n)) [
        | inl none_n ↦
            flush_pages-writes left (n + 1) k p p' page (rw (none_n, flush_pages) at h)
              (omega arith) (omega arith) e sz
        | inr (other, some_n) ↦
            let (p₁, f, r) = >>=-eq-ok (flush_page p n) _ (rw (some_n, flush_pages) at h) in
            let q = flush_page-eq p p₁ n other some_n f in
            flush_pages-writes left (n + 1) k _ p' page (rw (← q) at r) (omega arith) (omega arith)
              e sz
      ]
  | inl eq ↦
      let same : n ≡ k = (==_iff n k).0 eq in
      flush_pages-first left k p p' page (subst (λ m. flush_pages (suc left) m p ≡ ok p') same h) e
        sz
]
