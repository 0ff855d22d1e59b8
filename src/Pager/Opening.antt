-- ===== src/Pager/Opening.antt =====
-- What `init` of learndb/pager.py reads from a database file.
use learndb_py.Prelude.{
  ℕ, zero, suc, ◌+◌, ◌-◌, ◌*◌, ◌/◌, ◌%◌, ◌≤◌, ◌<◌, ◌≡◌, refl, ap, ◌∙◌, true, false, Option, none,
  some, [], arith, length, ◌==◌, ==_iff, leb, ltb, lt→ltb, ok, Bool-cases, inl, inr, subst,
}
use native.Mathlib.Decide.{dec_lt}
use learndb_py.Bytes.Slices.{Bytes, slice, length-slice}
use learndb_py.Constants.{page_size, page_area_offset, table_max_pages}
use learndb_py.Pager.{Pager, read_file, cached, load_page, keep_page, get_page}
use learndb_py.Pager.File.{init, open_header, read_file_header, warm_up}
use learndb_py.Pager.Flush.{place, on_file}

-- A pager whose file holds its pages, none of which was read from `n` on.
record Unread (p : Pager) (n : ℕ) : Type 0 where
  few : p.num_pages ≤ table_max_pages
  long : place p.num_pages ≤ length p.file
  next : p.num_pages ≤ p.next_allocatable_page_num
  none_from : (k : ℕ) → n ≤ k → p.pages k ≡ none

-- The pager behind the reading of page `n`.
abbrev with_page : Pager → ℕ → Pager
with_page p n = record p { pages = cached p.pages n (on_file p n) }

get_page-reads :
    (p : Pager) (n : ℕ)
    → Unread p n
    → n < p.num_pages
    → get_page p n ≡ ok (on_file p n, with_page p n)
unfolding get_page load_page keep_page read_file
get_page-reads p n u h =
    let e = u.none_from n (omega arith) in
    let a : leb table_max_pages n ≡ false = ground (arith, u.few) in
    let l : length (slice p.file (place n) (place n + page_size)) ≡ page_size =
      length-slice p.file (place n) (place n + page_size) (omega (arith, u.long)) ∙ omega arith in
    let b : leb p.num_pages n ≡ false = ground arith in
    let c : ltb p.next_allocatable_page_num p.num_pages ≡ false = ground (arith, u.next) in
    let d : ltb n p.num_pages ≡ true = lt→ltb n p.num_pages h in
    let f : (length (slice p.file (place n) (place n + page_size)) == page_size) ≡ true =
      (==_iff _ page_size).1 l in
    rw (a, e, d, f, b, c) refl

with_page-Unread : (p : Pager) (n : ℕ) → Unread p n → Unread (with_page p n) (n + 1)
unfolding cached
with_page-Unread p n u = record {
  few = u.few;
  long = u.long;
  next = u.next;
  none_from = λ k h. ground (arith, u.none_from k);
}

-- What the warm up leaves.
record Warm (p : Pager) (n left : ℕ) (q : Pager) : Type 0 where
  rest : record q { pages = p.pages } ≡ p
  same_file : q.file ≡ p.file
  before : (k : ℕ) → k < n → q.pages k ≡ p.pages k
  read : (k : ℕ) → n ≤ k → k < n + left → q.pages k ≡ some (on_file p k)

cached_below :
    (pages : ℕ → Option Bytes) (n : ℕ) (page : Bytes) (k : ℕ)
    → k < n
    → cached pages n page k ≡ pages k
unfolding cached
cached_below pages n page k h = ground arith

cached_here : (pages : ℕ → Option Bytes) (n : ℕ) (page : Bytes) → cached pages n page n ≡ some page
unfolding cached
cached_here pages n page = rw ((==_iff n n).1 refl) refl

warm_up-Warm :
    (left n : ℕ) (p : Pager)
    → Unread p n
    → n + left ≤ p.num_pages
    → (q : Pager) × (warm_up left n p ≡ ok q) × Warm p n left q
unfolding warm_up
warm_up-Warm zero n p u h = (
  p,
  refl,
  record {
    rest = refl;
    same_file = refl;
    before = λ k l. refl;
    read = λ k l m. absurd (omega arith);
  },
)
warm_up-Warm (suc left) n p u h =
    let (q, e, w) =
      warm_up-Warm left (n + 1) (with_page p n) (with_page-Unread p n u) (omega arith) in
    (
      q,
      rw (get_page-reads p n u (omega arith)) e,
      record {
        rest = ap (λ (x : Pager). record x { pages = p.pages }) w.rest;
        same_file = w.same_file;
        before = λ k l. w.before k (omega arith) ∙ cached_below p.pages n (on_file p n) k l;
        read = λ k l m. elim (dec_lt n k) [
          | yes r ↦ w.read k (omega arith) (omega arith)
          | no r ↦
              let here : n ≡ k = omega (arith, r) in
              subst (λ (x : ℕ). q.pages x ≡ some (on_file p x)) here
                (w.before n (omega arith) ∙ cached_here p.pages n (on_file p n))
        ];
      },
    )

-- What a pager that was opened on a file with `n` pages has: no page was returned, every page of the file
-- is in the cache as the file has it, the next page to be allocated is behind them, and the list of free
-- pages is that of the file header.
pub record Opened (file : Bytes) (n : ℕ) (q : Pager) : Type 0 where
  pub same_file : q.file ≡ file
  pub num : q.num_pages ≡ n
  pub num_on_disk : q.num_pages_on_disk ≡ n
  pub next : q.next_allocatable_page_num ≡ n
  pub returned : q.returned_pages ≡ []
  pub free :
      (q.has_free_page_list ≡ (read_file_header file).1)
      × (q.free_page_list_head ≡ (read_file_header file).2)
  pub pages : (k : ℕ) → k < n → q.pages k ≡ some (slice file (place k) (place k + page_size))

-- The pager before the warm up.
abbrev cold : Bytes → ℕ → Pager
cold file n = record {
  header = (read_file_header file).0;
  pages = λ k. none;
  file = file;
  file_length = length file;
  num_pages = n;
  num_pages_on_disk = n;
  next_allocatable_page_num = n;
  returned_pages = [];
  has_free_page_list = (read_file_header file).1;
  free_page_list_head = (read_file_header file).2;
}

Warm-Opened : (file : Bytes) (n : ℕ) (q : Pager) → Warm (cold file n) 0 n q → Opened file n q
Warm-Opened file n q w = record {
  same_file = w.same_file;
  num = ap (λ (x : Pager). x.num_pages) w.rest;
  num_on_disk = ap (λ (x : Pager). x.num_pages_on_disk) w.rest;
  next = ap (λ (x : Pager). x.next_allocatable_page_num) w.rest;
  returned = ap (λ (x : Pager). x.returned_pages) w.rest;
  free = (
    ap (λ (x : Pager). x.has_free_page_list) w.rest,
    ap (λ (x : Pager). x.free_page_list_head) w.rest,
  );
  pages = λ k h. w.read k (omega arith) (omega arith);
}

init-cold :
    (file : Bytes) (n : ℕ)
    → length file ≡ place n
    → init (some file) false ≡ warm_up n 0 (cold file n)
unfolding init open_header
init-cold file n l =
    let not_empty : (length file == 0) ≡ false = ground (arith, l) in
    let pages : (length file - 100) / page_size ≡ n = omega (arith, l) in
    let whole : ((length file + page_size - 100) % page_size == 0) ≡ true =
      (==_iff _ 0).1 (omega (arith, l)) in
    elim (Bool-cases (length file % page_size == 0)) [
      | inl a ↦ rw (a, not_empty, pages) refl
      | inr a ↦ rw (a, whole, not_empty, pages) refl
    ]

-- A file of a header and `n` whole pages, as many as the cache has at most, is opened: `init` returns,
-- and the pager has the pages of the file.
pub init-Opened :
    (file : Bytes) (n : ℕ)
    → length file ≡ page_area_offset + n * page_size
    → n ≤ table_max_pages
    → (q : Pager) × (init (some file) false ≡ ok q) × Opened file n q
init-Opened file n l h =
    let (q, e, w) =
      warm_up-Warm n 0 (cold file n)
        (record { few = h; long = omega arith; next = omega arith; none_from = λ k p. refl })
        (omega arith) in
    (q, init-cold file n l ∙ e, Warm-Opened file n q w)
