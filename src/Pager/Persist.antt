-- ===== src/Pager/Persist.antt =====
-- The steps of `close` of learndb/pager.py, and the pages in the file.
use learndb_py.Prelude.{
  ℕ, ◌+◌, ◌-◌, ◌≤◌, ◌<◌, ◌≡◌, refl, ap, ◌∙◌, Bool, true, false, Option, some, List, [], ◌∷◌, arith,
  length, ◌==◌, ==_iff, leb, if◌then◌else◌, Result, ok, >>=-eq-ok, Bool-cases, Option-cases, inl,
  inr, subst,
}
use mathlib.Core.List.{reverse}
use learndb_py.Bytes.Slices.{Bytes, slice}
use learndb_py.Constants.{page_size, table_max_pages}
use learndb_py.Pager.{
  Pager, read_file, cached, load_page, keep_page, get_page, truncate, set_page, set_free_page_next,
  set_free_page_next_null,
}
use learndb_py.Pager.Counts.{count, count-reverse, count-sort}
use learndb_py.Pager.File.{
  flush_header, set_free_page_head, flush_pages, link_page, link_pages, truncate_loop,
  truncate_file, close, sort,
}
use learndb_py.Pager.Flush.{place, on_file, flush_page-eq, flush_pages-writes}

-- The loop of `truncate_file` takes no page that was not returned.
truncate_loop-keeps :
    (k : ℕ) (ns : List ℕ) (p q : Pager)
    → truncate_loop ns p ≡ ok q
    → count k ns ≡ 0
    → k < p.num_pages
    → (q.pages ≡ p.pages) × (count k q.returned_pages ≡ 0) × (k < q.num_pages)
unfolding truncate_loop
truncate_loop-keeps k [] p q h c l = ground arith
truncate_loop-keeps k (n ∷ ns) p q h c l =
    let back : count k (reverse (n ∷ ns)) ≡ 0 = count-reverse k (n ∷ ns) ∙ c in
    let shorter = p.file_length - page_size in
    ground (
      arith,
      back,
      ==_iff k n,
      truncate_loop-keeps k ns
          (record p {
            file_length = shorter;
            file = truncate p.file shorter;
            num_pages = p.num_pages - 1;
            num_pages_on_disk = p.num_pages_on_disk - 1;
          })
          q,
    )

truncate_file-keeps :
    (k : ℕ) (p q : Pager)
    → truncate_file p ≡ ok q
    → count k p.returned_pages ≡ 0
    → k < p.num_pages
    → (q.pages ≡ p.pages) × (count k q.returned_pages ≡ 0) × (k < q.num_pages)
unfolding truncate_file
truncate_file-keeps k p q h c l = ground (
  arith,
  truncate_loop-keeps k (reverse (sort p.returned_pages)) p q,
  count-reverse k (sort p.returned_pages),
  count-sort k p.returned_pages,
)

-- The cache holds the same for page `k`, and no page went away.
abbrev Stays : ℕ → Pager → Pager → Type 0
Stays k p q = (q.pages k ≡ p.pages k) × (p.num_pages ≤ q.num_pages)

get_page-keeps :
    (k n : ℕ) (p : Pager) (page : Bytes) (q : Pager)
    → get_page p n ≡ ok (page, q)
    → (n == k) ≡ false
    → Stays k p q
unfolding get_page cached keep_page
get_page-keeps k n p page q h ne = elim (Bool-cases (leb table_max_pages n)) [
  | inl e ↦ absurd (cc (rw e at h))
  | inr e ↦ elim (Option-cases (p.pages n)) [
    | inr (other, c) ↦ ground (arith, rw (e, c) at h)
    | inl c ↦
        let (b, _, r) = >>=-eq-ok (load_page p n) _ (rw (e, c) at h) in
        let same : keep_page p n b ≡ q = ground (arith, r) in
        subst (Stays k p) same (rw ne refl, ground arith)
  ]
]

cached_self : (pages : ℕ → Option Bytes) (n : ℕ) (page : Bytes) → cached pages n page n ≡ some page
unfolding cached
cached_self pages n page = rw ((==_iff n n).1 refl) refl

-- Linking a page leaves the other pages of the cache.
link_page-keeps :
    (k n : ℕ) (p q : Pager) (defined : Bool) (head : ℕ)
    → link_page p n defined head ≡ ok q
    → (n == k) ≡ false
    → Stays k p q
unfolding link_page set_page cached
link_page-keeps k n p q defined head h ne =
    let ((page, p₁), g, r) = >>=-eq-ok (get_page p n) _ h in
    let (page', w, f) =
      >>=-eq-ok (if defined then set_free_page_next page head else set_free_page_next_null page) _
        r in
    let (a, b) = get_page-keeps k n p page p₁ g ne in
    let e = flush_page-eq (set_page p₁ n page') q n page' (cached_self p₁.pages n page') f in
    subst (Stays k p) e (rw ne a, b)

link_pages-keeps :
    (k : ℕ) (ns : List ℕ) (p q : Pager) (defined : Bool) (head last : ℕ)
    → link_pages ns p defined head ≡ ok (q, last)
    → count k ns ≡ 0
    → Stays k p q
unfolding link_pages
link_pages-keeps k [] p q defined head last h c = ground arith
link_pages-keeps k (n ∷ ns) p q defined head last h c =
    let (p₁, f, r) = >>=-eq-ok (link_page p n defined head) _ h in
    let (a, b) = link_page-keeps k n p p₁ defined head f (ground (arith, ==_iff k n, ==_iff n k)) in
    let (a', b') = link_pages-keeps k ns p₁ q true n last r (ground arith) in (a' ∙ a, omega arith)

-- The state of `close` before it flushes the pages.
abbrev pub before_flush : Pager → Bytes → Pager
before_flush p header = flush_header (record p { header = header })

abbrev pub link_all : Pager → Result (Pager × ℕ)
link_all p = link_pages (reverse p.returned_pages) p p.has_free_page_list p.free_page_list_head

pub close-eq-ok :
    (p p' : Pager)
    → close p ≡ ok p'
    → (p₁ : Pager) × (truncate_file p ≡ ok p₁)
      × (p₂ : Pager) × (head : ℕ) × (link_all p₁ ≡ ok (p₂, head))
      × (header : Bytes) × (set_free_page_head p₂.header head ≡ ok header)
      × (flush_pages p₂.num_pages 0 (before_flush p₂ header) ≡ ok p')
unfolding close flush_header
close-eq-ok p p' h =
    let (p₁, t, h₁) = >>=-eq-ok (truncate_file p) _ h in
    let ((p₂, head), g, h₂) = >>=-eq-ok (link_all p₁) _ h₁ in
    let (header, w, h₃) = >>=-eq-ok (set_free_page_head p₂.header head) _ h₂ in
    (p₁, t, p₂, head, g, header, w, h₃)

load_page-on_file :
    (q : Pager) (k : ℕ) (page : Bytes)
    → on_file q k ≡ page
    → length page ≡ page_size
    → k < q.num_pages
    → load_page q k ≡ ok page
unfolding load_page read_file
load_page-on_file q k page e sz l = ground (arith, e, sz)

-- A page that is in the cache and was not returned is in the file that `close` leaves.
pub close-on_file :
    (p p' : Pager) (k : ℕ) (page : Bytes)
    → close p ≡ ok p'
    → p.pages k ≡ some page
    → length page ≡ page_size
    → k < p.num_pages
    → count k p.returned_pages ≡ 0
    → on_file p' k ≡ page
unfolding flush_header
close-on_file p p' k page h in_cache sz l c =
    let (p₁, t, p₂, head, g, header, _, fl) = close-eq-ok p p' h in
    let (a, b, d) = truncate_file-keeps k p p₁ t c l in
    let (e, f) =
      link_pages-keeps k (reverse p₁.returned_pages) p₁ p₂ _ _ head g
        (count-reverse k p₁.returned_pages ∙ b) in
    let there : p₂.pages k ≡ some page =
      e ∙ ap (λ (pages : ℕ → Option Bytes). pages k) a ∙ in_cache in
    flush_pages-writes p₂.num_pages 0 k (before_flush p₂ header) p' page fl (omega arith)
      (omega arith) there sz

-- A page that is in the cache and was not returned is read from the file that `close` leaves, by any
-- pager on that file that does not have the page in its cache.
pub close-load_page :
    (p p' q : Pager) (k : ℕ) (page : Bytes)
    → close p ≡ ok p'
    → p.pages k ≡ some page
    → length page ≡ page_size
    → k < p.num_pages
    → count k p.returned_pages ≡ 0
    → q.file ≡ p'.file
    → k < q.num_pages
    → load_page q k ≡ ok page
close-load_page p p' q k page h in_cache sz l c same_file lq =
    load_page-on_file q k page
      (ap (λ (file : Bytes). slice file (place k) (place k + page_size)) same_file
        ∙ close-on_file p p' k page h in_cache sz l c)
      sz lq
