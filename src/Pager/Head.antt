-- ===== src/Pager/Head.antt =====
-- The file header that `close` of learndb/pager.py leaves.
use learndb_py.Prelude.{
  ℕ, ◌≤◌, ◌≡◌, refl, ap, ◌∙◌, true, [], not, arith, length, ◌==◌, ok, >>=-eq-ok, subst,
}
use learndb_py.Bytes.Slices.{
  Bytes, slice, splice, length-splice, slice-splice_self, slice-splice_above,
}
use learndb_py.Bytes.Numbers.{to_bytes, from_bytes, to_bytes_ok}
use learndb_py.Constants.{word}
use learndb_py.Pager.{Pager, bool_from_bytes, bool_number, read_file}
use learndb_py.Pager.File.{
  flush_header, read_file_header, set_free_page_head, flush_pages, link_pages, truncate_file, close,
}
use learndb_py.Pager.Disk.{write_file-start, slice-front, length-write_file}
use learndb_py.Pager.Flush.{flush_pages-below}
use learndb_py.Pager.Persist.{before_flush, link_all}

-- What `set_free_page_head` writes is what `read_file_header` finds.
pub set_free_page_head-slices :
    (header header' : Bytes) (head : ℕ)
    → set_free_page_head header head ≡ ok header'
    → 24 ≤ length header
    → (length header' ≡ length header)
      × (bool_from_bytes (slice header' 20 24) ≡ true)
      × (from_bytes (slice header' 16 20) ≡ head)
unfolding set_free_page_head
set_free_page_head-slices header header' head h l =
    let (flag, f, h₁) = >>=-eq-ok (to_bytes word (bool_number true)) _ h in
    let (ptr, g, h₂) = >>=-eq-ok (to_bytes word head) _ h₁ in
    let (lf, rf, _) = to_bytes_ok word 1 flag f in
    let (lp, rp, _) = to_bytes_ok word head ptr g in
    let marked = splice header 20 24 flag in
    let lm : length marked ≡ length header = length-splice header flag 20 24 (omega arith) l in
    let kept : slice (splice marked 16 20 ptr) 20 24 ≡ flag =
      slice-splice_above marked ptr 16 20 20 24 (omega arith) (omega arith) (omega arith)
      ∙ slice-splice_self header flag 20 24 (omega arith) (omega arith) in
    let same : splice marked 16 20 ptr ≡ header' = ground (arith, h₂) in
    subst
      (λ (b : Bytes).
        (length b ≡ length header)
        × (bool_from_bytes (slice b 20 24) ≡ true)
        × (from_bytes (slice b 16 20) ≡ head))
      same
      (
        length-splice marked ptr 16 20 (omega arith) (omega arith) ∙ lm,
        unfold bool_from_bytes in ap (λ (b : Bytes). not (from_bytes b == 0)) kept ∙ rw rf refl,
        ap from_bytes (slice-splice_self marked ptr 16 20 (omega arith) (omega arith)) ∙ rp,
      )

-- A part of the header of a file is a part of the file.
read_file_header-eq :
    (file : Bytes)
    → 24 ≤ length file
    → ((read_file_header file).1 ≡ bool_from_bytes (slice file 20 24))
      × ((read_file_header file).2 ≡ from_bytes (slice file 16 20))
unfolding read_file_header read_file
read_file_header-eq file l = (
  ap bool_from_bytes (slice-front file 100 20 24 (omega arith) l),
  ap from_bytes (slice-front file 100 16 20 (omega arith) (omega arith)),
)

pub truncate_file-none : (p : Pager) → p.returned_pages ≡ [] → truncate_file p ≡ ok p
unfolding truncate_file
truncate_file-none p r = rw r refl

pub link_all-none :
    (p : Pager)
    → p.returned_pages ≡ []
    → link_all p ≡ ok (record p { returned_pages = [] }, p.free_page_list_head)
unfolding link_pages
link_all-none p r = rw r refl

-- The state before the pages are flushed, where no page was returned.
close-no_returned :
    (p p' : Pager)
    → close p ≡ ok p'
    → p.returned_pages ≡ []
    → (header : Bytes) × (set_free_page_head p.header p.free_page_list_head ≡ ok header)
      × (flush_pages p.num_pages 0 (before_flush (record p { returned_pages = [] }) header) ≡ ok p')
unfolding close flush_header
close-no_returned p p' h r =
    let (header, w, fl) =
      >>=-eq-ok (set_free_page_head p.header p.free_page_list_head) _
        (rw (truncate_file-none p r, link_all-none p r) at h) in
    (header, w, fl)

-- Where no page was returned, the file that `close` leaves has a list of free pages with the head from
-- before. It has one also where the pager had none.
pub close-read_file_header :
    (p p' : Pager)
    → close p ≡ ok p'
    → 24 ≤ length p.header
    → p.returned_pages ≡ []
    → ((read_file_header p'.file).1 ≡ true) × ((read_file_header p'.file).2 ≡ p.free_page_list_head)
unfolding flush_header
close-read_file_header p p' h l r =
    let (header, w, fl) = close-no_returned p p' h r in
    let (lh, flag, ptr) = set_free_page_head-slices p.header header p.free_page_list_head w l in
    let (_, longer, below) = flush_pages-below p.num_pages 0 _ p' fl in
    let (reach, _) = length-write_file p.file header 0 in
    let (has, head) = read_file_header-eq p'.file (omega arith) in
    let part : (c d : ℕ) → d ≤ 24 → slice p'.file c d ≡ slice header c d = λ c d k.
      below c d (omega arith) (omega arith) ∙ write_file-start p.file header c d (omega arith) in
    (
      has ∙ ap bool_from_bytes (part 20 24 (omega arith)) ∙ flag,
      head ∙ ap from_bytes (part 16 20 (omega arith)) ∙ ptr,
    )
