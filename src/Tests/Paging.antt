-- ===== src/Tests/Paging.antt =====
-- The pager at concrete inputs.
use learndb_py.Prelude.{
  ℕ, ◌≡◌, refl, true, false, List, [], ◌∷◌, none, some, length, length-replicate, arith, ok,
  replicate, take, drop, zero, suc, ◌≤◌, ◌<◌, ◌+◌,
}
use learndb_py.Bytes.Slices.{Bytes, splice}
use learndb_py.Bytes.Numbers.{to_bytes, digits}
use learndb_py.Constants.{page_size}
use learndb_py.Pager.{
  Pager, zeros, get_unused_page_num, return_page, pop_last, unused_at_end, load_page, cached,
  write_file,
}
use learndb_py.Pager.File.{
  init, create_file_header, read_file_header, warm_up, open_header, close, truncate_file,
  link_pages, set_free_page_head, flush_header, flush_page, flush_pages,
}
use learndb_py.Pager.Counts.{count}
use learndb_py.Pager.Owners.{Owned, Steps, alloc, give_back, here, next}
use learndb_py.Pager.Alloc.{Steps-Owned, get_unused_page_num-fresh}
use learndb_py.Pager.Persist.{close-load_page}
use learndb_py.Pager.Head.{close-read_file_header}
use learndb_py.Pager.Opening.{Opened, init-Opened}
use learndb_py.Pager.Reopen.{Ready, close-init}

abbrev new_header : Bytes
new_header = 108 ∷ 101 ∷ 97 ∷ 114 ∷ 110 ∷ 100 ∷ 98 ∷ 32 ∷ 118 ∷ 49 ∷ zeros 100

-- The header of a new file is 110 bytes long.
new_header_made : create_file_header ≡ ok new_header
unfolding create_file_header zeros splice to_bytes digits take replicate drop
new_header_made = refl

abbrev new_pager : Pager
new_pager = record {
  header = new_header;
  pages = λ n. none;
  file = [];
  file_length = 0;
  num_pages = 0;
  num_pages_on_disk = 0;
  next_allocatable_page_num = 0;
  returned_pages = [];
  has_free_page_list = false;
  free_page_list_head = 0;
}

new_pager_opened : init none false ≡ ok new_pager
unfolding init open_header warm_up create_file_header zeros splice to_bytes digits take replicate
    drop
new_pager_opened = refl

new_pager-Owned : Owned new_pager []
new_pager-Owned = record { chain = []; linked = tt; once = λ n. omega arith; unowned = λ n h. refl }

abbrev pager_at : ℕ → List ℕ → Pager
pager_at n returned = record new_pager { next_allocatable_page_num = n; returned_pages = returned }

-- Two pages are allocated, and the first one is given back.
two_pages : Steps new_pager [] (pager_at 2 (0 ∷ [])) (1 ∷ [])
unfolding get_unused_page_num unused_at_end return_page pop_last
two_pages = next (next (next here (alloc 0 refl)) (alloc 1 refl)) (give_back 0 (omega arith))

Steps-Owned_example : Owned (pager_at 2 (0 ∷ [])) (1 ∷ [])
Steps-Owned_example = Steps-Owned new_pager-Owned two_pages

page_back : get_unused_page_num (pager_at 2 (0 ∷ [])) ≡ ok (0, pager_at 2 [])
unfolding get_unused_page_num pop_last
page_back = refl

get_unused_page_num-fresh_example : count 0 (1 ∷ []) ≡ 0
get_unused_page_num-fresh_example = get_unused_page_num-fresh 0 new_pager-Owned two_pages page_back

-- One page is in the cache, and the pager is closed.
abbrev blank : Bytes
blank = zeros page_size

abbrev used_pager : Pager
used_pager = record new_pager { pages = cached (λ n. none) 0 blank; num_pages = 1 }

abbrev closed_header : Bytes
closed_header = splice (splice new_header 20 24 (1 ∷ 0 ∷ 0 ∷ 0 ∷ [])) 16 20 (0 ∷ 0 ∷ 0 ∷ 0 ∷ [])

abbrev closed_pager : Pager
closed_pager = record used_pager {
  header = closed_header;
  file = write_file (write_file [] 0 closed_header) 100 blank;
}

used_pager_closed : close used_pager ≡ ok closed_pager
unfolding close truncate_file link_pages set_free_page_head flush_header flush_page flush_pages
    cached to_bytes digits
used_pager_closed = refl

close-load_page_example : load_page closed_pager 0 ≡ ok blank
unfolding cached zeros
close-load_page_example =
    close-load_page used_pager closed_pager closed_pager 0 blank used_pager_closed refl
      (length-replicate {A = ℕ} 4096 0) (omega arith) refl refl (omega arith)

-- The pager had no list of free pages, and the file says that page 0 is free.
close-read_file_header_example :
    ((read_file_header closed_pager.file).1 ≡ true) × ((read_file_header closed_pager.file).2 ≡ 0)
close-read_file_header_example =
    close-read_file_header used_pager closed_pager used_pager_closed
      (unfold zeros in omega (arith, length-replicate {A = ℕ} 100 0)) refl

used_pages :
    (k : ℕ)
    → 0 ≤ k
    → k < 0 + 1
    → (page : Bytes) × (used_pager.pages k ≡ some page) × (length page ≡ page_size)
unfolding cached zeros
used_pages zero p q = (blank, refl, length-replicate {A = ℕ} page_size 0)
used_pages (suc k) p q = absurd (omega arith)

used_pager-Ready : Ready used_pager
used_pager-Ready = record {
  returned = refl;
  header =
      unfold zeros in
      (
        omega (arith, length-replicate {A = ℕ} 100 0),
        omega (arith, length-replicate {A = ℕ} 100 0),
      );
  file = omega arith;
  few = omega arith;
  head = omega arith;
  pages = used_pages;
}

close-init_example :
    (p' : Pager) × (close used_pager ≡ ok p')
    × (q : Pager) × (init (some p'.file) false ≡ ok q)
    × (q.num_pages ≡ 1)
    × ((k : ℕ) → k < 1 → q.pages k ≡ used_pager.pages k)
    × (q.has_free_page_list ≡ true)
    × (q.free_page_list_head ≡ 0)
close-init_example = close-init used_pager used_pager-Ready

init-Opened_example :
    (q : Pager) × (init (some (zeros 4196)) false ≡ ok q) × Opened (zeros 4196) 1 q
unfolding zeros
init-Opened_example = init-Opened (zeros 4196) 1 (length-replicate {A = ℕ} 4196 0) (omega arith)
