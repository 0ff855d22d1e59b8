-- ===== src/Pager/Alloc.antt =====
-- The allocation of pages in learndb/pager.py, and their owners.
use learndb_py.Prelude.{
  ℕ, ◌+◌, ◌≤◌, ◌≡◌, refl, ap, Bool, true, false, none, some, List, [], ◌∷◌, ◌++◌, arith, ◌==◌,
  if◌then◌else◌, ok, >>=-eq-ok, Bool-cases, Option-cases, inl, inr, subst,
}
use learndb_py.Bytes.Slices.{Bytes}
use learndb_py.Pager.Counts.{count, count-append}
use learndb_py.Pager.{
  Pager, get_page, pop_last, get_free_page_next, unused_from_disk, unused_at_end,
  get_unused_page_num,
}
use learndb_py.Pager.Owners.{
  Linked, Owned, Step, Steps, alloc, give_back, read, write, here, next, read-Owned, write-Owned,
  give_back-Owned,
}

pop_last-none : (xs : List ℕ) → pop_last xs ≡ none → xs ≡ []
unfolding pop_last
pop_last-none [] h = refl
pop_last-none (x ∷ xs) h = elim (Option-cases (pop_last xs)) [
  | inl e ↦ absurd (cc (rw (e, pop_last) at h))
  | inr (q, e) ↦ absurd (cc (rw (e, pop_last) at h))
]

pop_last-eq : (xs r : List ℕ) (n : ℕ) → pop_last xs ≡ some (r, n) → xs ≡ r ++ n ∷ []
unfolding pop_last
pop_last-eq [] r n h = absurd (cc)
pop_last-eq (x ∷ xs) r n h = elim (Option-cases (pop_last xs)) [
  | inl e ↦ ground (arith, pop_last-none xs e, rw (e, pop_last) at h)
  | inr ((r', m), e) ↦ ground (arith, pop_last-eq xs r' m e, rw (e, pop_last) at h)
]

-- The three sources of a page number.
abbrev Fresh : Pager → List ℕ → ℕ × Pager → Type 0
Fresh p live r = (count r.0 live ≡ 0) × Owned r.1 (r.0 ∷ live)

one_at : (n : ℕ) → ◌≡◌ {A = ℕ} (if n == n then 1 else 0) 1
one_at n = ground arith

from_returned :
    (p : Pager) (live rest : List ℕ) (n : ℕ)
    → p.returned_pages ≡ rest ++ n ∷ []
    → Owned p live
    → Fresh p live (n, record p { returned_pages = rest })
from_returned p live rest n e o =
    let c = λ (k : ℕ). ap (count k) e in
    (
      omega (arith, o.once n, c n, count-append n rest (n ∷ []), one_at n),
      record {
        chain = o.chain;
        linked = o.linked;
        once = λ k. omega (arith, o.once k, c k, count-append k rest (n ∷ []));
        unowned = λ k le. omega (arith, o.unowned k le, c k, count-append k rest (n ∷ []));
      },
    )

from_end : (p : Pager) (live : List ℕ) → Owned p live → Fresh p live (unused_at_end p)
unfolding unused_at_end
from_end p live o = (
  omega (arith, o.unowned p.next_allocatable_page_num),
  record {
    chain = o.chain;
    linked = o.linked;
    once = λ k. ground (arith, o.once k, o.unowned k);
    unowned = λ k le. ground (arith, o.unowned k);
  },
)

-- The head of the list on disk, read from the cache.
head_cached :
    (p p' : Pager) (page q : Bytes)
    → get_page p p.free_page_list_head ≡ ok (page, p')
    → p.pages p.free_page_list_head ≡ some q
    → (page ≡ q) × (p' ≡ p)
unfolding get_page
head_cached p p' page q h e = ground arith

-- The pager behind an allocation from the list on disk, whose head is the page `q`.
abbrev after_head : Pager → Bytes → Pager
after_head p q =
    if (get_free_page_next q).0
    then record p { free_page_list_head = (get_free_page_next q).1; has_free_page_list = true }
    else record p { has_free_page_list = false }

Linked-after_head :
    (p : Pager) (q : Bytes) (cs : List ℕ)
    → Linked p.pages (get_free_page_next q).0 (get_free_page_next q).1 cs
    → Linked
        (after_head p q).pages
        (after_head p q).has_free_page_list
        (after_head p q).free_page_list_head
        cs
Linked-after_head p q cs l = elim (Bool-cases (get_free_page_next q).0) [
  | inl e ↦ rw e (subst (λ (b : Bool). Linked p.pages b (get_free_page_next q).1 cs) e l)
  | inr e ↦
      rw e (no_more cs (subst (λ (b : Bool). Linked p.pages b (get_free_page_next q).1 cs) e l))
]
  where
    no_more :
        (ds : List ℕ)
        → Linked p.pages false (get_free_page_next q).1 ds
        → Linked p.pages false p.free_page_list_head ds
    no_more [] k = tt
    no_more (d ∷ ds) k = absurd k

after_head_rest :
    (p : Pager) (q : Bytes)
    → ((after_head p q).returned_pages ≡ p.returned_pages)
      × ((after_head p q).next_allocatable_page_num ≡ p.next_allocatable_page_num)
after_head_rest p q = ground arith

unused_from_disk-eq :
    (p : Pager) (q : Bytes) (r : ℕ × Pager)
    → p.pages p.free_page_list_head ≡ some q
    → unused_from_disk p ≡ ok r
    → (p.free_page_list_head, after_head p q) ≡ r
unfolding unused_from_disk
unused_from_disk-eq p q r e h =
    let ((page, p'), g, k) = >>=-eq-ok (get_page p p.free_page_list_head) _ h in
    let (a, b) = head_cached p p' page q g e in ground (arith, rw (a, b) at k)

from_disk_at :
    (p : Pager) (live : List ℕ) (r : ℕ × Pager) (chain : List ℕ)
    → p.has_free_page_list ≡ true
    → Linked p.pages p.has_free_page_list p.free_page_list_head chain
    → ((n : ℕ) → count n live + count n p.returned_pages + count n chain ≤ 1)
    → ((n : ℕ)
        → p.next_allocatable_page_num ≤ n
        → count n live + count n p.returned_pages + count n chain ≡ 0)
    → unused_from_disk p ≡ ok r
    → Fresh p live r
from_disk_at p live r [] t l once unowned h =
    absurd (subst (λ (b : Bool). Linked p.pages b p.free_page_list_head []) t l)
from_disk_at p live r (c ∷ cs) t l once unowned h =
    let (hd, q, e, l') =
      subst (λ (b : Bool). Linked p.pages b p.free_page_list_head (c ∷ cs)) t l in
    let (ar, an) = after_head_rest p q in
    subst (Fresh p live) (unused_from_disk-eq p q r (rw hd e) h) (
      omega (
        arith,
        once p.free_page_list_head,
        ap (λ (k : ℕ). count p.free_page_list_head (k ∷ cs)) hd,
        one_at p.free_page_list_head,
      ),
      record {
        chain = cs;
        linked = Linked-after_head p q cs l';
        once = λ k. rw (ar, hd) (omega (arith, once k));
        unowned = λ k le. rw (ar, hd) (omega (arith, unowned k (rw an at le)));
      },
    )

-- A page that is handed out is no live page, and then has the client for its one owner.
get_unused-Fresh :
    (p : Pager) (live : List ℕ) (r : ℕ × Pager)
    → Owned p live
    → get_unused_page_num p ≡ ok r
    → Fresh p live r
unfolding get_unused_page_num
get_unused-Fresh p live r o h = elim (Option-cases (pop_last p.returned_pages)) [
  | inr ((rest, n), e) ↦
      let same : (n, record p { returned_pages = rest }) ≡ r =
        ground (arith, rw (e, get_unused_page_num) at h) in
      subst (Fresh p live) same
        (from_returned p live rest n (pop_last-eq p.returned_pages rest n e) o)
  | inl e ↦ elim (Bool-cases p.has_free_page_list) [
    | inl t ↦ from_disk_at p live r o.chain t o.linked o.once o.unowned (ground arith)
    | inr t ↦
        let same : unused_at_end p ≡ r = ground arith in
        subst (Fresh p live) same (from_end p live o)
  ]
]

Step-Owned :
    {p p' : Pager} {live live' : List ℕ} → Step p live p' live' → Owned p live → Owned p' live'
Step-Owned (alloc {p = p} {live = live} n h) o = (get_unused-Fresh p live _ o h).1
Step-Owned (give_back {p = p} {live = live} n h) o = give_back-Owned p live n h o
Step-Owned (read {p = p} {p' = p'} {live = live} n page h) o = read-Owned p p' live n page h o
Step-Owned (write {p = p} {live = live} n page h) o = write-Owned p live n page h o

-- Whatever clients do from an owned state, each page keeps one owner at most: a client, the returned
-- pages or the list on disk.
pub Steps-Owned :
    {p : Pager} {live : List ℕ} {p' : Pager} {live' : List ℕ}
    → Owned p live
    → Steps p live p' live'
    → Owned p' live'
Steps-Owned o here = o
Steps-Owned o (next s st) = Step-Owned st (Steps-Owned o s)

-- Whatever clients do from an owned state, the page that an allocation hands out is in no client's hands.
pub get_unused_page_num-fresh :
    {p : Pager} {live : List ℕ} {p' p'' : Pager} {live' : List ℕ} (n : ℕ)
    → Owned p live
    → Steps p live p' live'
    → get_unused_page_num p' ≡ ok (n, p'')
    → count n live' ≡ 0
get_unused_page_num-fresh {p' = p'} {live' = live'} n o s h =
    (get_unused-Fresh p' live' _ (Steps-Owned o s) h).0
