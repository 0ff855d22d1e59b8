-- ===== src/Pager/Owners.antt =====
-- Who owns the pages of learndb/pager.py: its clients, the returned pages and the list on disk.
use learndb_py.Prelude.{
  ℕ, ◌+◌, ◌≤◌, ◌<◌, ◌≡◌, refl, Bool, true, false, Option, none, some, List, [], ◌∷◌, arith, ◌==◌,
  leb, ok, >>=-eq-ok, Bool-cases, Option-cases, inl, inr, subst, ==_iff,
}
use learndb_py.Bytes.Slices.{Bytes}
use learndb_py.Constants.{table_max_pages}
use learndb_py.Pager.Counts.{count, remove, count-append, count-remove}
use learndb_py.Pager.{
  Pager, cached, load_page, keep_page, get_page, set_page, get_free_page_next, get_unused_page_num,
  return_page,
}

-- The pages of the list on disk, from its head on.
abbrev pub Linked : (ℕ → Option Bytes) → Bool → ℕ → List ℕ → Type 0
Linked pages false head [] = Unit
Linked pages false head (c ∷ cs) = ⊥
Linked pages true head [] = ⊥
Linked pages true head (c ∷ cs) =
    (head ≡ c)
    × (page : Bytes) × (pages c ≡ some page)
    × Linked pages (get_free_page_next page).0 (get_free_page_next page).1 cs

-- Every page has one owner at most: a client, the returned pages or the list on disk. A page that is
-- still to be allocated has none.
pub record Owned (p : Pager) (live : List ℕ) : Type 0 where
  pub chain : List ℕ
  pub linked : Linked p.pages p.has_free_page_list p.free_page_list_head chain
  pub once : (n : ℕ) → count n live + count n p.returned_pages + count n chain ≤ 1
  pub unowned :
      (n : ℕ)
      → p.next_allocatable_page_num ≤ n
      → count n live + count n p.returned_pages + count n chain ≡ 0

-- What a client does: it asks for a page, gives one back that it has, reads any page, and writes to a
-- page that it has.
pub data Step : Pager → List ℕ → Pager → List ℕ → Type 0 where
  alloc :
      {p p' : Pager} {live : List ℕ} (n : ℕ)
      → get_unused_page_num p ≡ ok (n, p')
      → Step p live p' (n ∷ live)
  give_back :
      {p : Pager} {live : List ℕ} (n : ℕ)
      → 0 < count n live
      → Step p live (return_page p n) (remove n live)
  read :
      {p p' : Pager} {live : List ℕ} (n : ℕ) (page : Bytes)
      → get_page p n ≡ ok (page, p')
      → Step p live p' live
  write :
      {p : Pager} {live : List ℕ} (n : ℕ) (page : Bytes)
      → 0 < count n live
      → Step p live (set_page p n page) live

pub data Steps (p : Pager) (live : List ℕ) : Pager → List ℕ → Type 0 where
  here : Steps p live p live
  next :
      {p₁ p₂ : Pager} {live₁ live₂ : List ℕ}
      → Steps p live p₁ live₁
      → Step p₁ live₁ p₂ live₂
      → Steps p live p₂ live₂

-- The list on disk stays linked where its pages stay as they are.
Linked-agree :
    (pages pages' : ℕ → Option Bytes) (chain : List ℕ) (has : Bool) (head : ℕ)
    → ((c : ℕ) (q : Bytes) → 0 < count c chain → pages c ≡ some q → pages' c ≡ some q)
    → Linked pages has head chain
    → Linked pages' has head chain
Linked-agree pages pages' [] false head agree l = tt
Linked-agree pages pages' [] true head agree l = absurd l
Linked-agree pages pages' (c ∷ cs) false head agree l = absurd l
Linked-agree pages pages' (c ∷ cs) true head agree (h, q, e, l) = (
  h,
  q,
  agree c q (ground arith) e,
  Linked-agree pages pages' cs (get_free_page_next q).0 (get_free_page_next q).1
      (λ d r m. agree d r (ground arith)) l,
)

write_agree :
    (pages : ℕ → Option Bytes) (n c : ℕ) (page q : Bytes) (chain : List ℕ)
    → count n chain ≡ 0
    → 0 < count c chain
    → pages c ≡ some q
    → cached pages n page c ≡ some q
unfolding cached
write_agree pages n c page q chain z m e = elim (Bool-cases (n == c)) [
  | inl y ↦ let z' : count c chain ≡ 0 = rw ((==_iff n c).0 y) at z in absurd (omega arith)
  | inr y ↦ rw y e
]

load_agree :
    (pages : ℕ → Option Bytes) (n c : ℕ) (page q : Bytes)
    → pages n ≡ none
    → pages c ≡ some q
    → cached pages n page c ≡ some q
unfolding cached
load_agree pages n c page q z e = elim (Bool-cases (n == c)) [
  | inl y ↦ let z' : pages c ≡ none = rw ((==_iff n c).0 y) at z in absurd (cc)
  | inr y ↦ rw y e
]

-- A page that the list does not hold can be written, and one that was not cached is none of the list's.
Linked-write :
    (pages : ℕ → Option Bytes) (n : ℕ) (page : Bytes) (has : Bool) (head : ℕ) (chain : List ℕ)
    → count n chain ≡ 0
    → Linked pages has head chain
    → Linked (cached pages n page) has head chain
Linked-write pages n page has head chain z l =
    Linked-agree pages _ chain has head (λ c q m e. write_agree pages n c page q chain z m e) l

Linked-load :
    (pages : ℕ → Option Bytes) (n : ℕ) (page : Bytes) (has : Bool) (head : ℕ) (chain : List ℕ)
    → pages n ≡ none
    → Linked pages has head chain
    → Linked (cached pages n page) has head chain
Linked-load pages n page has head chain z l =
    Linked-agree pages _ chain has head (λ c q m e. load_agree pages n c page q z e) l

abbrev Kept : Pager → Pager → List ℕ → Type 0
Kept p p' chain =
    Linked p'.pages p'.has_free_page_list p'.free_page_list_head chain
    × (p'.returned_pages ≡ p.returned_pages)
    × (p.next_allocatable_page_num ≤ p'.next_allocatable_page_num)

-- What a read leaves: the list on disk is linked as before, and what is still to be allocated was so.
pub get_page-keeps :
    (p p' : Pager) (n : ℕ) (page : Bytes) (chain : List ℕ)
    → get_page p n ≡ ok (page, p')
    → Linked p.pages p.has_free_page_list p.free_page_list_head chain
    → Linked p'.pages p'.has_free_page_list p'.free_page_list_head chain
      × (p'.returned_pages ≡ p.returned_pages)
      × (p.next_allocatable_page_num ≤ p'.next_allocatable_page_num)
unfolding get_page
get_page-keeps p p' n page chain h l = elim (Bool-cases (leb table_max_pages n)) [
  | inl e ↦ absurd (cc (rw e at h))
  | inr e ↦ elim (Option-cases (p.pages n)) [
    | inr (q, c) ↦
        let same : p ≡ p' = ground (arith, rw (e, c) at h) in
        subst (λ (x : Pager). Kept p x chain) same (l, refl, omega arith)
    | inl c ↦
        let (b, _, k) = >>=-eq-ok (load_page p n) _ (rw (e, c) at h) in
        let same : keep_page p n b ≡ p' = ground (arith, k) in
        subst (λ (x : Pager). Kept p x chain) same
          (unfold keep_page in (Linked-load p.pages n b _ _ chain c l, refl, ground arith))
  ]
]

-- A read keeps the ownership.
pub read-Owned :
    (p p' : Pager) (live : List ℕ) (n : ℕ) (page : Bytes)
    → get_page p n ≡ ok (page, p')
    → Owned p live
    → Owned p' live
read-Owned p p' live n page h o =
    let (l, r, m) = get_page-keeps p p' n page o.chain h o.linked in
    record {
      chain = o.chain;
      linked = l;
      once = λ k. rw r (o.once k);
      unowned = λ k le. rw r (o.unowned k (omega arith));
    }

pub write-Owned :
    (p : Pager) (live : List ℕ) (n : ℕ) (page : Bytes)
    → 0 < count n live
    → Owned p live
    → Owned (set_page p n page) live
unfolding set_page
write-Owned p live n page h o = record {
  chain = o.chain;
  linked = Linked-write p.pages n page _ _ o.chain (omega (arith, o.once n)) o.linked;
  once = o.once;
  unowned = o.unowned;
}

pub give_back-Owned :
    (p : Pager) (live : List ℕ) (n : ℕ)
    → 0 < count n live
    → Owned p live
    → Owned (return_page p n) (remove n live)
unfolding return_page
give_back-Owned p live n h o = record {
  chain = o.chain;
  linked = o.linked;
  once = λ k.
      omega (arith, o.once k, count-append k p.returned_pages (n ∷ []), count-remove k n live h);
  unowned = λ k le.
      omega
        (arith, o.unowned k le, count-append k p.returned_pages (n ∷ []), count-remove k n live h);
}
