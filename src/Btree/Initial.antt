-- ===== src/Btree/Initial.antt =====
-- New nodes of learndb/btree.py.
use learndb_py.Prelude.{
  ℕ, ◌+◌, ◌^◌, ◌≤◌, ◌<◌, ◌≡◌, refl, ap, ◌∙◌, ◌⊎◌, inl, inr, arith, length, Bool, true, false, not,
  Result, ok, ◌>>=◌, if◌then◌else◌,
}
use learndb_py.Bytes.Slices.{Bytes}
use learndb_py.Constants.{page_size}
use learndb_py.Pager.{Pager, page_exists, get_page, set_page}
use learndb_py.Btree.Words.{get_word, set_word, Set, Set-other, set_word_ok}
use learndb_py.Btree.Node.{
  node_leaf, node_type, of_bool, to_bool, get_node_type, is_node_root, get_parent_page_num,
  set_node_type, set_node_is_root, set_parent_page_num,
}
use learndb_py.Btree.Leaf.{
  leaf_node_num_cells, leaf_node_alloc_ptr, leaf_node_free_list_head,
  leaf_node_total_free_list_space, initialize_leaf_node, set_leaf_node_num_cells,
  set_leaf_node_alloc_ptr, set_leaf_node_free_list_head, set_leaf_node_total_free_list_space,
}
use learndb_py.Btree.Shape.{IsLeaf}

-- `check_create_leaf_root`: the pager behind the creation of a tree's root.
unfoldable pub check_create_leaf_root : Pager → ℕ → Result Pager
check_create_leaf_root p root_page_num =
    if not (page_exists p root_page_num)
    then (do
      (root, p') ← get_page p root_page_num
      node ← initialize_leaf_node root false 0
      node' ← set_node_is_root node true
      node'' ← set_parent_page_num node' root_page_num
      ok (set_page p' root_page_num node''))
    else ok p

-- An empty leaf: no cell, no free block, and all of the page behind the header to be allocated.
pub record EmptyLeaf (node : Bytes) (is_root : Bool) (parent : ℕ) : Type 0 where
  pub is_leaf : IsLeaf node
  pub type : get_node_type node ≡ ok node_leaf
  pub num : leaf_node_num_cells node ≡ 0
  pub ptr : leaf_node_alloc_ptr node ≡ page_size
  pub free : leaf_node_free_list_head node ≡ 0
  pub space : leaf_node_total_free_list_space node ≡ 0
  pub root : is_node_root node ≡ is_root
  pub parent_page : get_parent_page_num node ≡ parent

of_bool-back : (b : Bool) → to_bool (of_bool b) ≡ b
of_bool-back false = refl
of_bool-back true = refl

bool_fits : (b : Bool) → of_bool b < 256 ^ 4
bool_fits false = omega arith
bool_fits true = omega arith

fields-EmptyLeaf :
    (node : Bytes) (is_root : Bool) (parent : ℕ)
    → length node ≡ page_size
    → get_word node 0 ≡ 2
    → get_word node 12 ≡ 0
    → get_word node 16 ≡ page_size
    → get_word node 20 ≡ 0
    → get_word node 24 ≡ 0
    → get_word node 4 ≡ of_bool is_root
    → get_word node 8 ≡ parent
    → EmptyLeaf node is_root parent
unfolding get_node_type node_type leaf_node_num_cells leaf_node_alloc_ptr leaf_node_free_list_head
    leaf_node_total_free_list_space is_node_root get_parent_page_num
fields-EmptyLeaf node is_root parent l t n a f s r p = record {
  is_leaf = record {
    page = l;
    room = omega (arith, n, a);
    bound = omega (arith, a);
    cells = λ j lt. absurd (omega (arith, n));
    apart = λ j k lt b. absurd (omega (arith, n));
  };
  type = rw t refl;
  num = n;
  ptr = a;
  free = f;
  space = s;
  root = ap to_bool r ∙ of_bool-back is_root;
  parent_page = p;
}

-- The seven fields, set in the order of the source.
sets-EmptyLeaf :
    {n₀ n₁ n₂ n₃ n₄ n₅ n₆ n₇ : Bytes} (is_root : Bool) (parent : ℕ)
    → length n₀ ≡ page_size
    → Set n₀ 0 2 n₁
    → Set n₁ 12 0 n₂
    → Set n₂ 16 page_size n₃
    → Set n₃ 20 0 n₄
    → Set n₄ 24 0 n₅
    → Set n₅ 4 (of_bool is_root) n₆
    → Set n₆ 8 parent n₇
    → EmptyLeaf n₇ is_root parent
sets-EmptyLeaf {n₀} {n₁} {n₂} {n₃} {n₄} {n₅} {n₆} {n₇} r p l s₁ s₂ s₃ s₄ s₅ s₆ s₇ =
    let k₇ = λ (o : ℕ) (h : (o + 4 ≤ 8) ⊎ (8 + 4 ≤ o)). Set-other n₆ 8 p n₇ o s₇ h in
    let k₆ = λ (o : ℕ) (h : (o + 4 ≤ 4) ⊎ (4 + 4 ≤ o)). Set-other n₅ 4 (of_bool r) n₆ o s₆ h in
    let k₅ = λ (o : ℕ) (h : (o + 4 ≤ 24) ⊎ (24 + 4 ≤ o)). Set-other n₄ 24 0 n₅ o s₅ h in
    let k₄ = λ (o : ℕ) (h : (o + 4 ≤ 20) ⊎ (20 + 4 ≤ o)). Set-other n₃ 20 0 n₄ o s₄ h in
    let k₃ = λ (o : ℕ) (h : (o + 4 ≤ 16) ⊎ (16 + 4 ≤ o)). Set-other n₂ 16 page_size n₃ o s₃ h in
    let k₂ = λ (o : ℕ) (h : (o + 4 ≤ 12) ⊎ (12 + 4 ≤ o)). Set-other n₁ 12 0 n₂ o s₂ h in
    fields-EmptyLeaf n₇ r p
      (s₇.size ∙ s₆.size ∙ s₅.size ∙ s₄.size ∙ s₃.size ∙ s₂.size ∙ s₁.size ∙ l)
      (k₇ 0 (inl (omega arith))
        ∙ k₆ 0 (inl (omega arith))
        ∙ k₅ 0 (inl (omega arith))
        ∙ k₄ 0 (inl (omega arith))
        ∙ k₃ 0 (inl (omega arith))
        ∙ k₂ 0 (inl (omega arith))
        ∙ s₁.here)
      (k₇ 12 (inr (omega arith))
        ∙ k₆ 12 (inr (omega arith))
        ∙ k₅ 12 (inl (omega arith))
        ∙ k₄ 12 (inl (omega arith))
        ∙ k₃ 12 (inl (omega arith))
        ∙ s₂.here)
      (k₇ 16 (inr (omega arith))
        ∙ k₆ 16 (inr (omega arith))
        ∙ k₅ 16 (inl (omega arith))
        ∙ k₄ 16 (inl (omega arith))
        ∙ s₃.here)
      (k₇ 20 (inr (omega arith)) ∙ k₆ 20 (inr (omega arith)) ∙ k₅ 20 (inl (omega arith)) ∙ s₄.here)
      (k₇ 24 (inr (omega arith)) ∙ k₆ 24 (inr (omega arith)) ∙ s₅.here)
      (k₇ 4 (inl (omega arith)) ∙ s₆.here) s₇.here

initialize_leaf_node-runs :
    (n₀ : Bytes) {n₁ n₂ n₃ n₄ n₅ n₆ n₇ : Bytes} (is_root : Bool) (parent : ℕ)
    → set_word n₀ 0 2 ≡ ok n₁
    → set_word n₁ 12 0 ≡ ok n₂
    → set_word n₂ 16 page_size ≡ ok n₃
    → set_word n₃ 20 0 ≡ ok n₄
    → set_word n₄ 24 0 ≡ ok n₅
    → set_word n₅ 4 (of_bool is_root) ≡ ok n₆
    → set_word n₆ 8 parent ≡ ok n₇
    → initialize_leaf_node n₀ is_root parent ≡ ok n₇
unfolding initialize_leaf_node set_node_type set_leaf_node_num_cells set_leaf_node_alloc_ptr
    set_leaf_node_free_list_head set_leaf_node_total_free_list_space set_node_is_root
    set_parent_page_num
initialize_leaf_node-runs n₀ r p e₁ e₂ e₃ e₄ e₅ e₆ e₇ = rw (e₁, e₂, e₃, e₄, e₅, e₆, e₇) refl

-- A number that fits can be set in the header of a page.
header_word :
    (node : Bytes) (offset v : ℕ)
    → length node ≡ page_size
    → offset ≤ 24
    → v < 256 ^ 4
    → (node' : Bytes) × (set_word node offset v ≡ ok node')
      × Set node offset v node'
      × (length node' ≡ page_size)
header_word node offset v l o h =
    let (node', e, s) = set_word_ok node offset v h (omega (arith, l)) in (node', e, s, s.size ∙ l)

-- A page becomes an empty leaf, whatever its bytes were.
pub initialize_leaf_node-EmptyLeaf :
    (node : Bytes) (is_root : Bool) (parent : ℕ)
    → length node ≡ page_size
    → parent < 256 ^ 4
    → (node' : Bytes) × (initialize_leaf_node node is_root parent ≡ ok node')
      × EmptyLeaf node' is_root parent
initialize_leaf_node-EmptyLeaf node is_root parent l small =
    let (n₁, e₁, s₁, l₁) = header_word node 0 2 l (omega arith) (omega arith) in
    let (n₂, e₂, s₂, l₂) = header_word n₁ 12 0 l₁ (omega arith) (omega arith) in
    let (n₃, e₃, s₃, l₃) = header_word n₂ 16 page_size l₂ (omega arith) (omega arith) in
    let (n₄, e₄, s₄, l₄) = header_word n₃ 20 0 l₃ (omega arith) (omega arith) in
    let (n₅, e₅, s₅, l₅) = header_word n₄ 24 0 l₄ (omega arith) (omega arith) in
    let (n₆, e₆, s₆, l₆) =
      header_word n₅ 4 (of_bool is_root) l₅ (omega arith) (bool_fits is_root) in
    let (n₇, e₇, s₇, l₇) = header_word n₆ 8 parent l₆ (omega arith) small in
    (
      n₇,
      initialize_leaf_node-runs node is_root parent e₁ e₂ e₃ e₄ e₅ e₆ e₇,
      sets-EmptyLeaf is_root parent l s₁ s₂ s₃ s₄ s₅ s₆ s₇,
    )
