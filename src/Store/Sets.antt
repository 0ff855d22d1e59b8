-- ===== src/Store/Sets.antt =====
-- The record sets of learndb/statemanager.py as a function from names, which forgets the scopes.
use learndb_py.Prelude.{
  ◌≡◌, refl, ◌∙◌, ap, sym, subst, Bool, false, Option, none, some, List, [], ◌∷◌, ◌++◌, arith,
  if◌then◌else◌, Result, ok, >>=-eq-ok, Option-cases, inl, inr,
}
use learndb_py.Bytes.Utf8.{Text}
use learndb_py.Names.{text_eq, text_eq_iff}
use learndb_py.Dict
use learndb_py.Rows.{Schema, Row}
use learndb_py.Store.{
  Scope, Store, find_set, find_recordset_scope, unique_name, has_set, add_recordset, add_to_first,
  init_recordset, append_to, append_recordset,
}

-- A function that is changed at one name.
abbrev pub changed : {A : Type 0} → (Text → A) → Text → A → Text → A
changed v n a m = if text_eq n m then a else v m

unique_name-fresh :
    (prefix : Text) (taken : Text → Bool) (ds : List Text) (n : Text) (es : List Text)
    → unique_name prefix taken ds ≡ ok (n, es)
    → taken n ≡ false
unfolding unique_name
unique_name-fresh prefix taken [] n es h = cc
unique_name-fresh prefix taken (d ∷ ds) n es h =
    ground (arith, unique_name-fresh prefix taken ds n es)

module _ {R : Type 0} where
  abbrev pub view : Store R → Text → Option (List (Row R))
  view s name = find_set name s.scopes

  has_set-find_set : (n : Text) (cs : List (Scope R)) → has_set cs n ≡ Dict.has (find_set n cs)
  unfolding has_set find_set find_recordset_scope
  has_set-find_set n [] = refl
  has_set-find_set n (c ∷ cs) = ground (arith, has_set-find_set n cs)

  append_here :
      (n : Text) (r : Row R) (c : Scope R) (cs : List (Scope R)) (rs : List (Row R)) (m : Text)
      → Dict.get n c.record_sets ≡ some rs
      → find_set m (record c { record_sets = Dict.set n (rs ++ r ∷ []) c.record_sets } ∷ cs)
        ≡ changed (λ k. find_set k (c ∷ cs)) n (some (rs ++ r ∷ [])) m
  unfolding find_set
  append_here n r c cs rs m e =
      ground (arith, Dict.get-set n m (rs ++ r ∷ []) c.record_sets, text_eq_iff n m)

  append_below :
      (n : Text) (c : Scope R) (cs ds : List (Scope R)) (v : Option (List (Row R))) (m : Text)
      → Dict.get n c.record_sets ≡ none
      → find_set m ds ≡ changed (λ k. find_set k cs) n v m
      → find_set m (c ∷ ds) ≡ changed (λ k. find_set k (c ∷ cs)) n v m
  unfolding find_set
  append_below n c cs ds v m e h = ground (arith, text_eq_iff n m)

  append_to-view :
      (n : Text) (r : Row R) (cs : List (Scope R)) (rs : List (Row R))
      → find_set n cs ≡ some rs
      → (ds : List (Scope R)) × (append_to n r cs ≡ ok ds)
        × ((m : Text) → find_set m ds ≡ changed (λ k. find_set k cs) n (some (rs ++ r ∷ [])) m)
  unfolding append_to find_set
  append_to-view n r [] rs h = cc
  append_to-view n r (c ∷ cs) rs h = elim (Option-cases (Dict.get n c.record_sets)) [
    | inl e ↦
        let (ds, runs, v) = append_to-view n r cs rs (rw (e, find_set) at h) in
        (
          c ∷ ds,
          rw (e, append_to, runs) refl,
          λ m. append_below n c cs ds (some (rs ++ r ∷ [])) m e (v m),
        )
    | inr (qs, e) ↦
        let same : qs ≡ rs = cc (rw (e, find_set) at h) in
        (
          record c { record_sets = Dict.set n (rs ++ r ∷ []) c.record_sets } ∷ cs,
          let e2 : Dict.get n c.record_sets ≡ some rs = e ∙ ap some same in rw (e2, append_to) refl,
          λ m. append_here n r c cs rs m (e ∙ ap some same),
        )
  ]

  add_first-view :
      (n : Text) (schema : Schema) (cs ds : List (Scope R)) (m : Text)
      → add_to_first (add_recordset n schema) cs ≡ ok ds
      → find_set m ds ≡ changed (λ k. find_set k cs) n (some []) m
  unfolding find_set add_recordset
  add_first-view n schema [] ds m h = cc
  add_first-view n schema (c ∷ cs) ds m h =
      let same : add_recordset n schema c ∷ cs ≡ ds = cc h in
      subst
        (λ (es : List (Scope R)). find_set m es ≡ changed (λ k. find_set k (c ∷ cs)) n (some []) m)
        same (ground (arith, Dict.get-set n m [] c.record_sets, text_eq_iff n m))

  not_has : (x : Option (List (Row R))) → Dict.has x ≡ false → x ≡ none
  not_has none h = refl
  not_has (some rs) h = cc

  returned :
      (s t : Store R) (k n : Text) (ds : List (Scope R)) (draws : List Text)
      → ◌≡◌ {A = Result (Text × Store R)}
          (ok (k, record s { scopes = ds; draws = draws }))
          (ok (n, t))
      → (k ≡ n) × (ds ≡ t.scopes)
  returned s t k n ds draws h = (cc, ground arith)

  -- A new record set has a name that no scope has, and is empty.
  pub init_recordset-view :
      (s t : Store R) (schema : Schema) (n : Text)
      → init_recordset s schema ≡ ok (n, t)
      → (view s n ≡ none) × ((m : Text) → view t m ≡ changed (view s) n (some []) m)
  unfolding init_recordset
  init_recordset-view s t schema n h =
      let ((k, draws), e, h') =
        >>=-eq-ok (unique_name (b'r' ∷ []) (has_set s.scopes) s.draws) _ h in
      let (ds, q, h'') = >>=-eq-ok (add_to_first (add_recordset k schema) s.scopes) _ h' in
      let (same, scopes) = returned s t k n ds draws h'' in
      let fresh : find_set k s.scopes ≡ none = not_has (find_set k s.scopes) (
        sym (has_set-find_set k s.scopes)
        ∙ unique_name-fresh (b'r' ∷ []) (has_set s.scopes) s.draws k draws e) in
      (
        rw (← same) fresh,
        λ m.
            subst (λ (j : Text). view t m ≡ changed (view s) j (some []) m) same
              (subst (λ (es : List (Scope R)). find_set m es ≡ changed (view s) k (some []) m)
                scopes (add_first-view k schema s.scopes ds m q)),
      )

  pub append_recordset-view :
      (s : Store R) (n : Text) (r : Row R) (rs : List (Row R))
      → view s n ≡ some rs
      → (t : Store R) × (append_recordset s n r ≡ ok t)
        × ((m : Text) → view t m ≡ changed (view s) n (some (rs ++ r ∷ [])) m)
  unfolding append_recordset
  append_recordset-view s n r rs h =
      let (ds, runs, v) = append_to-view n r s.scopes rs h in
      (record s { scopes = ds }, rw runs refl, v)
