-- ===== src/Query/Held.antt =====
-- Runs of loops that append to a record set, on the record sets as a function from names: what the clauses of
-- learndb/virtual_machine.py share.
use learndb_py.Prelude.{
  ◌≡◌, refl, sym, ap, ◌∙◌, subst, none, some, List, [], ◌∷◌, ◌++◌, append_assoc, append-nil, Result,
  ok, ◌>>=◌, Bool-cases, inl, inr,
}
use learndb_py.Bytes.Utf8.{Text}
use learndb_py.Names.{text_eq, text_eq_refl, text_eq_iff}
use learndb_py.Rows.{Row}
use learndb_py.Store.{Store, append_recordset, recordset_iter}
use learndb_py.Store.Sets.{view, changed, append_recordset-view}

-- Two stores apart in the record set of one name, which holds these records in the second one.
pub record Holds {R : Type 0} (s t : Store R) (n : Text) (rs : List (Row R)) : Type 0 where
  pub reads : (m : Text) → view t m ≡ changed (view s) n (some rs) m

module _ {R : Type 0} where
  pub Holds-self :
      {s t : Store R} {n : Text} {rs : List (Row R)} → Holds s t n rs → view t n ≡ some rs
  Holds-self {n = n} h = h.reads n ∙ rw (text_eq_refl n) refl

  pub Holds-trans :
      {s t u : Store R} {n : Text} {rs qs : List (Row R)}
      → Holds s t n rs
      → Holds t u n qs
      → Holds s u n qs
  Holds-trans {n = n} h k = record {
    reads = λ m. elim (Bool-cases (text_eq n m)) [
      | inl e ↦ k.reads m ∙ rw e refl
      | inr e ↦ k.reads m ∙ rw e (h.reads m ∙ rw e refl)
    ];
  }

  -- A run of a loop over a store, which holds `out` under a name behind it.
  abbrev pub Runs : Result (Store R) → Store R → Text → List (Row R) → Type 0
  Runs m s n out = (t : Store R) × (m ≡ ok t) × Holds s t n out

  pub same_Holds :
      (s : Store R) (n : Text) (rs : List (Row R)) → view s n ≡ some rs → Holds s s n rs
  same_Holds s n rs h = record {
    reads = λ m. elim (Bool-cases (text_eq n m)) [
      | inl e ↦ rw e (ap (view s) (sym ((text_eq_iff n m).0 e)) ∙ h)
      | inr e ↦ rw e refl
    ];
  }

  -- A loop that appends a record, and then appends others.
  pub append_first :
      (n : Text) (r : Row R) (acc out : List (Row R)) (s : Store R)
      (later : Store R → Result (Store R))
      → view s n ≡ some acc
      → ((t : Store R)
          → view t n ≡ some (acc ++ r ∷ [])
          → Runs (later t) t n ((acc ++ r ∷ []) ++ out))
      → Runs ((append_recordset s n r) >>= later) s n (acc ++ (r ∷ out))
  append_first n r acc out s later h next =
      let (t, runs, reads) = append_recordset-view s n r acc h in
      let holds : Holds s t n (acc ++ r ∷ []) = record { reads = reads } in
      let (u, runs', holds') = next t (Holds-self holds) in
      (
        u,
        rw runs runs',
        subst (Holds s u n) (append_assoc acc (r ∷ []) out) (Holds-trans holds holds'),
      )

  pub stop_Runs :
      (n : Text) (acc : List (Row R)) (s : Store R)
      → view s n ≡ some acc
      → Runs (ok s) s n (acc ++ [])
  stop_Runs n acc s h = (s, refl, rw append-nil (same_Holds s n acc h))

  pub still_there :
      (s t : Store R) (source n : Text) (rs : List (Row R))
      → view s source ≡ some rs
      → view s n ≡ none
      → ((m : Text) → view t m ≡ changed (view s) n (some []) m)
      → view t source ≡ some rs
  still_there s t source n rs h fresh reads = elim (Bool-cases (text_eq n source)) [
    | inl e ↦
        let same : n ≡ source = (text_eq_iff n source).0 e in
        absurd (cc (sym fresh ∙ ap (view s) same ∙ h))
    | inr e ↦ reads source ∙ rw e h
  ]

  pub iterates :
      (s : Store R) (n : Text) (rs : List (Row R)) → view s n ≡ some rs → recordset_iter s n ≡ ok rs
  unfolding recordset_iter
  iterates s n rs h = rw (h, recordset_iter) refl

  -- What the run of a clause over a record set is: a new record set with the records that are expected,
  -- under a name that no set has, beside the others.
  abbrev pub Makes : Store R → Text → List (Row R) → Result (Text × Store R) → Type 0
  Makes s n out m =
      (t : Store R) × (m ≡ ok (n, t))
      × (view s n ≡ none)
      × ((k : Text) → view t k ≡ changed (view s) n (some out) k)
