-- ===== src/Query/Filtered.antt =====
-- The clauses of learndb/virtual_machine.py that make a record set from another one: where, order by and
-- limit, on the record sets as a function from names.
use learndb_py.Prelude.{
  ℕ, ◌+◌, ◌≡◌, refl, ap, ◌∙◌, subst, Bool, some, List, [], ◌∷◌, ◌++◌, if◌then◌else◌, Result, ok,
  ◌>>=◌, >>=-eq-ok, Bool-cases, inl, inr, ℤ, pos, ltb_ℤ,
}
use learndb_py.Bytes.Utf8.{Text}
use learndb_py.Datatypes.{FloatFormat}
use learndb_py.Values.{FloatOps}
use learndb_py.Syntax.{Symbol, OrderedColumn}
use learndb_py.Rows.{Schema, Row}
use learndb_py.Interp.{evaluate_over_record}
use learndb_py.Store.{Store, init_recordset, append_recordset, recordset_iter}
use learndb_py.Store.Sets.{view, init_recordset-view}
use learndb_py.Query.Sources.{source_schema, expect_bool}
use learndb_py.Query.{append_all, filter_records, filter_recordset, evaluate_order_by_clause}
use learndb_py.Query.Ordering.{select_rows, quicksort}
use learndb_py.Query.Held.{
  Holds, Holds-self, Holds-trans, Runs, append_first, stop_Runs, still_there, iterates, Makes,
}

module _ {R : Type 0} where
  pub append_all-Runs :
      (n : Text) (rs acc : List (Row R)) (s : Store R)
      → view s n ≡ some acc
      → Runs (append_all n rs s) s n (acc ++ rs)
  unfolding append_all
  append_all-Runs n [] acc s h = stop_Runs n acc s h
  append_all-Runs n (r ∷ rs) acc s h =
      append_first n r acc rs s (append_all n rs) h (append_all-Runs n rs (acc ++ r ∷ []))

  -- `records[:limit]` for the records from the position `i` on.
  abbrev pub first_from : ℤ → ℕ → List (Row R) → List (Row R)
  first_from limit i [] = []
  first_from limit i (r ∷ rs) = if ltb_ℤ (pos i) limit then r ∷ first_from limit (i + 1) rs else []

module _ (f : FloatFormat) (o : FloatOps f) where
  open f use {Real}

  -- Whether a record meets a condition.
  abbrev pub meets : Symbol Real → Row Real → Result Bool
  meets condition r = (evaluate_over_record f o condition r) >>= expect_bool

  filter_records-Runs :
      (condition : Symbol Real) (n : Text) (rs out acc : List (Row Real)) (s : Store Real)
      → select_rows (meets condition) rs ≡ ok out
      → view s n ≡ some acc
      → Runs (filter_records f o condition n rs s) s n (acc ++ out)
  unfolding filter_records select_rows
  filter_records-Runs condition n [] out acc s h k =
      subst (λ (q : List (Row Real)). Runs (ok s) s n (acc ++ q)) (cc h) (stop_Runs n acc s k)
  filter_records-Runs condition n (r ∷ rs) out acc s h k =
      let (b, eb, h') = >>=-eq-ok (meets condition r) _ h in
      let (rest, er, h'') = >>=-eq-ok (select_rows (meets condition) rs) _ h' in
      let (v, ev, ex) = >>=-eq-ok (evaluate_over_record f o condition r) expect_bool eb in
      elim (Bool-cases b) [
        | inl e ↦
            let same : r ∷ rest ≡ out = cc (rw e at h'') in
            rw (ev, ex, e)
              (subst
                (λ (q : List (Row Real)).
                  Runs ((append_recordset s n r) >>= filter_records f o condition n rs) s n
                    (acc ++ q))
                same
                (append_first n r acc rest s (filter_records f o condition n rs) k
                  (λ t. filter_records-Runs condition n rs rest (acc ++ r ∷ []) t er)))
        | inr e ↦
            let same : rest ≡ out = cc (rw e at h'') in
            rw (ev, ex, e) (filter_records-Runs condition n rs out acc s (er ∙ ap ok same) k)
      ]

  -- The frame that the clauses share.
  from_source :
      (s : Store Real) (source n : Text) (schema : Schema) (s' : Store Real)
      (rs out : List (Row Real)) (loop : Text → List (Row Real) → Store Real → Result (Store Real))
      → source_schema s source ≡ ok schema
      → init_recordset s schema ≡ ok (n, s')
      → view s source ≡ some rs
      → (view s' n ≡ some [] → Runs (loop n rs s') s' n out)
      → Makes s n out (do
        schema' ← source_schema s source
        (rsname, u) ← init_recordset s schema'
        records ← recordset_iter u source
        t ← loop rsname records u
        ok (rsname, t))
  from_source s source n schema s' rs out loop hs hi hv run =
      let (fresh, reads) = init_recordset-view s s' schema n hi in
      let begun : Holds s s' n [] = record { reads = reads } in
      let (t, runs, holds) = run (Holds-self begun) in
      let kept : recordset_iter s' source ≡ ok rs =
        iterates s' source rs (still_there s s' source n rs hv fresh reads) in
      (t, rw (hs, hi, kept, runs) refl, fresh, (Holds-trans begun holds).reads)

  module _ (s : Store Real) (source n : Text) (schema : Schema) (s' : Store Real)
      (rs : List (Row Real)) (hs : source_schema s source ≡ ok schema)
      (hi : init_recordset s schema ≡ ok (n, s')) (hv : view s source ≡ some rs) where
    -- A where clause makes a new record set, under a name that no scope had, of those records of its source
    -- that meet the condition, in their order, where the condition is a bool on each of them. No other record
    -- set changes.
    pub filter_recordset-view :
        (condition : Symbol Real) (out : List (Row Real))
        → select_rows (meets condition) rs ≡ ok out
        → Makes s n out (filter_recordset f o s condition source)
    unfolding filter_recordset
    filter_recordset-view condition out h =
        from_source s source n schema s' rs out (filter_records f o condition) hs hi hv
          (λ e. filter_records-Runs condition n rs out [] s' h e)

    pub evaluate_order_by_clause-view :
        (columns : List OrderedColumn) (out : List (Row Real))
        → quicksort f o columns rs ≡ ok out
        → Makes s n out (evaluate_order_by_clause f o s columns source)
    unfolding evaluate_order_by_clause
    evaluate_order_by_clause-view columns out h =
        let (fresh, reads) = init_recordset-view s s' schema n hi in
        let kept : recordset_iter s' source ≡ ok rs =
          iterates s' source rs (still_there s s' source n rs hv fresh reads) in
        let (t, runs, unused, made) =
          from_source s source n schema s' rs out (λ k qs. append_all k out) hs hi hv
            (λ e. append_all-Runs n out [] s' e) in
        (t, rw (hs, hi, kept, h) (rw (hs, hi, kept) at runs), unused, made)
