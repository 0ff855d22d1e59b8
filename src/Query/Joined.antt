-- ===== src/Query/Joined.antt =====
-- The loops of the joins in learndb/virtual_machine.py, beside the rows that a join stands for.
use learndb_py.Prelude.{
  ◌≡◌, refl, ◌∙◌, subst, Bool, true, false, Option, some, List, [], ◌∷◌, ◌++◌, append_assoc,
  append-nil, arith, if◌then◌else◌, ok,
}
use learndb_py.Bytes.Utf8.{Text}
use learndb_py.Datatypes.{FloatFormat, Value}
use learndb_py.Values.{FloatOps}
use learndb_py.Syntax.{Symbol}
use learndb_py.Rows.{Schema, Row, from_records}
use learndb_py.Interp.{evaluate_over_record}
use learndb_py.Store.{Store, append_recordset}
use learndb_py.Store.Sets.{view, append_recordset-view}
use learndb_py.Query.Held.{
  Holds, Holds-self, Holds-trans, Runs, same_Holds, append_first, stop_Runs,
}
use learndb_py.Query.Joins.{
  is_truthy, join_pair, join_right, unjoined, inner_join, left_join, append_left, null_row,
}

abbrev pub has_rows : {R : Type 0} → List (Row R) → Bool
has_rows [] = false
has_rows (r ∷ rs) = true

module _ (f : FloatFormat) (o : FloatOps f) where
  open f use {Real}

  module _ (condition : Symbol Real) (left_sname : Option Text) (right_sname : Text)
      (schema : Schema) where
    -- The joined rows of one left record: those with the right records with which the condition is truthy, in
    -- the order of the right records.
    pub data JoinedRows (left : Row Real) : List (Row Real) → List (Row Real) → Type 0 where
      no_right : JoinedRows left [] []
      joined :
          {right row : Row Real} {v : Value Real} {rights out : List (Row Real)}
          → from_records left right left_sname right_sname schema ≡ ok row
          → evaluate_over_record f o condition row ≡ ok v
          → is_truthy f o v ≡ true
          → JoinedRows left rights out
          → JoinedRows left (right ∷ rights) (row ∷ out)
      apart :
          {right row : Row Real} {v : Value Real} {rights out : List (Row Real)}
          → from_records left right left_sname right_sname schema ≡ ok row
          → evaluate_over_record f o condition row ≡ ok v
          → is_truthy f o v ≡ false
          → JoinedRows left rights out
          → JoinedRows left (right ∷ rights) out

    -- The rows of an inner join: those of the left records, one left record after the other.
    pub data InnerRows (rights : List (Row Real)) : List (Row Real) → List (Row Real) → Type 0 where
      no_left : InnerRows rights [] []
      left_joined :
          {left : Row Real} {lefts here rest : List (Row Real)}
          → JoinedRows left rights here
          → InnerRows rights lefts rest
          → InnerRows rights (left ∷ lefts) (here ++ rest)

    -- The rows of a left outer join: a left record that joins with no right record stands beside nulls.
    pub data LeftRows (right_schema : Schema) (rights : List (Row Real))
        : List (Row Real) → List (Row Real) → Type 0 where
      no_left : LeftRows right_schema rights [] []
      left_joined :
          {left row : Row Real} {lefts here rest : List (Row Real)}
          → JoinedRows left rights (row ∷ here)
          → LeftRows right_schema rights lefts rest
          → LeftRows right_schema rights (left ∷ lefts) ((row ∷ here) ++ rest)
      left_alone :
          {left row : Row Real} {lefts rest : List (Row Real)}
          → JoinedRows left rights []
          → from_records left (null_row right_schema) left_sname right_sname schema ≡ ok row
          → LeftRows right_schema rights lefts rest
          → LeftRows right_schema rights (left ∷ lefts) (row ∷ rest)

    module _ (n : Text) where
      -- A run of the inner loop.
      abbrev Joins :
          Row Real
          → List (Row Real)
          → Bool
          → Store Real
          → List (Row Real)
          → List (Row Real)
          → Type 0
      Joins left rights added s acc out =
          (t : Store Real) × (flags : List Bool) × (join_right f o condition n left_sname
              right_sname schema left rights (unjoined rights) added s
            ≡ ok ((if has_rows out then true else added), flags, t))
          × Holds s t n (acc ++ out)

      pair_joined :
          (left right row : Row Real) (v : Value Real) (s t : Store Real)
          → from_records left right left_sname right_sname schema ≡ ok row
          → evaluate_over_record f o condition row ≡ ok v
          → is_truthy f o v ≡ true
          → append_recordset s n row ≡ ok t
          → join_pair f o condition n left_sname right_sname schema left right s ≡ ok (true, t)
      unfolding join_pair
      pair_joined left right row v s t er ev et ea = rw (er, ev, et, ea) refl

      pair_apart :
          (left right row : Row Real) (v : Value Real) (s : Store Real)
          → from_records left right left_sname right_sname schema ≡ ok row
          → evaluate_over_record f o condition row ≡ ok v
          → is_truthy f o v ≡ false
          → join_pair f o condition n left_sname right_sname schema left right s ≡ ok (false, s)
      unfolding join_pair
      pair_apart left right row v s er ev et = rw (er, ev, et) refl

      join_right-Joins :
          (left : Row Real) (rights out acc : List (Row Real)) (added : Bool) (s : Store Real)
          → JoinedRows left rights out
          → view s n ≡ some acc
          → Joins left rights added s acc out
      unfolding join_right unjoined
      join_right-Joins left [] [] acc added s no_right k =
          (s, [], refl, rw append-nil (same_Holds s n acc k))
      join_right-Joins left [] (row ∷ out) acc added s d k = elim d [ ]
      join_right-Joins left (right ∷ rights) (row ∷ out) acc added s (joined {v = v} er ev et d) k =
          let (s', runs, reads) = append_recordset-view s n row acc k in
          let held : Holds s s' n (acc ++ row ∷ []) = record { reads = reads } in
          let (t, flags, run, holds) =
            join_right-Joins left rights out (acc ++ row ∷ []) true s' d (Holds-self held) in
          (
            t,
            true ∷ flags,
            rw (pair_joined left right row v s s' er ev et runs, run) (ground arith),
            subst (Holds s t n) (append_assoc acc (row ∷ []) out) (Holds-trans held holds),
          )
      join_right-Joins left (right ∷ rights) out acc added s (apart {row = row} {v = v} er ev et d)
            k =
          let (t, flags, run, holds) = join_right-Joins left rights out acc added s d k in
          (t, false ∷ flags, rw (pair_apart left right row v s er ev et, run) refl, holds)

      pub inner_join-Runs :
          (lefts rights out acc : List (Row Real)) (s : Store Real)
          → InnerRows rights lefts out
          → view s n ≡ some acc
          → Runs
              (inner_join f o condition n left_sname right_sname schema lefts rights s)
              s
              n
              (acc ++ out)
      unfolding inner_join
      inner_join-Runs [] rights out acc s no_left k = stop_Runs n acc s k
      inner_join-Runs (left ∷ lefts) rights out acc s (left_joined {here = here} {rest = rest} d ds)
            k =
          let (s', flags, run, held) = join_right-Joins left rights here acc false s d k in
          let (t, runs, holds) =
            inner_join-Runs lefts rights rest (acc ++ here) s' ds (Holds-self held) in
          (
            t,
            rw (run, runs) refl,
            subst (Holds s t n) (append_assoc acc here rest) (Holds-trans held holds),
          )

      pub left_join-Runs :
          (right_schema : Schema) (lefts rights out acc : List (Row Real)) (s : Store Real)
          → LeftRows right_schema rights lefts out
          → view s n ≡ some acc
          → Runs
              (left_join f o condition n left_sname right_sname schema right_schema lefts rights s)
              s
              n
              (acc ++ out)
      unfolding left_join append_left
      left_join-Runs rs [] rights out acc s no_left k = stop_Runs n acc s k
      left_join-Runs rs (left ∷ lefts) rights out acc s
            (left_joined {row = row} {here = here} {rest = rest} d ds) k =
          let (s', flags, run, held) = join_right-Joins left rights (row ∷ here) acc false s d k in
          let (t, runs, holds) =
            left_join-Runs rs lefts rights rest (acc ++ row ∷ here) s' ds (Holds-self held) in
          (
            t,
            rw (run, runs) refl,
            subst (Holds s t n) (append_assoc acc (row ∷ here) rest) (Holds-trans held holds),
          )
      left_join-Runs rs (left ∷ lefts) rights out acc s
            (left_alone {row = row} {rest = rest} d e ds) k =
          let (s', flags, run, held) = join_right-Joins left rights [] acc false s d k in
          let k' : view s' n ≡ some acc = Holds-self held ∙ rw append-nil refl in
          let (t, runs, holds) =
            append_first n row acc rest s'
              (left_join f o condition n left_sname right_sname schema rs lefts rights) k'
              (λ u ku. left_join-Runs rs lefts rights rest (acc ++ row ∷ []) u ds ku) in
          (t, rw (run, e, runs) refl, Holds-trans held holds)
