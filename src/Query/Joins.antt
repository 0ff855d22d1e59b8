-- ===== src/Query/Joins.antt =====
-- learndb/virtual_machine.py: `join_recordset`, with its five kinds of joins.
use learndb_py.Prelude.{
  Bool, true, false, not, Option, List, [], ◌∷◌, if◌then◌else◌, Result, ok, err, Error, type_err,
  ◌>>=◌, pos, eqb_ℤ,
}
use learndb_py.Bytes.Utf8.{Text}
use learndb_py.Datatypes.{FloatFormat, Value, null, int, real, str, blob, bool}
use learndb_py.Records.{create_null_record}
use learndb_py.Values.{FloatOps}
use learndb_py.Syntax.{Symbol, JoinType, inner, left_outer, right_outer, full_outer, cross}
use learndb_py.Rows.{Schema, Row, columns, from_records, from_schemas}
use learndb_py.Store.{Store, init_recordset, append_recordset, recordset_iter}
use learndb_py.Interp.{evaluate_over_record}
use learndb_py.Query.Sources.{source_schema}

-- A joining, with its condition where it has one.
pub record JoinClause (R : Type 0) : Type 0 where
  pub join_type : JoinType
  pub condition : Symbol R

-- `[False for _ in records]`
unfoldable pub unjoined : {R : Type 0} → List (Row R) → List Bool
unjoined [] = []
unjoined (r ∷ rs) = false ∷ unjoined rs

-- `create_null_record(schema)`, which reads only the columns of the schema.
unfoldable pub null_row : {R : Type 0} → Schema → Row R
null_row (Schema.simple s) = Row.simple (create_null_record s)
null_row (Schema.scoped ss) =
    Row.simple (create_null_record (record { name = []; cols = columns (Schema.scoped ss) }))

module _ (f : FloatFormat) (o : FloatOps f) where
  open f use {Real}
  open o use {equal_int}

  -- `if value:`
  unfoldable pub is_truthy : Value Real → Bool
  is_truthy null = false
  is_truthy (int i) = not (eqb_ℤ i (pos 0))
  is_truthy (real r) = not (equal_int r (pos 0))
  is_truthy (str []) = false
  is_truthy (str (c ∷ s)) = true
  is_truthy (blob []) = false
  is_truthy (blob (b ∷ bs)) = true
  is_truthy (bool b) = b

  module _ (condition : Symbol Real) (rsname : Text) (left_sname : Option Text) (right_sname : Text)
      (schema : Schema) where
    -- The body of the inner loop of the conditioned joins: a pair that meets the condition is appended.
    unfoldable pub join_pair : Row Real → Row Real → Store Real → Result (Bool × Store Real)
    unfolding is_truthy
    join_pair left right s = do
      r ← from_records left right left_sname right_sname schema
      v ← evaluate_over_record f o condition r
      let appended = (do t ← append_recordset s rsname r; ok (true, t))
      if is_truthy v then appended else ok (false, s)

    -- The inner loop over the right records: whether one of them was joined, and which of them have been
    -- joined so far, where the join keeps that.
    unfoldable pub join_right :
        Row Real
        → List (Row Real)
        → List Bool
        → Bool
        → Store Real
        → Result (Bool × List Bool × Store Real)
    unfolding join_pair
    join_right left [] flags added s = ok (added, flags, s)
    join_right left (r ∷ rs) [] added s = err Error.index
    join_right left (r ∷ rs) (b ∷ flags) added s = do
      (joined, s') ← join_pair left r s
      (added', flags', t) ← join_right left rs flags (if joined then true else added) s'
      ok (added', (if joined then true else b) ∷ flags', t)

    -- The loop of an inner join.
    unfoldable pub inner_join : List (Row Real) → List (Row Real) → Store Real → Result (Store Real)
    unfolding join_right unjoined
    inner_join [] rights s = ok s
    inner_join (left ∷ lefts) rights s = do
      (added, flags, s') ← join_right left rights (unjoined rights) false s
      inner_join lefts rights s'

    -- A left record beside a right record of nulls.
    unfoldable pub append_left : Row Real → Schema → Store Real → Result (Store Real)
    unfolding null_row
    append_left left right_schema s = do
      r ← from_records left (null_row right_schema) left_sname right_sname schema
      append_recordset s rsname r

    -- The loop of a left outer join.
    unfoldable pub left_join :
        Schema → List (Row Real) → List (Row Real) → Store Real → Result (Store Real)
    unfolding join_right unjoined append_left
    left_join right_schema [] rights s = ok s
    left_join right_schema (left ∷ lefts) rights s = do
      (added, flags, s') ← join_right left rights (unjoined rights) false s
      t ← if added then ok s' else append_left left right_schema s'
      left_join right_schema lefts rights t

    -- The loop of a right outer join over the left records, which keeps what has been joined.
    unfoldable pub right_join_left :
        List (Row Real) → List (Row Real) → List Bool → Store Real → Result (List Bool × Store Real)
    unfolding join_right
    right_join_left [] rights flags s = ok (flags, s)
    right_join_left (left ∷ lefts) rights flags s = do
      (added, flags', s') ← join_right left rights flags false s
      right_join_left lefts rights flags' s'

    -- The loop over the right records that have not been joined.
    unfoldable pub append_unjoined :
        Schema → List (Row Real) → List Bool → Store Real → Result (Store Real)
    unfolding null_row
    append_unjoined left_schema [] flags s = ok s
    append_unjoined left_schema (right ∷ rights) [] s = err Error.index
    append_unjoined left_schema (right ∷ rights) (b ∷ flags) s =
        (if b then ok s else (do
          r ← from_records (null_row left_schema) right left_sname right_sname schema
          append_recordset s rsname r))
        >>= append_unjoined left_schema rights flags

    -- The loop of a full outer join over the left records. `left_record_added` is set once before the loop,
    -- and not again in it.
    unfoldable pub full_join_left :
        Schema
        → List (Row Real)
        → List (Row Real)
        → List Bool
        → Bool
        → Store Real
        → Result (List Bool × Store Real)
    unfolding join_right append_left
    full_join_left right_schema [] rights flags added s = ok (flags, s)
    full_join_left right_schema (left ∷ lefts) rights flags added s = do
      (added', flags', s') ← join_right left rights flags added s
      t ← if added' then ok s' else append_left left right_schema s'
      full_join_left right_schema lefts rights flags' added' t

    -- The loop behind it, `for index, right_rec in recordset`, takes each record for a pair.
    unfoldable pub full_join_rest : List (Row Real) → Store Real → Result (Store Real)
    full_join_rest [] s = ok s
    full_join_rest (right ∷ rights) s = err type_err

    -- The loops of a cross join.
    unfoldable pub cross_right : Row Real → List (Row Real) → Store Real → Result (Store Real)
    cross_right left [] s = ok s
    cross_right left (right ∷ rights) s = do
      r ← from_records left right left_sname right_sname schema
      t ← append_recordset s rsname r
      cross_right left rights t

    unfoldable pub cross_join : List (Row Real) → List (Row Real) → Store Real → Result (Store Real)
    unfolding cross_right
    cross_join [] rights s = ok s
    cross_join (left ∷ lefts) rights s = (cross_right left rights s) >>= cross_join lefts rights

    -- The loops of a join, by its kind.
    unfoldable pub run_join :
        JoinType
        → Schema
        → Schema
        → List (Row Real)
        → List (Row Real)
        → Store Real
        → Result (Store Real)
    unfolding inner_join left_join right_join_left append_unjoined full_join_left full_join_rest
        cross_join unjoined
    run_join inner ls rs lefts rights s = inner_join lefts rights s
    run_join left_outer ls rs lefts rights s = left_join rs lefts rights s
    run_join right_outer ls rs lefts rights s = do
      (flags, t) ← right_join_left lefts rights (unjoined rights) s
      append_unjoined ls rights flags t
    run_join full_outer ls rs lefts rights s = do
      (flags, t) ← full_join_left rs lefts rights (unjoined rights) false s
      full_join_rest rights t
    run_join cross ls rs lefts rights s = cross_join lefts rights s

  -- `join_recordset`
  unfoldable pub join_recordset :
      Store Real → JoinClause Real → Text → Text → Option Text → Text → Result (Text × Store Real)
  unfolding source_schema run_join
  join_recordset s clause left_rsname right_rsname left_sname right_sname = do
    left_schema ← source_schema s left_rsname
    right_schema ← source_schema s right_rsname
    schema ← from_schemas left_schema right_schema left_sname right_sname
    (rsname, s') ← init_recordset s schema
    lefts ← recordset_iter s' left_rsname
    rights ← recordset_iter s' right_rsname
    t ←
        run_join clause.condition rsname left_sname right_sname schema clause.join_type left_schema
          right_schema lefts rights s'
    ok (rsname, t)
