-- ===== src/Query/JoinedSets.antt =====
-- The record sets that the joins of learndb/virtual_machine.py make, and the joins that raise.
use learndb_py.Prelude.{◌≡◌, refl, ◌∙◌, Option, some, List, [], ok, ◌>>=◌}
use learndb_py.Bytes.Utf8.{Text}
use learndb_py.Datatypes.{FloatFormat}
use learndb_py.Values.{FloatOps}
use learndb_py.Syntax.{Symbol, inner, left_outer}
use learndb_py.Rows.{Schema, Row, Rows, from_schemas}
use learndb_py.Store.{Store, init_recordset, recordset_iter}
use learndb_py.Store.Sets.{view, init_recordset-view}
use learndb_py.Query.Sources.{source_schema}
use learndb_py.Query.Held.{Holds, Holds-self, Holds-trans, Runs, still_there, iterates, Makes}
use learndb_py.Query.Joins.{JoinClause, run_join, join_recordset}
use learndb_py.Query.Joined.{InnerRows, LeftRows, inner_join-Runs, left_join-Runs}

module _ (f : FloatFormat) (o : FloatOps f) where
  open f use {Real}

  -- What a join starts from: two record sets, their schemas and that of the joined rows, and a new record set.
  pub record JoinOf (s : Store Real) (left right : Text) (left_sname : Option Text)
      (right_sname n : Text) (lefts rights : List (Row Real)) : Type 0 where
    pub left_schema : Schema
    pub right_schema : Schema
    pub schema : Schema
    pub begun : Store Real
    pub reads_left : source_schema s left ≡ ok left_schema
    pub reads_right : source_schema s right ≡ ok right_schema
    pub joins : from_schemas left_schema right_schema left_sname right_sname ≡ ok schema
    pub inits : init_recordset s schema ≡ ok (n, begun)
    pub holds_left : view s left ≡ some lefts
    pub holds_right : view s right ≡ some rights

  module _ (s : Store Real) (left right : Text) (left_sname : Option Text) (right_sname n : Text)
      (lefts rights : List (Row Real))
      (j : JoinOf s left right left_sname right_sname n lefts rights) where
    -- What the join does behind its setup.
    join-runs :
        (clause : JoinClause Real)
        → join_recordset f o s clause left right left_sname right_sname ≡ (
            (run_join f o clause.condition n left_sname right_sname j.schema clause.join_type
              j.left_schema j.right_schema lefts rights j.begun)
            >>= (λ t. ok (n, t)))
    unfolding join_recordset
    join-runs clause =
        let (fresh, reads) = init_recordset-view s j.begun j.schema n j.inits in
        let l : recordset_iter j.begun left ≡ ok lefts =
          iterates j.begun left lefts
            (still_there s j.begun left n lefts j.holds_left fresh reads) in
        let r : recordset_iter j.begun right ≡ ok rights =
          iterates j.begun right rights
            (still_there s j.begun right n rights j.holds_right fresh reads) in
        rw (j.reads_left, j.reads_right, j.joins, j.inits, l, r) refl

    join-Makes :
        (clause : JoinClause Real) (out : List (Row Real))
        → (view j.begun n ≡ some []
            → Runs
                (run_join f o clause.condition n left_sname right_sname j.schema clause.join_type
                  j.left_schema j.right_schema lefts rights j.begun)
                j.begun
                n
                out)
        → Makes s n out (join_recordset f o s clause left right left_sname right_sname)
    join-Makes clause out run =
        let (fresh, reads) = init_recordset-view s j.begun j.schema n j.inits in
        let held : Holds s j.begun n [] = record { reads = reads } in
        let (t, runs, holds) = run (Holds-self held) in
        (t, join-runs clause ∙ rw runs refl, fresh, (Holds-trans held holds).reads)

    -- An inner join of two record sets makes a new one, under a name that no scope had, of the rows for the
    -- pairs of records with which its condition is truthy: the left records in their order, and for each of
    -- them the right records in theirs. No other record set changes.
    pub inner_join-Makes :
        (condition : Symbol Real) (out : List (Row Real))
        → InnerRows f o condition left_sname right_sname j.schema rights lefts out
        → Makes s n out (
            join_recordset f o s
              (record { join_type = inner; condition = condition })
              left
              right
              left_sname
              right_sname)
    unfolding run_join
    inner_join-Makes condition out d =
        join-Makes (record { join_type = inner; condition = condition }) out
          (λ k.
            inner_join-Runs f o condition left_sname right_sname j.schema n lefts rights out []
              j.begun d k)

    -- A left outer join makes a new record set, under a name that no scope had, with the rows of the inner
    -- join, where a left record with which no right record meets the condition stands beside nulls in its
    -- place. No other record set changes.
    pub left_join-Makes :
        (condition : Symbol Real) (out : List (Row Real))
        → LeftRows f o condition left_sname right_sname j.schema j.right_schema rights lefts out
        → Makes s n out (
            join_recordset f o s
              (record { join_type = left_outer; condition = condition })
              left
              right
              left_sname
              right_sname)
    unfolding run_join
    left_join-Makes condition out d =
        join-Makes (record { join_type = left_outer; condition = condition }) out
          (λ k.
            left_join-Runs f o condition left_sname right_sname j.schema n j.right_schema lefts
              rights out [] j.begun d k)
