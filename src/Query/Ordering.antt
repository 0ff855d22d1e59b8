-- ===== src/Query/Ordering.antt =====
-- learndb/virtual_machine.py: `quicksort`, which sorts records by the columns of an order by clause.
pub mod Compare
pub mod Tests
pub mod Partition
pub mod Parts
pub mod Sorted
use learndb_py.Prelude.{
  ℕ, zero, suc, ◌/◌, Bool, true, false, not, Option, none, some, List, [], ◌∷◌, ◌++◌, length, leb,
  get_elem?, if◌then◌else◌, Result, ok, err, Error, index, ◌>>=◌,
}
use learndb_py.Datatypes.{FloatFormat, Value}
use learndb_py.Values.{FloatOps, less_values, equal_values}
use learndb_py.Syntax.{OrderedColumn, OrderingQualifier, ascending, descending}
use learndb_py.Rows.{Row, row_get}

-- The records for which a loop appends.
unfoldable pub select_rows :
    {R : Type 0} → (Row R → Result Bool) → List (Row R) → Result (List (Row R))
select_rows test [] = ok []
select_rows test (r ∷ rs) = do
  b ← test r
  kept ← select_rows test rs
  ok (if b then r ∷ kept else kept)

module _ (f : FloatFormat) (o : FloatOps f) where
  open f use {Real}

  -- Two tests, of which the second one is made where the first one fails: `first` ends the loop over the
  -- columns with True, and `second` with False.
  unfoldable pub decide_by : Result Bool → Result Bool → Result Bool → Result Bool
  decide_by first second rest = first >>= (λ a.
      let more = second >>= (λ b. if b then ok false else rest) in if a then ok true else more)

  -- Whether a record goes to the left of the pivot.
  unfoldable pub goes_left : List OrderedColumn → Row Real → Row Real → Result Bool
  unfolding decide_by
  goes_left [] r pivot = ok false
  goes_left (c ∷ cs) r pivot = do
    v ← row_get r c.column
    p ← row_get pivot c.column
    elim c.qualifier [
      | descending ↦ decide_by (less_values f o p v) (less_values f o v p) (goes_left cs r pivot)
      | ascending ↦ decide_by (less_values f o v p) (less_values f o p v) (goes_left cs r pivot)
    ]

  -- Whether it has the values of the pivot in all columns.
  unfoldable pub is_same : List OrderedColumn → Row Real → Row Real → Result Bool
  is_same [] r pivot = ok true
  is_same (c ∷ cs) r pivot = do
    v ← row_get r c.column
    p ← row_get pivot c.column
    let rest = is_same cs r pivot
    if not (equal_values f o v p) then ok false else rest

  -- Whether it goes to the right of the pivot.
  unfoldable pub goes_right : List OrderedColumn → Row Real → Row Real → Result Bool
  unfolding decide_by
  goes_right [] r pivot = ok false
  goes_right (c ∷ cs) r pivot = do
    v ← row_get r c.column
    p ← row_get pivot c.column
    elim c.qualifier [
      | descending ↦ decide_by (less_values f o v p) (less_values f o p v) (goes_right cs r pivot)
      | ascending ↦ decide_by (less_values f o p v) (less_values f o v p) (goes_right cs r pivot)
    ]

  abbrev pub pivot_of : List (Row Real) → Result (Row Real)
  pivot_of rs = elim (get_elem? rs (length rs / 2)) [ none ↦ err index | some p ↦ ok p ]

  -- `quicksort`, with fuel for the depth of the recursion.
  unfoldable pub sort_within : ℕ → List OrderedColumn → List (Row Real) → Result (List (Row Real))
  unfolding select_rows goes_left is_same goes_right
  sort_within zero columns rs = err Error.stuck
  sort_within (suc fuel) columns rs =
      let sorted = (do
        pivot ← pivot_of rs
        left ← select_rows (λ r. goes_left columns r pivot) rs
        middle ← select_rows (λ r. is_same columns r pivot) rs
        right ← select_rows (λ r. goes_right columns r pivot) rs
        before ← sort_within fuel columns left
        after ← sort_within fuel columns right
        ok (before ++ (middle ++ after))) in
      if leb (length rs) 1 then ok rs else sorted

  unfoldable pub quicksort : List OrderedColumn → List (Row Real) → Result (List (Row Real))
  unfolding sort_within
  quicksort columns rs = sort_within (suc (length rs)) columns rs
