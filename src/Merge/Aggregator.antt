-- ===== src/Merge/Aggregator.antt =====
-- pkg/merge/aggregator: the aggregators that merge what COUNT, SUM, MAX, MIN and AVG give for each
-- of the shards. Decimal of a value and the decimals of shopspring are parameters; where Decimal
-- fails, Aggregate panics.
use arana.Prelude.{◌≡◌, Bool, true, false, Option, none, some, List, [], ◌∷◌, if◌then◌else◌}
use arana.Prelude.Go.{Go, ret, panic, ◌>>=◌}
use arana.Dataset.Streams.{Outcome, ok, fault}
mod Reducers
mod Average
mod Examples

-- val, err := v.Decimal(), and panic on an error
unfoldable pub must : {E D : Type 0} → Outcome E D → Go D
must (ok val) = ret val
must (fault e) = panic

-- AddAggregator, MaxAggregator and MinAggregator keep a NullDecimal: none where it is not Valid.
module _ {D : Type 0} where
  unfoldable pub add_value : (D → D → D) → Option D → D → Option D
  add_value add none val = some val
  add_value add (some count) val = some (add count val)

  unfoldable pub max_value : (D → D → Bool) → Option D → D → Option D
  max_value less_than none val = some val
  max_value less_than (some max) val = if less_than max val then some val else some max

  unfoldable pub min_value : (D → D → Bool) → Option D → D → Option D
  min_value greater_than none val = some val
  min_value greater_than (some min) val = if greater_than min val then some val else some min

-- Aggregate, which is the same in the three but for what it does with the first value
unfoldable pub aggregate :
    {E V D : Type 0}
    → (V → Outcome E D)
    → (Option D → D → Option D)
    → Option D
    → List (Option V)
    → Go (Option D)
aggregate decimal update s [] = ret s
aggregate decimal update s (none ∷ values) = ret s
aggregate decimal update s (some v ∷ values) = must (decimal v) >>= λ val. ret (update s val)

-- GetResult; none is nil, false.
unfoldable pub get_result : {V D : Type 0} → (D → V) → Option D → Option V
get_result new_value_decimal none = none
get_result new_value_decimal (some d) = some (new_value_decimal d)

-- AvgAggregator
pub record Avg (D : Type 0) : Type 0 where
  pub sum : Option D
  pub count : Option D

-- One of the two sums, which begins at decimal.Zero
unfoldable pub add_to :
    {E V D : Type 0} → (V → Outcome E D) → (D → D → D) → D → Option D → Option V → Go (Option D)
add_to decimal add zero s none = ret s
add_to decimal add zero none (some v) = must (decimal v) >>= λ val. ret (some (add zero val))
add_to decimal add zero (some d) (some v) = must (decimal v) >>= λ val. ret (some (add d val))

-- AvgAggregator.Aggregate
unfoldable pub avg_aggregate :
    {E V D : Type 0} → (V → Outcome E D) → (D → D → D) → D → Avg D → List (Option V) → Go (Avg D)
avg_aggregate decimal add zero s [] = ret s
avg_aggregate decimal add zero s (v ∷ []) = ret s
avg_aggregate decimal add zero s (v ∷ w ∷ values) = add_to decimal add zero s.sum v >>= λ sum.
    add_to decimal add zero s.count w >>= λ count. ret (record { sum = sum; count = count })

-- AvgAggregator.GetResult
unfoldable pub avg_result :
    {V D : Type 0} → (D → V) → (D → Bool) → (D → D → D) → Option D → Option D → Option V
avg_result new_value_decimal is_zero div none count = none
avg_result new_value_decimal is_zero div (some sum) none = none
avg_result new_value_decimal is_zero div (some sum) (some count) =
    if is_zero count then none else some (new_value_decimal (div sum count))

-- An aggregator over the rows of the shards
unfoldable pub aggregate_all : {S V : Type 0} → (S → List V → Go S) → S → List (List V) → Go S
aggregate_all step s [] = ret s
aggregate_all step s (values ∷ rows) = step s values >>= λ t. aggregate_all step t rows
