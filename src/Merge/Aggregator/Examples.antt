-- ===== src/Merge/Aggregator/Examples.antt =====
-- The aggregators of pkg/merge/aggregator over natural numbers
use arana.Prelude.{
  ℕ, ◌+◌, ◌/◌, ◌≡◌, refl, arith, Bool, false, Option, none, some, String, List, [], ◌∷◌, ltb, ◌==◌,
}
use arana.Prelude.Go.{ret, panic}
use arana.Dataset.Streams.{Outcome, ok, fault}
use arana.Dataset.Reduce.{RowValues, sum_decimal, max_decimal, min_decimal}
use arana.Merge.Aggregator.{
  must, add_value, max_value, min_value, aggregate, get_result, avg_aggregate, avg_result,
  aggregate_all,
}
use arana.Merge.Aggregator.Reducers.{Agrees, aggregators_agree}
use arana.Merge.Aggregator.Average.{sums_and_counts, sums, counts, avg_aggregate-sums}

abbrev read_number : ℕ → Outcome String ℕ
read_number v = ok v

abbrev no_number : ℕ → Outcome String ℕ
no_number v = fault "no decimal"

abbrev plus : ℕ → ℕ → ℕ
plus x y = x + y

abbrev greater : ℕ → ℕ → Bool
greater x y = ltb y x

abbrev numbers : RowValues String String (List (Option ℕ)) ℕ ℕ
numbers = record {
  scan = λ n r. fault "not scanned";
  is_binary = λ r. false;
  virtual_row = λ binary columns l. l;
  decimal = read_number;
  new_value_decimal = λ z. z;
}

abbrev more : List (Option ℕ)
more = some 9 ∷ none ∷ some 3 ∷ []

aggregators_agree_example :
    Agrees numbers (λ v. v) (sum_decimal plus) (add_value plus) (some 4) more
    × Agrees numbers (λ v. v) (max_decimal greater) (max_value ltb) (some 4) more
    × Agrees numbers (λ v. v) (min_decimal ltb) (min_value greater) (some 4) more
aggregators_agree_example =
    aggregators_agree numbers (λ v. v) plus ltb greater (some 4) more (λ w. refl) (λ z. refl)
      λ x y. refl

abbrev shards : List (Option ℕ × Option ℕ)
shards = (some 10, some 2) ∷ (none, some 0) ∷ (some 5, some 1) ∷ []

avg_aggregate-sums_example :
    (sum : Option ℕ) × (count : Option ℕ) × (aggregate_all
        (avg_aggregate read_number plus 0)
        (record { sum = none; count = none })
        (sums_and_counts shards)
      ≡ ret (record { sum = sum; count = count }))
    × (aggregate_all (aggregate read_number (add_value plus)) none (sums shards) ≡ ret sum)
    × (aggregate_all (aggregate read_number (add_value plus)) none (counts shards) ≡ ret count)
avg_aggregate-sums_example =
    avg_aggregate-sums read_number (λ v. v) plus 0 shards (λ v. refl) λ x. omega arith

average : avg_result {V = ℕ} (λ z. z) (λ x. x == 0) (λ x y. x / y) (some 15) (some 3) ≡ some 5
unfolding avg_result
average = refl

no_shard : avg_result {V = ℕ} (λ z. z) (λ x. x == 0) (λ x y. x / y) (some 15) (some 0) ≡ none
unfolding avg_result
no_shard = refl

largest : get_result {V = ℕ} (λ z. z) (some 9) ≡ some 9
unfolding get_result
largest = refl

unread : aggregate no_number (max_value ltb) none (some 4 ∷ []) ≡ panic
unfolding aggregate must
unread = refl
