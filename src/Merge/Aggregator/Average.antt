-- ===== src/Merge/Aggregator/Average.antt =====
-- AvgAggregator of pkg/merge/aggregator/avg_aggregator.go against two AddAggregators
use arana.Prelude.{◌≡◌, refl, Option, none, some, List, [], ◌∷◌, map}
use arana.Prelude.Go.{ret}
use arana.Dataset.Streams.{Outcome, ok}
use arana.Merge.Aggregator.{must, add_value, aggregate, add_to, avg_aggregate, aggregate_all}

-- The rows of the sums and the counts of the shards
abbrev pub sums_and_counts : {V : Type 0} → List (Option V × Option V) → List (List (Option V))
sums_and_counts l = map (λ p. p.0 ∷ p.1 ∷ []) l

abbrev pub sums : {V : Type 0} → List (Option V × Option V) → List (List (Option V))
sums l = map (λ p. p.0 ∷ []) l

abbrev pub counts : {V : Type 0} → List (Option V × Option V) → List (List (Option V))
counts l = map (λ p. p.1 ∷ []) l

module _ {E V D : Type 0} (decimal : V → Outcome E D) (dec : V → D) (add : D → D → D) (zero : D)
    (reads : (v : V) → decimal v ≡ ok (dec v)) (neutral : (x : D) → add zero x ≡ x) where
  add_to-aggregate :
      (s : Option D) (v : Option V)
      → (t : Option D) × (add_to decimal add zero s v ≡ ret t)
        × (aggregate decimal (add_value add) s (v ∷ []) ≡ ret t)
  unfolding add_to aggregate add_value must
  add_to-aggregate s none = (s, refl, refl)
  add_to-aggregate none (some v) = (some (dec v), rw (reads v, neutral) refl, rw (reads v) refl)
  add_to-aggregate (some d) (some v) = (some (add d (dec v)), rw (reads v) refl, rw (reads v) refl)

  avg_from-sums :
      (s t : Option D) (l : List (Option V × Option V))
      → (sum : Option D) × (count : Option D) × (aggregate_all
            (avg_aggregate decimal add zero)
            (record { sum = s; count = t })
            (sums_and_counts l)
          ≡ ret (record { sum = sum; count = count }))
        × (aggregate_all (aggregate decimal (add_value add)) s (sums l) ≡ ret sum)
        × (aggregate_all (aggregate decimal (add_value add)) t (counts l) ≡ ret count)
  unfolding aggregate_all avg_aggregate
  avg_from-sums s t [] = (s, t, refl, refl, refl)
  avg_from-sums s t ((v, w) ∷ l) =
      let (s', a, b) = add_to-aggregate s v in
      let (t', c, d) = add_to-aggregate t w in
      let (sum, count, x, y, z) = avg_from-sums s' t' l in
      (sum, count, rw (a, c) x, rw (b) y, rw (d) z)

-- AvgAggregator over the rows of a sum and a count does not panic and keeps what one AddAggregator
-- makes of the sums and another of the counts; Decimal of every value succeeds and zero is neutral.
pub avg_aggregate-sums :
    {E V D : Type 0} (decimal : V → Outcome E D) (dec : V → D) (add : D → D → D) (zero : D)
    (l : List (Option V × Option V))
    → ((v : V) → decimal v ≡ ok (dec v))
    → ((x : D) → add zero x ≡ x)
    → (sum : Option D) × (count : Option D) × (aggregate_all
          (avg_aggregate decimal add zero)
          (record { sum = none; count = none })
          (sums_and_counts l)
        ≡ ret (record { sum = sum; count = count }))
      × (aggregate_all (aggregate decimal (add_value add)) none (sums l) ≡ ret sum)
      × (aggregate_all (aggregate decimal (add_value add)) none (counts l) ≡ ret count)
avg_aggregate-sums decimal dec add zero l reads neutral =
    avg_from-sums decimal dec add zero reads neutral none none l
