-- ===== src/Merge/Aggregator/Reducers.antt =====
-- The aggregators of pkg/merge/aggregator against the reducers of pkg/reduce in a ReduceDataset
use arana.Prelude.{
  ◌≡◌, refl, subst, Bool, Option, none, some, List, [], ◌∷◌, map, if◌then◌else◌, Bool-cases, inl,
  inr,
}
use arana.Prelude.Go.{ret}
use arana.Dataset.Streams.{ok}
use arana.Dataset.Reduce.{
  and_then, DecimalReducer, RowValues, fold_cell, max_decimal, min_decimal, sum_decimal,
}
use arana.Dataset.Reduce.Columns.{column}
use arana.Merge.Aggregator.{must, add_value, max_value, min_value, aggregate, aggregate_all}

-- A column as the rows of one value
abbrev pub as_rows : {V : Type 0} → List V → List (List V)
as_rows l = map (λ v. v ∷ []) l

abbrev pub decimal_of : {V D : Type 0} → (V → D) → Option V → Option D
decimal_of dec none = none
decimal_of dec (some v) = some (dec v)

-- The aggregator and the reducer come to the same decimal.
abbrev pub Agrees :
    {E F R V D : Type 0}
    → RowValues E F R V D
    → (V → D)
    → DecimalReducer E D
    → (Option D → D → Option D)
    → Option V
    → List (Option V)
    → Type 0
Agrees {V = V} ops dec red update v l =
    (out : Option V) × (column ops (some red) v l ≡ ok out)
    × (aggregate_all (aggregate ops.decimal update) none (as_rows (v ∷ l))
        ≡ ret (decimal_of dec out))

module _ {E F R V D : Type 0} (ops : RowValues E F R V D) (dec : V → D)
    (reads : (v : V) → ops.decimal v ≡ ok (dec v))
    (makes : (z : D) → dec (ops.new_value_decimal z) ≡ z) (red : DecimalReducer E D)
    (pick : D → D → D) (update : Option D → D → Option D)
    (reduces : (x y : D) → red x y ≡ ok (pick x y)) (begins : (y : D) → update none y ≡ some y)
    (goes_on : (x y : D) → update (some x) y ≡ some (pick x y)) where
  column-rest :
      (v : Option V) (l : List (Option V))
      → (out : Option V) × (column ops (some red) v l ≡ ok out)
        × (aggregate_all (aggregate ops.decimal update) (decimal_of dec v) (as_rows l)
            ≡ ret (decimal_of dec out))
  unfolding column and_then fold_cell aggregate_all aggregate must
  column-rest v [] = (v, refl, refl)
  column-rest none (none ∷ l) = column-rest none l
  column-rest (some v) (none ∷ l) = column-rest (some v) l
  column-rest none (some w ∷ l) =
      let (out, eq, same) = column-rest (some w) l in (out, eq, rw (reads w, begins) same)
  column-rest (some v) (some w ∷ l) =
      let (out, eq, same) = column-rest (some (ops.new_value_decimal (pick (dec v) (dec w)))) l in
      (
        out,
        rw (reads v, reads w, reduces) eq,
        rw (reads w, goes_on)
            (subst
              (λ d.
                aggregate_all (aggregate ops.decimal update) (some d) (as_rows l)
                ≡ ret (decimal_of dec out))
              (makes (pick (dec v) (dec w))) same),
      )

  column-Agrees : (v : Option V) (l : List (Option V)) → Agrees ops dec red update v l
  unfolding aggregate_all aggregate must
  column-Agrees none l = column-rest none l
  column-Agrees (some v) l =
      let (out, eq, same) = column-rest (some v) l in (out, eq, rw (reads v, begins) same)

-- Over one column, AddAggregator, MaxAggregator and MinAggregator come to the decimals that Sum(),
-- Max() and Min() leave in a ReduceDataset, with no panic and no error, and to nil where those
-- leave null. Decimal of every value succeeds and gives back what NewValueDecimal was made of, and
-- LessThan is GreaterThan turned round.
pub aggregators_agree :
    {E F R V D : Type 0} (ops : RowValues E F R V D) (dec : V → D) (add : D → D → D)
    (less_than greater_than : D → D → Bool) (v : Option V) (l : List (Option V))
    → ((w : V) → ops.decimal w ≡ ok (dec w))
    → ((z : D) → dec (ops.new_value_decimal z) ≡ z)
    → ((x y : D) → less_than x y ≡ greater_than y x)
    → Agrees ops dec (sum_decimal add) (add_value add) v l
      × Agrees ops dec (max_decimal greater_than) (max_value less_than) v l
      × Agrees ops dec (min_decimal less_than) (min_value greater_than) v l
unfolding sum_decimal max_decimal min_decimal add_value max_value min_value
aggregators_agree ops dec add less_than greater_than v l reads makes turned = (
  column-Agrees ops dec reads makes (sum_decimal add) add (add_value add) (λ x y. refl) (λ y. refl)
      (λ x y. refl) v l,
  column-Agrees ops dec reads makes (max_decimal greater_than)
      (λ x y. if greater_than y x then y else x) (max_value less_than)
      (λ x y. elim (Bool-cases (greater_than y x)) [ inl t ↦ rw (t) refl | inr f ↦ rw (f) refl ])
      (λ y. refl)
      (λ x y. elim (Bool-cases (greater_than y x)) [
        | inl t ↦ rw (turned x y, t) refl
        | inr f ↦ rw (turned x y, f) refl
      ])
      v l,
  column-Agrees ops dec reads makes (min_decimal less_than) (λ x y. if less_than y x then y else x)
      (min_value greater_than)
      (λ x y. elim (Bool-cases (less_than y x)) [ inl t ↦ rw (t) refl | inr f ↦ rw (f) refl ])
      (λ y. refl)
      (λ x y. elim (Bool-cases (greater_than x y)) [
        | inl t ↦ rw (turned y x, t) refl
        | inr f ↦ rw (turned y x, f) refl
      ])
      v l,
)
