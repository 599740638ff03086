-- ===== src/Dataset/Reduce.antt =====
-- pkg/dataset/reduce.go and pkg/reduce/{max,min,sum}.go: the data set that folds all rows of
-- another into one, column by column, with the reducers of its columns. A slice of values has as
-- many entries as the data set has fields, and is a function on their indices. Scan and IsBinary of
-- a row, the rows made of values, Decimal of a value, NewValueDecimal and the decimals of
-- shopspring are parameters.
use arana.Prelude.{
  ℕ, zero, suc, Bool, true, false, Option, none, some, List, [], ◌∷◌, length, if◌then◌else◌, ◌==◌,
}
pub mod Columns
mod Rows
mod Extremes
mod Examples
use arana.Dataset.Streams.{Outcome, ok, fault, Answer, row, eof, failed, pending, Dataset}

unfoldable pub and_then : {E A B : Type 0} → Outcome E A → (A → Outcome E B) → Outcome E B
and_then (ok x) f = f x
and_then (fault e) f = fault e

-- Decimal of a Reducer
abbrev pub DecimalReducer : Type 0 → Type 0 → Type 0
DecimalReducer E D = D → D → Outcome E D

-- maxReducer.Decimal, with GreaterThan of the decimals
unfoldable pub max_decimal : {E D : Type 0} → (D → D → Bool) → DecimalReducer E D
max_decimal greater_than prev next = if greater_than next prev then ok next else ok prev

-- minReducer.Decimal, with LessThan of the decimals
unfoldable pub min_decimal : {E D : Type 0} → (D → D → Bool) → DecimalReducer E D
min_decimal less_than prev next = if less_than next prev then ok next else ok prev

-- sumReducer.Decimal, with Add of the decimals
unfoldable pub sum_decimal : {E D : Type 0} → (D → D → D) → DecimalReducer E D
sum_decimal add prev next = ok (add prev next)

-- What Next uses of proto.Row, of proto.Value and of the package rows
pub record RowValues (E F R V D : Type 0) : Type 0 where
  pub scan : ℕ → R → Outcome E (ℕ → Option V)
  pub is_binary : R → Bool
  pub virtual_row : Bool → List F → List (Option V) → R
  pub decimal : V → Outcome E D
  pub new_value_decimal : D → V

-- ReduceDataset
pub record Reducing (S V : Type 0) : Type 0 where
  pub inner : S
  pub prev : Option (ℕ → Option V)
  pub binary : Bool
  pub done : Bool

-- The slice with the entry at i replaced
unfoldable pub set_value : {V : Type 0} → ℕ → Option V → (ℕ → Option V) → ℕ → Option V
set_value i v values j = if j == i then v else values j

-- The n entries from i on
unfoldable pub entries : {V : Type 0} → ℕ → ℕ → (ℕ → Option V) → List (Option V)
entries zero i values = []
entries (suc n) i values = values i ∷ entries n (suc i) values

-- fields, _ := ad.Fields()
unfoldable pub fields_or_nil : {E F : Type 0} → Outcome E (List F) → List F
fields_or_nil (ok columns) = columns
fields_or_nil (fault e) = []

module _ {E F R V D : Type 0} (ops : RowValues E F R V D) where
  -- One column of one row: what ad.prev[i] becomes
  unfoldable pub fold_cell :
      Option (DecimalReducer E D) → Option V → Option V → Outcome E (Option V)
  fold_cell none prev next = ok prev
  fold_cell (some red) prev none = ok prev
  fold_cell (some red) none (some next) = ok (some next)
  fold_cell (some red) (some prev) (some next) = and_then (ops.decimal prev) λ x.
      and_then (ops.decimal next) λ y. and_then (red x y) λ z. ok (some (ops.new_value_decimal z))

  unfoldable pub store_cell :
      ℕ
      → (ℕ → Option V)
      → ((ℕ → Option V) → Option E × (ℕ → Option V))
      → Outcome E (Option V)
      → Option E × (ℕ → Option V)
  store_cell i prev go (ok v) = go (set_value i v prev)
  store_cell i prev go (fault e) = (some e, prev)

  -- The loop over the columns, of which n are left and i is the first. An error leaves ad.prev as
  -- the columns before have made it.
  unfoldable pub fold_cells :
      (ℕ → Option (DecimalReducer E D))
      → ℕ
      → ℕ
      → (ℕ → Option V)
      → (ℕ → Option V)
      → Option E × (ℕ → Option V)
  fold_cells reducers zero i values prev = (none, prev)
  fold_cells reducers (suc n) i values prev =
      store_cell i prev (fold_cells reducers n (suc i) values)
        (fold_cell (reducers i) (prev i) (values i))

module _ {E F R V D S : Type 0} (ops : RowValues E F R V D) where
  unfoldable pub end_reduce :
      List F → Reducing S V → Option (ℕ → Option V) → Answer E R × Reducing S V
  end_reduce columns s none = (eof, s)
  end_reduce columns s (some prev) = (
    row (ops.virtual_row s.binary columns (entries (length columns) 0 prev)),
    record s { done = true },
  )

  unfoldable pub go_on :
      (Reducing S V → Answer E R × Reducing S V)
      → Reducing S V
      → Option E × (ℕ → Option V)
      → Answer E R × Reducing S V
  go_on again s (none, prev) = again (record s { prev = some prev })
  go_on again s (some e, prev) = (failed e, record s { prev = some prev })

  unfoldable pub take_values :
      (ℕ → Option (DecimalReducer E D))
      → List F
      → (Reducing S V → Answer E R × Reducing S V)
      → Reducing S V
      → R
      → Option (ℕ → Option V)
      → Outcome E (ℕ → Option V)
      → Answer E R × Reducing S V
  take_values reducers columns again s r prev (fault e) = (failed e, s)
  take_values reducers columns again s r none (ok values) =
      again (record s { prev = some values; binary = ops.is_binary r })
  take_values reducers columns again s r (some prev) (ok values) =
      go_on again s (fold_cells ops reducers (length columns) 0 values prev)

  unfoldable pub take_row :
      (ℕ → Option (DecimalReducer E D))
      → List F
      → (Reducing S V → Answer E R × Reducing S V)
      → Reducing S V
      → Answer E R × S
      → Answer E R × Reducing S V
  take_row reducers columns again s (row r, t) =
      take_values reducers columns again (record s { inner = t }) r s.prev
        (ops.scan (length columns) r)
  take_row reducers columns again s (eof, t) = end_reduce columns (record s { inner = t }) s.prev
  take_row reducers columns again s (failed e, t) = (failed e, record s { inner = t })
  take_row reducers columns again s (pending, t) = (pending, record s { inner = t })

  -- ReduceDataset.Next
  unfoldable pub reduce_next :
      (ℕ → Option (DecimalReducer E D))
      → List F
      → (S → Answer E R × S)
      → ℕ
      → Reducing S V
      → Answer E R × Reducing S V
  reduce_next reducers columns next zero s = (pending, s)
  reduce_next reducers columns next (suc fuel) s = elim s.done [
    | true ↦ (eof, s)
    | false ↦ take_row reducers columns (reduce_next reducers columns next fuel) s (next s.inner)
  ]

-- &ReduceDataset{Dataset: d, Reducers: reducers}
abbrev pub reduce_dataset :
    {E F R V D : Type 0}
    → RowValues E F R V D
    → (ℕ → Option (DecimalReducer E D))
    → ℕ
    → Dataset E F R
    → Dataset E F R
reduce_dataset {V = V} ops reducers fuel d = record {
  State = Reducing d.State V;
  state = record { inner = d.state; prev = none; binary = false; done = false };
  next = reduce_next ops reducers (fields_or_nil d.fields) d.next fuel;
  close = λ s. let (e, t) = d.close s.inner in (e, record s { inner = t });
  fields = d.fields;
}
