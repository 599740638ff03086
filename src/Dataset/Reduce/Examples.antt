-- ===== src/Dataset/Reduce/Examples.antt =====
-- A ReduceDataset (pkg/dataset/reduce.go) over three rows of two columns, of which the second has
-- the reducer Max().
use arana.Prelude.{
  ℕ, zero, suc, ◌≡◌, refl, arith, Bool, false, Option, none, some, String, List, [], ◌∷◌, ltb, ◌+◌,
}
use arana.Dataset.Streams.{ok, Dataset}
use arana.Dataset.Filter.{virtual_dataset, virtual_dataset-Runs}
use arana.Dataset.Reduce.{
  DecimalReducer, RowValues, max_decimal, min_decimal, sum_decimal, reduce_dataset, fold_cell,
  and_then,
}
use arana.Dataset.Reduce.Columns.{column}
use arana.Dataset.Reduce.Rows.{scans_none, scans_more, at_column, Reduces, reduce_dataset-Reduces}
use arana.Dataset.Reduce.Extremes.{Comparison, Best, column_extremes}

abbrev cell_of : List (Option ℕ) → ℕ → Option ℕ
cell_of [] j = none
cell_of (v ∷ l) zero = v
cell_of (v ∷ l) (suc j) = cell_of l j

-- Values are natural numbers, and their own decimals.
abbrev number_rows : RowValues String String (List (Option ℕ)) ℕ ℕ
number_rows = record {
  scan = λ n r. ok (cell_of r);
  is_binary = λ r. false;
  virtual_row = λ binary columns l. l;
  decimal = λ v. ok v;
  new_value_decimal = λ z. z;
}

abbrev greater : ℕ → ℕ → Bool
greater x y = ltb y x

abbrev max_of_second : ℕ → Option (DecimalReducer String ℕ)
max_of_second zero = none
max_of_second (suc j) = some (max_decimal greater)

abbrev names : List String
names = "id" ∷ "score" ∷ []

abbrev scores : Dataset String String (List (Option ℕ))
scores =
    virtual_dataset names
      ((some 7 ∷ some 3 ∷ []) ∷ (some 8 ∷ none ∷ []) ∷ (some 9 ∷ some 5 ∷ []) ∷ [])

abbrev more_cells : List (ℕ → Option ℕ)
more_cells = cell_of (some 8 ∷ none ∷ []) ∷ cell_of (some 9 ∷ some 5 ∷ []) ∷ []

reduce_dataset-Reduces_example :
    Reduces number_rows names
      (λ j.
        column number_rows
          (max_of_second j)
          (cell_of (some 7 ∷ some 3 ∷ []) j)
          (at_column j more_cells))
      false
      (reduce_dataset number_rows max_of_second 4 scores)
unfolding virtual_dataset
reduce_dataset-Reduces_example =
    reduce_dataset-Reduces number_rows max_of_second 4 scores names (some 7 ∷ some 3 ∷ [])
      ((some 8 ∷ none ∷ []) ∷ (some 9 ∷ some 5 ∷ []) ∷ []) (cell_of (some 7 ∷ some 3 ∷ []))
      more_cells refl (omega arith)
      (virtual_dataset-Runs String {F = String} {R = List (Option ℕ)} names scores.state) refl
      (scans_more refl (scans_more refl scans_none))

greater-Comparison : Comparison greater
greater-Comparison = record {
  asym = λ x y h. ground arith;
  chain = λ x y z h g. ground arith;
  irreflexive = λ x. ground arith;
}

less-Comparison : Comparison ltb
less-Comparison = record {
  asym = λ x y h. ground arith;
  chain = λ x y z h g. ground arith;
  irreflexive = λ x. ground arith;
}

column_extremes_example :
    ((out : Option ℕ) × (column number_rows
          (some (max_decimal greater))
          (some 3)
          (none ∷ some 5 ∷ [])
        ≡ ok out)
      × Best greater (λ x. x) (3 ∷ 5 ∷ []) out)
    × ((out : Option ℕ) × (column number_rows (some (min_decimal ltb)) (some 3) (none ∷ some 5 ∷ [])
          ≡ ok out)
        × Best ltb (λ x. x) (3 ∷ 5 ∷ []) out)
column_extremes_example =
    column_extremes number_rows (λ x. x) greater ltb (some 3) (none ∷ some 5 ∷ []) (λ w. refl)
      (λ z. refl) greater-Comparison less-Comparison

-- SUM over a column that begins with null
sum_column :
    column number_rows (some (sum_decimal λ x y. x + y)) none (some 4 ∷ none ∷ some 5 ∷ [])
    ≡ ok (some 9)
unfolding column fold_cell and_then sum_decimal
sum_column = refl
