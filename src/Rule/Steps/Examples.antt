-- ===== src/Rule/Steps/Examples.antt =====
-- Steppers on which the theorems on pkg/proto/rule/range.go are used.
use arana.Prelude.{ℕ, ◌≡◌, ◌≢◌, ◌^◌, ◌-◌, refl, arith, String, true}
use arana.Rule.Steps.{
  StepUnit, num, int32, Range, iter_int32, computed, compute, compute_range, iter_int32_of, after,
}
use arana.Rule.Steps.Ranges.{drain, Gives, toward, stepper}
use arana.Rule.Steps.Directions.{compute_range-Gives}

abbrev drawn : ℕ → String
drawn k = "7"

-- Down by 2 from 1, past the lowest value of its type
abbrev down : Range
down = iter_int32 1 (2 ^ 32 - 2) 3

gives_down : compute_range (stepper 2 num) (int32 1) 3 true ≡ computed down
unfolding compute_range iter_int32_of
gives_down = refl

num≢str : num ≢ StepUnit.str
num≢str e = cc

compute_range-Gives_example : Gives (toward true (stepper 2 num)) (int32 1) 3 (drain 4 down drawn)
compute_range-Gives_example =
    compute_range-Gives 2 num (int32 1) 3 true down drawn (ground arith) (ground arith) num≢str
      gives_down

wraps : after (stepper 9 num) (int32 (2 ^ 32 - 1)) ≡ computed (int32 8)
unfolding after compute
wraps = refl
