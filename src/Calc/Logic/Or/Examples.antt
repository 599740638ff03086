-- ===== src/Calc/Logic/Or/Examples.antt =====
-- Formulas on which the theorems on OR of logic.go are used.
use Prim.Native.Nat.{compare}
use arana.Prelude.{ℕ, ◌≡◌, refl, false, ◌||◌}
use arana.Calc.Logic.{Logics, atom, neg, nil, cons}
use arana.Calc.Logic.Meaning.{meaning}
use arana.Calc.Logic.Or.{has_neg, or_logic}
use arana.Calc.Logic.Or.Exact.{Means, or_logic-meaning}
use arana.Calc.Logic.Samples.{at_least_two, at_least_two-Respects, both, list_tree}

or_logic-meaning_example :
    Means at_least_two
      (or_logic compare list_tree (neg 3) both)
      (meaning at_least_two (neg 3) || meaning at_least_two both)
or_logic-meaning_example =
    or_logic-meaning compare at_least_two at_least_two-Respects list_tree (neg 3) both tt tt

-- 1 OR NOT 3
abbrev either : Logics ℕ
either = cons (atom 1) (cons (neg 3) nil)

no_two : has_neg compare 2 either ≡ false
unfolding has_neg
no_two = refl
