-- ===== src/Calc/Logic/And/Examples.antt =====
-- Formulas on which the theorems on AND of logic.go are used.
use Prim.Native.Nat.{compare}
use arana.Prelude.{ℕ, ◌≡◌, ◌⊎◌, ◌&&◌}
use arana.Calc.Logic.{Logic, atom, neg, union, nil, cons}
use arana.Calc.Logic.Meaning.{meaning}
use arana.Calc.Logic.And.{done, panicked, and_logic}
use arana.Calc.Logic.And.Exact.{Means, and_logic-meaning}
use arana.Calc.Logic.And.Fuel.{and_logic-total}
use arana.Calc.Logic.Samples.{at_least_two, at_least_two-Respects, both, list_tree}

and_logic-meaning_example :
    Means at_least_two
      (and_logic compare list_tree (atom 2) both)
      (meaning at_least_two (atom 2) && meaning at_least_two both)
and_logic-meaning_example =
    and_logic-meaning compare at_least_two at_least_two-Respects list_tree (atom 2) both tt

-- NOT 3 OR (1 AND NOT 3)
abbrev either : Logic ℕ
either = union (cons (neg 3) (cons both nil))

and_logic-total_example :
    ((r : Logic ℕ) × (and_logic compare list_tree either (atom 2) ≡ done r))
    ⊎ (and_logic compare list_tree either (atom 2) ≡ panicked)
and_logic-total_example = and_logic-total compare list_tree either (atom 2)
