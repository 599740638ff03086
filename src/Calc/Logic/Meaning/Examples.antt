-- ===== src/Calc/Logic/Meaning/Examples.antt =====
-- A formula on which the theorem on NOT of logic.go is used.
use arana.Prelude.{ℕ}
use arana.Calc.Logic.{Logic, union, atom, nil, cons, not_logic}
use arana.Calc.Logic.Meaning.{IsPresent}
use arana.Calc.Logic.Meaning.Negation.{Negates, not_logic-meaning}
use arana.Calc.Logic.Samples.{at_least_two, both}

-- (1 AND NOT 3) OR 2
abbrev sum : Logic ℕ
sum = union (cons both (cons (atom 2) nil))

sum-IsPresent : IsPresent sum
unfolding IsPresent
sum-IsPresent = ((tt, (tt, tt)), (tt, tt))

not_logic-meaning_example : Negates at_least_two sum (not_logic sum)
not_logic-meaning_example = not_logic-meaning at_least_two sum sum-IsPresent
