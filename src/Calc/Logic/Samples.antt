-- ===== src/Calc/Logic/Samples.antt =====
-- An assignment, formulas and a tree for the examples on pkg/runtime/calc/logic/logic.go.
use Prim.Native.Nat.{compare}
use arana.Prelude.{ℕ, arith, Bool, List, [], ◌∷◌, leb, if◌then◌else◌}
use arana.Prelude.Go.{Go, ret, ◌>>=◌}
use arana.Calc.BTree.{BTree}
use arana.Calc.Logic.{Logic, Logics, atom, neg, inter, nil, cons}
use arana.Calc.Logic.Order.{less}
use arana.Calc.Logic.Meaning.{Respects}

-- A tree as a list in the order of `less`
abbrev insert : Logic ℕ → List (Logic ℕ) → Go (List (Logic ℕ))
insert x [] = ret (x ∷ [])
insert x (y ∷ ys) =
    let rest = insert x ys >>= λ zs. ret (y ∷ zs) in
    less compare x y >>= λ before. less compare y x >>= λ behind.
    if before then ret (x ∷ y ∷ ys) else (if behind then rest else ret (x ∷ ys))

abbrev pub list_tree : BTree (Logic ℕ)
list_tree = record { Tree = List (Logic ℕ); new = []; replace_or_insert = insert; ascend = λ t. t }

abbrev pub at_least_two : ℕ → Bool
at_least_two n = leb 2 n

pub at_least_two-Respects : Respects compare at_least_two
at_least_two-Respects a b e = ground arith

-- 1 AND NOT 3
abbrev pub both : Logic ℕ
both = inter (cons (atom 1) (cons (neg 3) nil))

abbrev pub either : Logics ℕ
either = cons (atom 1) (cons (neg 3) nil)
