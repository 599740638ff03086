-- ===== src/Calc/Logic/Order.antt =====
-- Compare and Less of logic.go: the order in which the B-trees keep formulas.
use Prim.Native.Nat.{Ordering, compare}
use arana.Prelude.{ℕ, Bool, true, false}
use arana.Prelude.Go.{Go, ret, panic, ◌>>=◌}
use arana.Calc.Logic.{Logic, Logics, atom, neg, inter, union, absent, cons, count}

module _ {A : Type 0} (cmp : A → A → Ordering) where
  -- notLogic before atomLogic: `case -1, 0: return -1`
  abbrev neg_atom : Ordering → Ordering
  neg_atom Ordering.lt = Ordering.lt
  neg_atom Ordering.eq = Ordering.lt
  neg_atom Ordering.gt = Ordering.gt

  -- the tests on the lengths, shorter first
  abbrev by_count : ℕ → ℕ → Go Ordering → Go Ordering
  by_count n m same = elim (compare n m) [
    | Ordering.lt ↦ ret Ordering.lt
    | Ordering.eq ↦ same
    | Ordering.gt ↦ ret Ordering.gt
  ]

  mutual
    -- `-1`, `0`, `1` are lt, eq, gt; a pair of types with no case panics.
    pub compare_logic : Logic A → Logic A → Go Ordering
    compare_logic (atom a) (atom b) = ret (cmp a b)
    compare_logic (atom a) (neg b) = ret (cmp a b)
    compare_logic (atom a) _ = ret Ordering.lt
    compare_logic (neg a) (atom b) = ret (neg_atom (cmp a b))
    compare_logic (neg a) (neg b) = ret (cmp a b)
    compare_logic (neg a) _ = ret Ordering.lt
    compare_logic (inter xs) (inter ys) =
        by_count (count xs) (count ys) (compare_each xs ys Ordering.eq)
    compare_logic (inter xs) (union ys) =
        by_count (count xs) (count ys) (compare_each xs ys Ordering.gt)
    compare_logic (inter xs) _ = panic
    compare_logic (union xs) (inter ys) =
        by_count (count xs) (count ys) (compare_each xs ys Ordering.lt)
    compare_logic (union xs) (union ys) =
        by_count (count xs) (count ys) (compare_each xs ys Ordering.eq)
    compare_logic (union xs) _ = panic
    compare_logic absent _ = panic

    -- the loop over the members, and the result where they are all equal
    pub compare_each : Logics A → Logics A → Ordering → Go Ordering
    compare_each (cons x xs) (cons y ys) last =
        let rest = compare_each xs ys last in
        compare_logic x y >>= λ c. elim c [
          | Ordering.lt ↦ ret Ordering.lt
          | Ordering.eq ↦ rest
          | Ordering.gt ↦ ret Ordering.gt
        ]
    compare_each _ _ last = ret last

  pub less : Logic A → Logic A → Go Bool
  less x y = compare_logic x y >>= λ c. elim c [
    | Ordering.lt ↦ ret true
    | Ordering.eq ↦ ret false
    | Ordering.gt ↦ ret false
  ]
