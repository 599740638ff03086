-- ===== src/Calc/Logic/And/Sets.antt =====
-- The loops of AND in logic.go for two sets of formulas.
use Prim.Native.Nat.{Ordering}
use arana.Prelude.{ℕ, suc, ◌+◌, ◌<◌, arith, inl, inr, Bool-cases}
use arana.Calc.BTree.{BTree}
use arana.Calc.Logic.{Logic, Logics, atom, neg, inter, union, absent, nil, cons}
use arana.Calc.Logic.Or.{share_literal}
use arana.Calc.Logic.And.{
  run, Rec, size, size_all, insert_each, take_intersection, intersect_each,
  intersection_and_intersection, distribute, intersection_and_union, or_result, cross_row, cross,
  union_and_union,
}
use arana.Calc.Logic.And.Ends.{Ends, Ends-bind, Ends-run, Ends-option, EndsBelow}

module _ {A : Type 0} (cmp : A → A → Ordering) (rec : Rec A) (n : ℕ) (below : EndsBelow rec n) where
  module _ (bt : BTree (Logic A)) where
    pub insert_each-Ends : (xs : Logics A) (t : bt.Tree) → Ends (insert_each cmp rec bt xs t)
    unfolding insert_each
    insert_each-Ends nil t = tt
    insert_each-Ends (cons x xs) t =
        Ends-bind (run (bt.replace_or_insert x t)) _ (Ends-run (bt.replace_or_insert x t))
          λ u. insert_each-Ends xs u

    pub take_intersection-Ends :
        (l : Logic A) (t : bt.Tree) → Ends (take_intersection cmp rec bt l t)
    unfolding take_intersection
    take_intersection-Ends (atom a) t =
        Ends-bind (run (bt.replace_or_insert (atom a) t)) _
          (Ends-run (bt.replace_or_insert (atom a) t)) λ u. tt
    take_intersection-Ends (neg a) t =
        Ends-bind (run (bt.replace_or_insert (neg a) t)) _
          (Ends-run (bt.replace_or_insert (neg a) t)) λ u. tt
    take_intersection-Ends (inter nil) t = tt
    take_intersection-Ends (inter (cons x xs)) t =
        Ends-bind (insert_each cmp rec bt (cons x xs) t) _ (insert_each-Ends (cons x xs) t) λ u. tt
    take_intersection-Ends (union xs) t = tt
    take_intersection-Ends absent t = tt

    pub intersect_each-Ends :
        (xs ys : Logics A) (t : bt.Tree)
        → size_all xs + suc (size_all ys) < n
        → Ends (intersect_each cmp rec bt xs ys t)
    unfolding intersect_each size size_all
    intersect_each-Ends nil ys t h = tt
    intersect_each-Ends (cons x xs) ys t h =
        Ends-bind (rec x (inter ys)) _ (below x (inter ys) (omega arith)) λ l.
          Ends-bind (take_intersection cmp rec bt l t) _ (take_intersection-Ends l t)
            λ o. Ends-option o _ _ tt λ u. intersect_each-Ends xs ys u (omega arith)

    pub distribute-Ends :
        (xs ys : Logics A) (t : bt.Tree)
        → suc (size_all xs) + size_all ys < n
        → Ends (distribute cmp rec bt xs ys t)
    unfolding distribute size size_all
    distribute-Ends xs nil t h = tt
    distribute-Ends xs (cons y ys) t h =
        Ends-bind (rec (inter xs) y) _ (below (inter xs) y (omega arith)) λ l.
          Ends-bind (run (bt.replace_or_insert l t)) _ (Ends-run (bt.replace_or_insert l t))
            λ u. distribute-Ends xs ys u (omega arith)

    pub intersection_and_union-Ends :
        (xs ys : Logics A)
        → suc (size_all xs) + size_all ys < n
        → Ends (intersection_and_union cmp rec bt xs ys)
    unfolding intersection_and_union
    intersection_and_union-Ends nil ys h = tt
    intersection_and_union-Ends (cons x xs) nil h = tt
    intersection_and_union-Ends (cons x xs) (cons y ys) h =
        elim (Bool-cases (share_literal cmp (cons x xs) (cons y ys))) [
          | inl e ↦ rw (e) tt
          | inr e ↦ rw (e) (
              Ends-bind (distribute cmp rec bt (cons x xs) (cons y ys) bt.new) _
                (distribute-Ends (cons x xs) (cons y ys) bt.new h) λ t. tt)
        ]

    pub or_result-Ends : (result next : Logic A) → Ends (or_result cmp rec bt result next)
    unfolding or_result
    or_result-Ends absent next = tt
    or_result-Ends (atom a) next = Ends-run _
    or_result-Ends (neg a) next = Ends-run _
    or_result-Ends (inter xs) next = Ends-run _
    or_result-Ends (union xs) next = Ends-run _

    pub cross_row-Ends :
        (x : Logic A) (ys : Logics A) (result : Logic A)
        → size x + size_all ys < n
        → Ends (cross_row cmp rec bt x ys result)
    unfolding cross_row size_all
    cross_row-Ends x nil result h = tt
    cross_row-Ends x (cons y ys) result h = Ends-bind (rec x y) _ (below x y (omega arith)) λ next.
        Ends-bind (or_result cmp rec bt result next) _ (or_result-Ends result next)
          λ r. cross_row-Ends x ys r (omega arith)

    pub cross-Ends :
        (xs ys : Logics A) (result : Logic A)
        → size_all xs + size_all ys < n
        → Ends (cross cmp rec bt xs ys result)
    unfolding cross size_all
    cross-Ends nil ys result h = tt
    cross-Ends (cons x xs) ys result h =
        Ends-bind (cross_row cmp rec bt x ys result) _ (cross_row-Ends x ys result (omega arith))
          λ r. cross-Ends xs ys r (omega arith)

    pub union_and_union-Ends :
        (xs ys : Logics A) → size_all xs + size_all ys < n → Ends (union_and_union cmp rec bt xs ys)
    unfolding union_and_union
    union_and_union-Ends nil ys h = tt
    union_and_union-Ends (cons x xs) nil h = tt
    union_and_union-Ends (cons x xs) (cons y ys) h = cross-Ends (cons x xs) (cons y ys) absent h

    pub intersection_and_intersection-Ends :
        (xs ys : Logics A)
        → size_all xs + suc (size_all ys) < n
        → Ends (intersection_and_intersection cmp rec bt xs ys)
    unfolding intersection_and_intersection
    intersection_and_intersection-Ends nil ys h = tt
    intersection_and_intersection-Ends (cons x xs) nil h = tt
    intersection_and_intersection-Ends (cons x xs) (cons y ys) h =
        intersect_each-Ends (cons x xs) (cons y ys) bt.new h
