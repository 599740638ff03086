-- ===== src/Calc/Logic/And/Literals.antt =====
-- The loops of AND in logic.go over the members of a set, for a literal.
use Prim.Native.Nat.{Ordering}
use arana.Prelude.{ℕ, ◌+◌, ◌<◌, arith, inl, inr, Option, Bool-cases}
use arana.Calc.Logic.{Logic, Logics, atom, neg, inter, union, absent, nil, cons}
use arana.Calc.Logic.And.{
  Run, Rec, size, size_all, has_same_atom, keep_in_union, keep_in_intersection, and_each,
  atom_and_union, not_and_each, not_and_union, not_with_each, not_and_intersection,
}
use arana.Calc.Logic.And.Ends.{Ends, Ends-bind, Ends-option, Ends-Logics, EndsBelow}

keep_in_union-Ends :
    {A : Type 0} (rest : Run (Option (Logics A))) (l : Logic A)
    → Ends rest
    → Ends (keep_in_union rest l)
unfolding keep_in_union
keep_in_union-Ends rest absent h = h
keep_in_union-Ends rest (union nil) h = tt
keep_in_union-Ends rest (inter nil) h = h
keep_in_union-Ends rest (union (cons x xs)) h = Ends-bind rest _ h λ o. tt
keep_in_union-Ends rest (inter (cons x xs)) h = Ends-bind rest _ h λ o. tt
keep_in_union-Ends rest (atom a) h = Ends-bind rest _ h λ o. tt
keep_in_union-Ends rest (neg a) h = Ends-bind rest _ h λ o. tt

keep_in_intersection-Ends :
    {A : Type 0} (rest : Run (Option (Logics A))) (l : Logic A)
    → Ends rest
    → Ends (keep_in_intersection rest l)
unfolding keep_in_intersection
keep_in_intersection-Ends rest absent h = Ends-bind rest _ h λ o. tt
keep_in_intersection-Ends rest (union nil) h = h
keep_in_intersection-Ends rest (inter nil) h = tt
keep_in_intersection-Ends rest (union (cons x xs)) h = Ends-bind rest _ h λ o. tt
keep_in_intersection-Ends rest (inter (cons x xs)) h = Ends-bind rest _ h λ o. tt
keep_in_intersection-Ends rest (atom a) h = Ends-bind rest _ h λ o. tt
keep_in_intersection-Ends rest (neg a) h = Ends-bind rest _ h λ o. tt

module _ {A : Type 0} (cmp : A → A → Ordering) (rec : Rec A) (n : ℕ) (below : EndsBelow rec n) where
  pub and_each-Ends :
      (l : Logic A) (xs : Logics A) → size l + size_all xs < n → Ends (and_each cmp rec l xs)
  unfolding and_each size_all
  and_each-Ends l nil h = tt
  and_each-Ends l (cons x xs) h =
      Ends-bind (rec l x) _ (below l x (omega arith))
        λ y. Ends-bind (and_each cmp rec l xs) _ (and_each-Ends l xs (omega arith)) λ ys. tt

  pub atom_and_union-Ends :
      (a : A) (xs : Logics A) → 1 + size_all xs < n → Ends (atom_and_union cmp rec a xs)
  unfolding atom_and_union size
  atom_and_union-Ends a xs h = elim (Bool-cases (has_same_atom cmp a xs)) [
    | inl e ↦ rw (e) tt
    | inr e ↦
        rw (e) (Ends-bind (and_each cmp rec (atom a) xs) _ (and_each-Ends (atom a) xs h) λ ys. tt)
  ]

  pub not_and_each-Ends :
      (a : A) (xs : Logics A) → 1 + size_all xs < n → Ends (not_and_each cmp rec a xs)
  unfolding not_and_each size size_all
  not_and_each-Ends a nil h = tt
  not_and_each-Ends a (cons x xs) h =
      Ends-bind (rec (neg a) x) _ (below (neg a) x (omega arith))
        λ l. keep_in_union-Ends (not_and_each cmp rec a xs) l (not_and_each-Ends a xs (omega arith))

  pub not_with_each-Ends :
      (a : A) (xs : Logics A) → 1 + size_all xs < n → Ends (not_with_each cmp rec a xs)
  unfolding not_with_each size size_all
  not_with_each-Ends a nil h = tt
  not_with_each-Ends a (cons x xs) h =
      Ends-bind (rec (neg a) x) _ (below (neg a) x (omega arith)) λ l.
        keep_in_intersection-Ends (not_with_each cmp rec a xs) l
          (not_with_each-Ends a xs (omega arith))

  pub not_and_union-Ends :
      (a : A) (xs : Logics A) → 1 + size_all xs < n → Ends (not_and_union cmp rec a xs)
  unfolding not_and_union
  not_and_union-Ends a nil h = tt
  not_and_union-Ends a (cons x xs) h =
      Ends-bind (not_and_each cmp rec a (cons x xs)) _ (not_and_each-Ends a (cons x xs) h)
        λ o. Ends-option o _ _ tt (Ends-Logics _ _ tt λ y ys. tt)

  pub not_and_intersection-Ends :
      (a : A) (xs : Logics A) → 1 + size_all xs < n → Ends (not_and_intersection cmp rec a xs)
  unfolding not_and_intersection
  not_and_intersection-Ends a nil h = tt
  not_and_intersection-Ends a (cons x xs) h =
      Ends-bind (not_with_each cmp rec a (cons x xs)) _ (not_with_each-Ends a (cons x xs) h)
        λ o. Ends-option o _ _ tt λ ys. tt
