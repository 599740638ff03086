-- ===== src/Calc/Logic/Or/Exact.antt =====
-- OR of logic.go against the meaning of formulas.
use Prim.Native.Nat.{Ordering}
use arana.Prelude.{◌≡◌, refl, ◌∙◌, arith, Bool, true, not, ◌||◌}
use arana.Prelude.Go.{Go, ret}
use arana.Calc.BTree.{BTree}
use arana.Calc.Logic.{Logic, Logics, atom, neg, inter, union, absent, nil, cons}
use arana.Calc.Logic.Meaning.{meaning, all_hold, some_holds, Respects}
use arana.Calc.Logic.Or.{
  equal, atom_or_atom, atom_or_not, not_or_not, has_atom, has_neg, atom_or_intersection,
  not_or_intersection, intersection_or_intersection, or_logic,
}

-- `m` gives a formula whose meaning is `b`.
abbrev pub Means : {A : Type 0} → (A → Bool) → Go (Logic A) → Bool → Type 0
Means {A} v m b = (r : Logic A) × (m ≡ ret r) × (meaning v r ≡ b)

-- A formula that is no union and no nil value
abbrev pub NoUnion : {A : Type 0} → Logic A → Type 0
NoUnion (union xs) = ⊥
NoUnion absent = ⊥
NoUnion _ = Unit

module _ {A : Type 0} (cmp : A → A → Ordering) (v : A → Bool) (same : Respects cmp v) where
  equal-respects : (a b : A) → equal cmp a b ≡ true → v a ≡ v b
  unfolding equal
  equal-respects a b e = ground (arith, same a b)

  has_atom-all_hold :
      (a : A) (xs : Logics A) → has_atom cmp a xs ≡ true → v a || all_hold v xs ≡ v a
  unfolding has_atom all_hold meaning
  has_atom-all_hold a nil h = ground arith
  has_atom-all_hold a (cons (atom x) xs) h = ground (arith, same a x, has_atom-all_hold a xs)
  has_atom-all_hold a (cons (neg x) xs) h = ground (arith, has_atom-all_hold a xs)
  has_atom-all_hold a (cons (inter ys) xs) h = ground (arith, has_atom-all_hold a xs)
  has_atom-all_hold a (cons (union ys) xs) h = ground (arith, has_atom-all_hold a xs)
  has_atom-all_hold a (cons absent xs) h = ground (arith, has_atom-all_hold a xs)

  has_neg-all_hold :
      (a : A) (xs : Logics A) → has_neg cmp a xs ≡ true → not (v a) || all_hold v xs ≡ not (v a)
  unfolding has_neg all_hold meaning
  has_neg-all_hold a nil h = ground arith
  has_neg-all_hold a (cons (neg x) xs) h = ground (arith, same a x, has_neg-all_hold a xs)
  has_neg-all_hold a (cons (atom x) xs) h = ground (arith, has_neg-all_hold a xs)
  has_neg-all_hold a (cons (inter ys) xs) h = ground (arith, has_neg-all_hold a xs)
  has_neg-all_hold a (cons (union ys) xs) h = ground (arith, has_neg-all_hold a xs)
  has_neg-all_hold a (cons absent xs) h = ground (arith, has_neg-all_hold a xs)

  atom_or_atom-meaning : (a b : A) → meaning v (atom_or_atom cmp a b) ≡ v a || v b
  unfolding atom_or_atom meaning some_holds
  atom_or_atom-meaning a b = ground (arith, same a b)

  atom_or_not-meaning : (a b : A) → meaning v (atom_or_not cmp a b) ≡ v a || not (v b)
  unfolding atom_or_not meaning some_holds
  atom_or_not-meaning a b = ground (arith, same a b)

  not_or_not-meaning : (a b : A) → meaning v (not_or_not cmp a b) ≡ not (v a) || not (v b)
  unfolding not_or_not meaning some_holds
  not_or_not-meaning a b = ground (arith, same a b)

  atom_or_intersection-meaning :
      (a : A) (xs : Logics A)
      → meaning v (atom_or_intersection cmp a xs) ≡ v a || meaning v (inter xs)
  unfolding atom_or_intersection meaning some_holds
  atom_or_intersection-meaning a nil = ground arith
  atom_or_intersection-meaning a (cons x xs) = ground (arith, has_atom-all_hold a (cons x xs))

  not_or_intersection-meaning :
      (a : A) (xs : Logics A)
      → meaning v (not_or_intersection cmp a xs) ≡ not (v a) || meaning v (inter xs)
  unfolding not_or_intersection meaning some_holds
  not_or_intersection-meaning a nil = ground arith
  not_or_intersection-meaning a (cons x xs) = ground (arith, has_neg-all_hold a (cons x xs))

  intersection_or_intersection-meaning :
      (xs ys : Logics A)
      → meaning v (intersection_or_intersection cmp xs ys)
        ≡ meaning v (inter xs) || meaning v (inter ys)
  unfolding intersection_or_intersection meaning some_holds
  intersection_or_intersection-meaning nil ys = refl
  intersection_or_intersection-meaning (cons x xs) nil = ground arith
  intersection_or_intersection-meaning (cons x xs) (cons y ys) = ground arith

  or_comm : (a b : Bool) → a || b ≡ b || a
  or_comm a b = ground arith

  -- Where neither formula is a union or nil, OR does not panic, and its result is true exactly when one
  -- of the two is, for an order in which items that compare equal have the same truth value.
  pub or_logic-meaning :
      (bt : BTree (Logic A)) (l m : Logic A)
      → NoUnion l
      → NoUnion m
      → Means v (or_logic cmp bt l m) (meaning v l || meaning v m)
  unfolding or_logic meaning
  or_logic-meaning bt (atom a) (atom b) h k = (_, refl, atom_or_atom-meaning a b)
  or_logic-meaning bt (atom a) (neg b) h k = (_, refl, atom_or_not-meaning a b)
  or_logic-meaning bt (atom a) (inter ys) h k = (_, refl, atom_or_intersection-meaning a ys)
  or_logic-meaning bt (neg a) (atom b) h k =
      (_, refl, atom_or_not-meaning b a ∙ or_comm (v b) (not (v a)))
  or_logic-meaning bt (neg a) (neg b) h k = (_, refl, not_or_not-meaning a b)
  or_logic-meaning bt (neg a) (inter ys) h k = (_, refl, not_or_intersection-meaning a ys)
  or_logic-meaning bt (inter xs) (atom b) h k =
      (_, refl, atom_or_intersection-meaning b xs ∙ or_comm (v b) (meaning v (inter xs)))
  or_logic-meaning bt (inter xs) (neg b) h k =
      (_, refl, not_or_intersection-meaning b xs ∙ or_comm (not (v b)) (meaning v (inter xs)))
  or_logic-meaning bt (inter xs) (inter ys) h k =
      (_, refl, intersection_or_intersection-meaning xs ys)
  or_logic-meaning bt (union xs) m h k = absurd h
  or_logic-meaning bt absent m h k = absurd h
  or_logic-meaning bt (atom a) (union ys) h k = absurd k
  or_logic-meaning bt (neg a) (union ys) h k = absurd k
  or_logic-meaning bt (inter xs) (union ys) h k = absurd k
  or_logic-meaning bt (atom a) absent h k = absurd k
  or_logic-meaning bt (neg a) absent h k = absurd k
  or_logic-meaning bt (inter xs) absent h k = absurd k
