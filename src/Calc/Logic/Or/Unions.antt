-- ===== src/Calc/Logic/Or/Unions.antt =====
-- atomOrUnion and notOrUnion of logic.go against the meaning of formulas.
use Prim.Native.Nat.{Ordering}
use arana.Prelude.{◌≡◌, refl, ap, arith, Bool, false, ◌||◌}
use arana.Calc.Logic.{Logics, atom, neg, inter, union, absent, nil, cons, is_empty}
use arana.Calc.Logic.Meaning.{meaning, some_holds, Respects}
use arana.Calc.Logic.Or.{equal, has_neg, add_atom, add_neg, atom_or_union, not_or_union}

-- The literals of a set are all less than the item.
abbrev pub AllLess : {A : Type 0} → (A → A → Ordering) → A → Logics A → Type 0
AllLess cmp a nil = Unit
AllLess cmp a (cons (atom x) xs) = (cmp a x ≡ Ordering.gt) × AllLess cmp a xs
AllLess cmp a (cons (neg x) xs) = (cmp a x ≡ Ordering.gt) × AllLess cmp a xs
AllLess cmp a (cons _ xs) = AllLess cmp a xs

module _ {A : Type 0} (cmp : A → A → Ordering) where
  module _ (v : A → Bool) (same : Respects cmp v) where
    add_atom-holds :
        (a : A) (xs : Logics A)
        → has_neg cmp a xs ≡ false
        → some_holds v (add_atom cmp a xs) ≡ v a || some_holds v xs
    unfolding has_neg equal add_atom some_holds meaning
    add_atom-holds a nil h = ground arith
    add_atom-holds a (cons (atom x) xs) h = ground (arith, same a x, add_atom-holds a xs)
    add_atom-holds a (cons (neg x) xs) h = ground (arith, same a x, add_atom-holds a xs)
    add_atom-holds a (cons (inter ys) xs) h = ground (arith, add_atom-holds a xs)
    add_atom-holds a (cons (union ys) xs) h = ground (arith, add_atom-holds a xs)
    add_atom-holds a (cons absent xs) h = ground (arith, add_atom-holds a xs)

    add_atom-is_empty :
        (a : A) (xs : Logics A) → has_neg cmp a xs ≡ false → is_empty (add_atom cmp a xs) ≡ false
    unfolding has_neg equal add_atom
    add_atom-is_empty a nil h = refl
    add_atom-is_empty a (cons (atom x) xs) h = ground arith
    add_atom-is_empty a (cons (neg x) xs) h = ground arith
    add_atom-is_empty a (cons (inter ys) xs) h = refl
    add_atom-is_empty a (cons (union ys) xs) h = refl
    add_atom-is_empty a (cons absent xs) h = refl

    -- An atom put into a union that does not have its negation: the result is true exactly when the
    -- atom or the union is, for an order in which items that compare equal have the same truth value.
    pub atom_or_union-meaning :
        (a : A) (xs : Logics A)
        → has_neg cmp a xs ≡ false
        → meaning v (atom_or_union cmp a xs) ≡ v a || meaning v (union xs)
    unfolding atom_or_union meaning
    atom_or_union-meaning a nil h = ground arith
    atom_or_union-meaning a (cons x xs) h =
        rw (add_atom-is_empty a (cons x xs) h) (add_atom-holds a (cons x xs) h)

  add_neg-drops : (a : A) (xs : Logics A) → AllLess cmp a xs → add_neg cmp a xs ≡ xs
  unfolding add_neg
  add_neg-drops a nil h = refl
  add_neg-drops a (cons (atom x) xs) h =
      rw (h.0, add_neg) (ap (cons (atom x)) (add_neg-drops a xs h.1))
  add_neg-drops a (cons (neg x) xs) h =
      rw (h.0, add_neg) (ap (cons (neg x)) (add_neg-drops a xs h.1))
  add_neg-drops a (cons (inter ys) xs) h = ap (cons (inter ys)) (add_neg-drops a xs h)
  add_neg-drops a (cons (union ys) xs) h = ap (cons (union ys)) (add_neg-drops a xs h)
  add_neg-drops a (cons absent xs) h = ap (cons absent) (add_neg-drops a xs h)

  -- A negation whose item is greater than the item of every literal of a union is lost: OR gives the
  -- union as it was.
  pub not_or_union-drops :
      (a : A) (xs : Logics A) → AllLess cmp a xs → not_or_union cmp a xs ≡ union xs
  unfolding not_or_union
  not_or_union-drops a nil h = refl
  not_or_union-drops a (cons x xs) h = ap union (add_neg-drops a (cons x xs) h)
