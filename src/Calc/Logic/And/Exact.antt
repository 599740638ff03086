-- ===== src/Calc/Logic/And/Exact.antt =====
-- AND of logic.go for literals and conjunctions, against the meaning of formulas.
use Prim.Native.Nat.{Ordering}
use arana.Prelude.{
  ℕ, zero, suc, ◌+◌, ◌*◌, ◌≤◌, ◌≡◌, subst, refl, sym, ◌∙◌, arith, Bool, false, not, ◌&&◌, Option,
  none, some,
}
use mathlib.Core.Option
use arana.Calc.BTree.{BTree}
use arana.Calc.Logic.{Logic, Logics, atom, neg, inter, union, absent, nil, cons, is_empty}
use arana.Calc.Logic.Meaning.{meaning, all_hold, Respects}
use arana.Calc.Logic.And.Ends.{size_pos}
use arana.Calc.Logic.And.{
  Run, Rec, done, atom_and_atom, atom_and_not, not_and_not, keep_atom, atom_and_intersection,
  and_with, and_fuel, and_logic, size,
}

-- The value of what the loop of atomAndIntersection keeps
abbrev kept : {A : Type 0} → (A → Bool) → Option (Logics A) → Bool
kept v none = false
kept v (some ys) = not (is_empty ys) && all_hold v ys

abbrev kept_all : {A : Type 0} → (A → Bool) → Option (Logics A) → Bool
kept_all v none = false
kept_all v (some ys) = all_hold v ys

kept_all-cons :
    {A : Type 0} (v : A → Bool) (x : Logic A) (o : Option (Logics A))
    → kept_all v (Option.map (cons x) o) ≡ meaning v x && kept_all v o
unfolding all_hold
kept_all-cons v x none = ground arith
kept_all-cons v x (some ys) = refl

kept-cons :
    {A : Type 0} (v : A → Bool) (x : Logic A) (o : Option (Logics A))
    → kept v (Option.map (cons x) o) ≡ kept_all v (Option.map (cons x) o)
kept-cons v x none = refl
kept-cons v x (some ys) = refl

kept-result :
    {A : Type 0} (v : A → Bool) (o : Option (Logics A))
    → meaning v (elim o [ none ↦ inter nil | some ys ↦ inter ys ]) ≡ kept v o
unfolding meaning
kept-result v none = refl
kept-result v (some ys) = refl

and_past : (a b x o : Bool) → o ≡ a && b → x && o ≡ a && (x && b)
and_past a b x o h = ground arith

and_comm : (a b : Bool) → a && b ≡ b && a
and_comm a b = ground arith

-- Two literals, or an atom and a conjunction
abbrev pub IsDirect : {A : Type 0} → Logic A → Logic A → Type 0
IsDirect (atom a) (atom b) = Unit
IsDirect (atom a) (neg b) = Unit
IsDirect (neg a) (atom b) = Unit
IsDirect (neg a) (neg b) = Unit
IsDirect (atom a) (inter ys) = Unit
IsDirect (inter xs) (atom b) = Unit
IsDirect _ _ = ⊥

-- `m` gives a formula whose meaning is `b`.
abbrev pub Means : {A : Type 0} → (A → Bool) → Run (Logic A) → Bool → Type 0
Means {A} v m b = (r : Logic A) × (m ≡ done r) × (meaning v r ≡ b)

module _ {A : Type 0} (cmp : A → A → Ordering) (v : A → Bool) (same : Respects cmp v) where
  past :
      (a : A) (x : Logic A) (xs : Logics A)
      → kept_all v (keep_atom cmp a xs) ≡ v a && all_hold v xs
      → kept_all v (Option.map (cons x) (keep_atom cmp a xs))
        ≡ v a && (meaning v x && all_hold v xs)
  past a x xs h =
      kept_all-cons v x (keep_atom cmp a xs)
      ∙ and_past (v a) (all_hold v xs) (meaning v x) (kept_all v (keep_atom cmp a xs)) h

  keep_atom-meaning :
      (a : A) (xs : Logics A) → kept_all v (keep_atom cmp a xs) ≡ v a && all_hold v xs
  unfolding keep_atom meaning all_hold
  keep_atom-meaning a nil = refl
  keep_atom-meaning a (cons (atom x) xs) =
      ground
        (arith, same a x, keep_atom-meaning a xs, kept_all-cons v (atom x) (keep_atom cmp a xs))
  keep_atom-meaning a (cons (neg x) xs) =
      ground (arith, same a x, keep_atom-meaning a xs, kept_all-cons v (neg x) (keep_atom cmp a xs))
  keep_atom-meaning a (cons (inter ys) xs) = past a (inter ys) xs (keep_atom-meaning a xs)
  keep_atom-meaning a (cons (union ys) xs) = past a (union ys) xs (keep_atom-meaning a xs)
  keep_atom-meaning a (cons absent xs) = past a absent xs (keep_atom-meaning a xs)

  keep_atom-kept :
      (a : A) (xs : Logics A) → kept v (keep_atom cmp a xs) ≡ kept_all v (keep_atom cmp a xs)
  unfolding keep_atom
  keep_atom-kept a nil = refl
  keep_atom-kept a (cons (atom x) xs) = ground (arith, kept-cons v (atom x) (keep_atom cmp a xs))
  keep_atom-kept a (cons (neg x) xs) = ground (arith, kept-cons v (neg x) (keep_atom cmp a xs))
  keep_atom-kept a (cons (inter ys) xs) = kept-cons v (inter ys) (keep_atom cmp a xs)
  keep_atom-kept a (cons (union ys) xs) = kept-cons v (union ys) (keep_atom cmp a xs)
  keep_atom-kept a (cons absent xs) = kept-cons v absent (keep_atom cmp a xs)

  atom_and_intersection-meaning :
      (a : A) (xs : Logics A)
      → meaning v (atom_and_intersection cmp a xs) ≡ v a && meaning v (inter xs)
  unfolding atom_and_intersection meaning
  atom_and_intersection-meaning a nil = ground arith
  atom_and_intersection-meaning a (cons x xs) =
      kept-result v (keep_atom cmp a (cons x xs))
      ∙ keep_atom-kept a (cons x xs)
      ∙ keep_atom-meaning a (cons x xs)

  atom_and_atom-meaning : (a b : A) → meaning v (atom_and_atom cmp a b) ≡ v a && v b
  unfolding atom_and_atom meaning all_hold
  atom_and_atom-meaning a b = ground (arith, same a b)

  atom_and_not-meaning : (a b : A) → meaning v (atom_and_not cmp a b) ≡ v a && not (v b)
  unfolding atom_and_not meaning all_hold
  atom_and_not-meaning a b = ground (arith, same a b)

  not_and_not-meaning : (a b : A) → meaning v (not_and_not cmp a b) ≡ not (v a) && not (v b)
  unfolding not_and_not meaning all_hold
  not_and_not-meaning a b = ground (arith, same a b)

  and_with-meaning :
      (bt : BTree (Logic A)) (rec : Rec A) (l m : Logic A)
      → IsDirect l m
      → Means v (and_with cmp bt rec l m) (meaning v l && meaning v m)
  unfolding and_with meaning
  and_with-meaning bt rec (atom a) (atom b) h = (_, refl, atom_and_atom-meaning a b)
  and_with-meaning bt rec (atom a) (neg b) h = (_, refl, atom_and_not-meaning a b)
  and_with-meaning bt rec (atom a) (inter ys) h = (_, refl, atom_and_intersection-meaning a ys)
  and_with-meaning bt rec (neg a) (atom b) h =
      (_, refl, atom_and_not-meaning b a ∙ and_comm (v b) (not (v a)))
  and_with-meaning bt rec (neg a) (neg b) h = (_, refl, not_and_not-meaning a b)
  and_with-meaning bt rec (inter xs) (atom b) h =
      (_, refl, atom_and_intersection-meaning b xs ∙ and_comm (v b) (meaning v (inter xs)))
  and_with-meaning bt rec (atom a) (union ys) h = absurd h
  and_with-meaning bt rec (atom a) absent h = absurd h
  and_with-meaning bt rec (neg a) (inter ys) h = absurd h
  and_with-meaning bt rec (neg a) (union ys) h = absurd h
  and_with-meaning bt rec (neg a) absent h = absurd h
  and_with-meaning bt rec (inter xs) (neg b) h = absurd h
  and_with-meaning bt rec (inter xs) (inter ys) h = absurd h
  and_with-meaning bt rec (inter xs) (union ys) h = absurd h
  and_with-meaning bt rec (inter xs) absent h = absurd h
  and_with-meaning bt rec (union xs) m h = absurd h
  and_with-meaning bt rec absent m h = absurd h

  first_call :
      (bt : BTree (Logic A)) (f : ℕ) (l m : Logic A)
      → 1 ≤ f
      → (rec : Rec A) × (and_fuel cmp bt f l m ≡ and_with cmp bt rec l m)
  unfolding and_fuel
  first_call bt zero l m h = absurd (omega arith)
  first_call bt (suc f) l m h = (and_fuel cmp bt f, refl)

  -- AND of two literals, and of an atom and a conjunction on either side, gives with no panic a formula
  -- that is true exactly when both are, for an order in which items that compare equal have the same
  -- truth value.
  pub and_logic-meaning :
      (bt : BTree (Logic A)) (l m : Logic A)
      → IsDirect l m
      → Means v (and_logic cmp bt l m) (meaning v l && meaning v m)
  unfolding and_logic
  and_logic-meaning bt l m h =
      let (rec, e) = first_call bt (2 * (size l + size m)) l m (omega (arith, size_pos l)) in
      subst (λ r. Means v r (meaning v l && meaning v m)) (sym e) (and_with-meaning bt rec l m h)
