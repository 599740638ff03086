-- ===== src/Calc/Logic/Meaning/Negation.antt =====
-- NOT of logic.go against the meaning of formulas.
use arana.Prelude.{◌≡◌, refl, Bool, true, false, not, ◌&&◌, ◌||◌}
use arana.Prelude.Go.{Go, ret, ◌>>=◌}
use arana.Calc.Logic.{
  Logic, Logics, atom, neg, inter, union, absent, nil, cons, is_empty, not_logic, not_each,
}
use arana.Calc.Logic.Meaning.{meaning, all_hold, some_holds, IsPresent, ArePresent}

not-not : (b : Bool) → b ≡ not (not b)
not-not true = refl
not-not false = refl

-- `m` gives the negation of `l`.
abbrev pub Negates : {A : Type 0} → (A → Bool) → Logic A → Go (Logic A) → Type 0
Negates {A} v l m = (r : Logic A) × (m ≡ ret r) × (meaning v r ≡ not (meaning v l))

abbrev NegatesEach : {A : Type 0} → (A → Bool) → Logics A → Go (Logics A) → Type 0
NegatesEach {A} v xs m =
    (rs : Logics A) × (m ≡ ret rs)
    × (is_empty rs ≡ is_empty xs)
    × (some_holds v rs ≡ not (all_hold v xs))
    × (all_hold v rs ≡ not (some_holds v xs))

not_and : (e a : Bool) → e || not a ≡ not (not e && a)
not_and true a = refl
not_and false a = refl

and_not : (a b : Bool) → not a || not b ≡ not (a && b)
and_not true b = refl
and_not false b = refl

not_or : (e a : Bool) → not e && not a ≡ not (e || a)
not_or true a = refl
not_or false a = refl

module _ {A : Type 0} (v : A → Bool) where
  negated_inter :
      (xs : Logics A) (m : Go (Logics A))
      → NegatesEach v xs m
      → Negates v (inter xs) (m >>= λ ys. ret (union ys))
  unfolding meaning
  negated_inter xs m (rs, e, same, some', every) =
      (union rs, rw (e) refl, rw (same, some') (not_and (is_empty xs) (all_hold v xs)))

  negated_union :
      (xs : Logics A) (m : Go (Logics A))
      → NegatesEach v xs m
      → Negates v (union xs) (m >>= λ ys. ret (inter ys))
  unfolding meaning
  negated_union xs m (rs, e, same, some', every) =
      (inter rs, rw (e) refl, rw (same, every) (not_or (is_empty xs) (some_holds v xs)))

  negated_cons :
      (x : Logic A) (xs : Logics A) (m : Go (Logic A)) (n : Go (Logics A))
      → Negates v x m
      → NegatesEach v xs n
      → NegatesEach v (cons x xs) (m >>= λ y. n >>= λ ys. ret (cons y ys))
  unfolding all_hold some_holds
  negated_cons x xs m n (r, e, k) (rs, es, same, some', every) = (
    cons r rs,
    rw (e, es) refl,
    refl,
    rw (k, some') (and_not (meaning v x) (all_hold v xs)),
    rw (k, every) (not_or (meaning v x) (some_holds v xs)),
  )

mutual
  unfolding not_logic meaning IsPresent

  not_logic-Negates :
      {A : Type 0} → (v : A → Bool) (l : Logic A) → IsPresent l → Negates v l (not_logic l)
  not_logic-Negates v (atom a) h = (neg a, refl, refl)
  not_logic-Negates v (neg a) h = (atom a, refl, not-not (v a))
  not_logic-Negates v (inter xs) h = negated_inter v xs (not_each xs) (not_each-Negates v xs h)
  not_logic-Negates v (union xs) h = negated_union v xs (not_each xs) (not_each-Negates v xs h)
  not_logic-Negates v absent h = absurd h

  not_each-Negates :
      {A : Type 0} → (v : A → Bool) (xs : Logics A) → ArePresent xs → NegatesEach v xs (not_each xs)
  not_each-Negates v nil h = (nil, refl, refl, refl, refl)
  not_each-Negates v (cons x xs) h =
      negated_cons v x xs (not_logic x) (not_each xs) (not_logic-Negates v x h.0)
        (not_each-Negates v xs h.1)

-- NOT of a formula without a nil value gives, with no panic, a formula that is true exactly when the
-- argument is false.
pub not_logic-meaning :
    {A : Type 0} (v : A → Bool) (l : Logic A) → IsPresent l → Negates v l (not_logic l)
not_logic-meaning v l h = not_logic-Negates v l h
