-- ===== src/Calc/Logic/Meaning.antt =====
-- What a formula of logic.go says of an assignment of truth values to its items: an OR of nothing is
-- True and an AND of nothing is False, as the source has them.
mod Negation
mod Examples
use Prim.Native.Nat.{Ordering}
use arana.Prelude.{◌≡◌, Bool, true, false, not, ◌&&◌, ◌||◌}
use arana.Calc.Logic.{Logic, Logics, atom, neg, inter, union, absent, nil, cons, is_empty}

unfoldable mutual
  pub meaning : {A : Type 0} → (A → Bool) → Logic A → Bool
  meaning v (atom a) = v a
  meaning v (neg a) = not (v a)
  meaning v (inter xs) = not (is_empty xs) && all_hold v xs
  meaning v (union xs) = is_empty xs || some_holds v xs
  meaning v absent = false

  pub all_hold : {A : Type 0} → (A → Bool) → Logics A → Bool
  all_hold v nil = true
  all_hold v (cons x xs) = meaning v x && all_hold v xs

  pub some_holds : {A : Type 0} → (A → Bool) → Logics A → Bool
  some_holds v nil = false
  some_holds v (cons x xs) = meaning v x || some_holds v xs

-- No part is the nil interface value.
mutual
  pub IsPresent : {A : Type 0} → Logic A → Type 0
  IsPresent (inter xs) = ArePresent xs
  IsPresent (union xs) = ArePresent xs
  IsPresent absent = ⊥
  IsPresent _ = Unit

  pub ArePresent : {A : Type 0} → Logics A → Type 0
  ArePresent nil = Unit
  ArePresent (cons x xs) = IsPresent x × ArePresent xs

-- Items that compare equal have the same truth value.
abbrev pub Respects : {A : Type 0} → (A → A → Ordering) → (A → Bool) → Type 0
Respects {A} cmp v = (a b : A) → cmp a b ≡ Ordering.eq → v a ≡ v b
