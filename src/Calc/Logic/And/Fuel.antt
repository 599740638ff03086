-- ===== src/Calc/Logic/And/Fuel.antt =====
-- AND of logic.go calls itself on the members of its arguments: the fuel that and_logic gives it.
use Prim.Native.Nat.{Ordering}
use arana.Prelude.{ℕ, zero, suc, ◌+◌, ◌*◌, ◌≤◌, ◌≡◌, ◌⊎◌, arith}
use arana.Calc.BTree.{BTree}
use arana.Calc.Logic.{Logic, atom, neg, inter, union, absent}
use arana.Calc.Logic.And.{done, panicked, Rec, size, and_with, and_fuel, and_logic}
use arana.Calc.Logic.And.Ends.{Ends, ended, size_pos, EndsBelow}
use arana.Calc.Logic.And.Literals.{
  atom_and_union-Ends, not_and_union-Ends, not_and_intersection-Ends,
}
use arana.Calc.Logic.And.Sets.{
  intersection_and_intersection-Ends, intersection_and_union-Ends, union_and_union-Ends,
}

-- The one call on arguments of the same size: AND swaps a union and an atom.
abbrev SwapEnds : {A : Type 0} → Rec A → Logic A → Logic A → Type 0
SwapEnds rec (union xs) (atom b) = Ends (rec (atom b) (union xs))
SwapEnds rec _ _ = Unit

module _ {A : Type 0} (cmp : A → A → Ordering) (bt : BTree (Logic A)) where
  and_with-Ends :
      (rec : Rec A) (a b : Logic A)
      → EndsBelow rec (size a + size b)
      → SwapEnds rec a b
      → Ends (and_with cmp bt rec a b)
  unfolding and_with size
  and_with-Ends rec (atom a) (atom b) below swap = tt
  and_with-Ends rec (atom a) (neg b) below swap = tt
  and_with-Ends rec (atom a) (inter ys) below swap = tt
  and_with-Ends rec (atom a) (union ys) below swap =
      atom_and_union-Ends cmp rec _ below a ys (omega arith)
  and_with-Ends rec (atom a) absent below swap = tt
  and_with-Ends rec (neg a) (atom b) below swap = tt
  and_with-Ends rec (neg a) (neg b) below swap = tt
  and_with-Ends rec (neg a) (inter ys) below swap =
      not_and_intersection-Ends cmp rec _ below a ys (omega arith)
  and_with-Ends rec (neg a) (union ys) below swap =
      not_and_union-Ends cmp rec _ below a ys (omega arith)
  and_with-Ends rec (neg a) absent below swap = tt
  and_with-Ends rec (inter xs) (atom b) below swap = tt
  and_with-Ends rec (inter xs) (neg b) below swap =
      not_and_intersection-Ends cmp rec _ below b xs (omega arith)
  and_with-Ends rec (inter xs) (inter ys) below swap =
      intersection_and_intersection-Ends cmp rec _ below bt xs ys (omega arith)
  and_with-Ends rec (inter xs) (union ys) below swap =
      intersection_and_union-Ends cmp rec _ below bt xs ys (omega arith)
  and_with-Ends rec (inter xs) absent below swap = tt
  and_with-Ends rec (union xs) (atom b) below swap = swap
  and_with-Ends rec (union xs) (neg b) below swap =
      not_and_union-Ends cmp rec _ below b xs (omega arith)
  and_with-Ends rec (union xs) (inter ys) below swap =
      intersection_and_union-Ends cmp rec _ below bt ys xs (omega arith)
  and_with-Ends rec (union xs) (union ys) below swap =
      union_and_union-Ends cmp rec _ below bt xs ys (omega arith)
  and_with-Ends rec (union xs) absent below swap = tt
  and_with-Ends rec absent b below swap = tt

  swap-Ends :
      (f : ℕ) (a b : Logic A)
      → ((x y : Logic A) → 2 * (size x + size y) ≤ f → Ends (and_fuel cmp bt f x y))
      → 2 * (size a + size b) ≤ suc (suc f)
      → SwapEnds (and_fuel cmp bt (suc f)) a b
  unfolding and_fuel size
  swap-Ends f (union xs) (atom b) ih h =
      and_with-Ends (and_fuel cmp bt f) (atom b) (union xs) (λ x y l. ih x y (omega arith)) tt
  swap-Ends f _ _ ih h = tt

  and_fuel-Ends : (f : ℕ) (a b : Logic A) → 2 * (size a + size b) ≤ f → Ends (and_fuel cmp bt f a b)
  unfolding and_fuel
  and_fuel-Ends zero a b h = absurd (omega (arith, size_pos a))
  and_fuel-Ends (suc zero) a b h = absurd (omega (arith, size_pos a))
  and_fuel-Ends (suc (suc f)) a b h =
      and_with-Ends (and_fuel cmp bt (suc f)) a b (λ x y l. and_fuel-Ends (suc f) x y (omega arith))
        (swap-Ends f a b (and_fuel-Ends f) h)

  -- AND ends: with the fuel that and_logic gives it, twice the number of nodes of its arguments, it
  -- gives a formula or the panic of the code, for every order and every tree.
  pub and_logic-total :
      (a b : Logic A)
      → ((r : Logic A) × (and_logic cmp bt a b ≡ done r)) ⊎ (and_logic cmp bt a b ≡ panicked)
  unfolding and_logic
  and_logic-total a b =
      ended (and_logic cmp bt a b) (and_fuel-Ends (2 * (size a + size b)) a b (omega arith))
