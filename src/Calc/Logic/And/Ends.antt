-- ===== src/Calc/Logic/And/Ends.antt =====
-- Runs of AND of logic.go that have not used up their fuel.
use arana.Prelude.{ℕ, ◌+◌, ◌≤◌, ◌<◌, ◌≡◌, ◌⊎◌, refl, arith, inl, inr, Option, none, some}
use arana.Prelude.Go.{Go}
use arana.Calc.Logic.{Logic, Logics, atom, neg, inter, union, absent, nil, cons}
use arana.Calc.Logic.And.{Run, done, panicked, no_fuel, ◌>>=◌, run, Rec, size}

abbrev pub Ends : {X : Type 0} → Run X → Type 0
Ends no_fuel = ⊥
Ends _ = Unit

pub Ends-bind :
    {X Y : Type 0} (m : Run X) (f : X → Run Y) → Ends m → ((x : X) → Ends (f x)) → Ends (m >>= f)
Ends-bind (done x) f h k = k x
Ends-bind panicked f h k = tt
Ends-bind no_fuel f h k = h

pub Ends-run : {X : Type 0} (m : Go X) → Ends (run m)
Ends-run (Go.ret x) = tt
Ends-run Go.panic = tt

pub Ends-option :
    {X Y : Type 0} (o : Option X) (y : Run Y) (f : X → Run Y)
    → Ends y
    → ((x : X) → Ends (f x))
    → Ends (elim o [ none ↦ y | some x ↦ f x ])
Ends-option none y f h k = h
Ends-option (some x) y f h k = k x

pub Ends-Logics :
    {A Y : Type 0} (m : Run Y) (f : Logic A → Logics A → Run Y)
    → Ends m
    → ((x : Logic A) (xs : Logics A) → Ends (f x xs))
    → (xs : Logics A) → Ends (elim xs [ nil ↦ m | cons x xs' ↦ f x xs' ])
Ends-Logics m f h k nil = h
Ends-Logics m f h k (cons x xs) = k x xs

pub ended : {X : Type 0} (m : Run X) → Ends m → ((r : X) × (m ≡ done r)) ⊎ (m ≡ panicked)
ended (done x) h = inl (x, refl)
ended panicked h = inr refl
ended no_fuel h = absurd h

pub size_pos : {A : Type 0} (l : Logic A) → 1 ≤ size l
unfolding size
size_pos (atom a) = omega arith
size_pos (neg a) = omega arith
size_pos (inter xs) = omega arith
size_pos (union xs) = omega arith
size_pos absent = omega arith

-- `rec` ends on formulas of fewer than `n` nodes.
abbrev pub EndsBelow : {A : Type 0} → Rec A → ℕ → Type 0
EndsBelow {A} rec n = (x y : Logic A) → size x + size y < n → Ends (rec x y)
