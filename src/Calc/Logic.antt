-- ===== src/Calc/Logic.antt =====
-- pkg/runtime/calc/logic/logic.go: the normal forms of Boolean formulas over the items of a type,
-- with the constructors, NOT, and the order of formulas. AND and OR are in the children.
pub mod Order
pub mod Or
pub mod And
pub mod Meaning
mod Samples
use arana.Prelude.{
  ℕ, zero, suc, ◌+◌, Bool, true, false, not, ◌&&◌, ◌||◌, Option, none, some, List, [], ◌∷◌, ltb,
  if◌then◌else◌,
}
use arana.Prelude.Go.{Go, ret, panic, ◌>>=◌}

-- `neg` is notLogic, whose origin is an atom; `absent` is the nil interface value.
mutual
  pub data Logic (A : Type 0) : Type 0 where
    atom : A → Logic A
    neg : A → Logic A
    inter : Logics A → Logic A
    union : Logics A → Logic A
    absent : Logic A

  pub data Logics (A : Type 0) : Type 0 where
    nil : Logics A
    cons : Logic A → Logics A → Logics A

module _ {A : Type 0} where
  abbrev pub pair : Logic A → Logic A → Logics A
  pair a b = cons a (cons b nil)

  -- True, False
  pub true_logic : Logic A
  true_logic = union nil

  pub false_logic : Logic A
  false_logic = inter nil

  -- Wrap
  pub wrap : A → Logic A
  wrap v = atom v

  abbrev pub is_empty : Logics A → Bool
  is_empty nil = true
  is_empty (cons x xs) = false

  abbrev pub count : Logics A → ℕ
  count nil = 0
  count (cons x xs) = suc (count xs)

  abbrev pub pack : List (Logic A) → Logics A
  pack [] = nil
  pack (x ∷ xs) = cons x (pack xs)

-- NOT; its `switch` has no case for a nil.
mutual
  pub not_logic : {A : Type 0} → Logic A → Go (Logic A)
  not_logic (atom v) = ret (neg v)
  not_logic (neg v) = ret (atom v)
  not_logic (inter xs) = not_each xs >>= λ ys. ret (union ys)
  not_logic (union xs) = not_each xs >>= λ ys. ret (inter ys)
  not_logic absent = panic

  pub not_each : {A : Type 0} → Logics A → Go (Logics A)
  not_each nil = ret nil
  not_each (cons x xs) = not_logic x >>= λ y. not_each xs >>= λ ys. ret (cons y ys)
