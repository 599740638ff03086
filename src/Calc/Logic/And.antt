-- ===== src/Calc/Logic/And.antt =====
-- AND of logic.go, with the helpers that it calls for each pair of kinds. AND calls itself on the
-- members of its arguments, so it runs on fuel; the helpers take that call as `rec`.
mod Ends
mod Literals
mod Sets
mod Exact
mod Fuel
mod Examples
use Prim.Native.Nat.{Ordering}
use arana.Prelude.{
  ℕ, zero, suc, ◌+◌, ◌*◌, Bool, true, false, ◌||◌, Option, none, some, List, [], ◌∷◌, if◌then◌else◌,
}
use mathlib.Core.Option
use arana.Prelude.Go.{Go}
use arana.Calc.BTree.{BTree}
use arana.Calc.Logic.{Logic, Logics, atom, neg, inter, union, absent, nil, cons, pair, pack}
use arana.Calc.Logic.Or.{equal, share_literal, or_logic}

-- `no_fuel` is not a result of the code.
pub data Run (X : Type 0) : Type 0 where
  done : X → Run X
  panicked : Run X
  no_fuel : Run X

infixl 5 ◌>>=◌
abbrev pub ◌>>=◌ : {X Y : Type 0} → Run X → (X → Run Y) → Run Y
done x >>= f = f x
panicked >>= f = panicked
no_fuel >>= f = no_fuel

abbrev pub run : {X : Type 0} → Go X → Run X
run (Go.ret x) = done x
run Go.panic = panicked

abbrev pub Rec : Type 0 → Type 0
Rec A = Logic A → Logic A → Run (Logic A)

mutual
  pub size : {A : Type 0} → Logic A → ℕ
  size (atom a) = 1
  size (neg a) = 1
  size (inter xs) = suc (size_all xs)
  size (union xs) = suc (size_all xs)
  size absent = 1

  pub size_all : {A : Type 0} → Logics A → ℕ
  size_all nil = 0
  size_all (cons x xs) = size x + size_all xs

module _ {A : Type 0} where
  -- The test of notAndUnion on one AND, before the rest of the loop
  pub keep_in_union : Run (Option (Logics A)) → Logic A → Run (Option (Logics A))
  keep_in_union rest absent = rest
  keep_in_union rest (union nil) = done none
  keep_in_union rest (inter nil) = rest
  keep_in_union rest l = rest >>= λ o. done (Option.map (cons l) o)

  -- The test of notAndIntersection on one AND
  pub keep_in_intersection : Run (Option (Logics A)) → Logic A → Run (Option (Logics A))
  keep_in_intersection rest (inter nil) = done none
  keep_in_intersection rest (union nil) = rest
  keep_in_intersection rest l = rest >>= λ o. done (Option.map (cons l) o)

module _ {A : Type 0} (cmp : A → A → Ordering) where
  pub atom_and_atom : A → A → Logic A
  atom_and_atom a b = elim (cmp a b) [
    | Ordering.gt ↦ inter (pair (atom b) (atom a))
    | Ordering.lt ↦ inter (pair (atom a) (atom b))
    | Ordering.eq ↦ atom a
  ]

  pub atom_and_not : A → A → Logic A
  atom_and_not a b = elim (cmp a b) [
    | Ordering.eq ↦ inter nil
    | Ordering.lt ↦ inter (pair (atom a) (neg b))
    | Ordering.gt ↦ inter (pair (neg b) (atom a))
  ]

  pub not_and_not : A → A → Logic A
  not_and_not a b = elim (cmp a b) [
    | Ordering.gt ↦ inter (pair (neg b) (neg a))
    | Ordering.lt ↦ inter (pair (neg a) (neg b))
    | Ordering.eq ↦ neg a
  ]

  -- The loop of atomAndIntersection with the test on `added` behind it; `none` is its early
  -- return of False.
  pub keep_atom : A → Logics A → Option (Logics A)
  keep_atom a nil = some (cons (atom a) nil)
  keep_atom a (cons (atom x) xs) =
      let rest = Option.map (cons (atom x)) (keep_atom a xs) in
      elim (cmp a x) [
        | Ordering.eq ↦ some (cons (atom x) xs)
        | Ordering.lt ↦ some (cons (atom a) (cons (atom x) xs))
        | Ordering.gt ↦ rest
      ]
  keep_atom a (cons (neg x) xs) =
      let rest = Option.map (cons (neg x)) (keep_atom a xs) in
      elim (cmp a x) [
        | Ordering.eq ↦ none
        | Ordering.lt ↦ some (cons (atom a) (cons (neg x) xs))
        | Ordering.gt ↦ rest
      ]
  keep_atom a (cons x xs) = Option.map (cons x) (keep_atom a xs)

  pub atom_and_intersection : A → Logics A → Logic A
  unfolding keep_atom
  atom_and_intersection a nil = inter nil
  atom_and_intersection a (cons x xs) = elim (keep_atom a (cons x xs)) [
    | none ↦ inter nil
    | some ys ↦ inter ys
  ]

  -- the first loop of atomAndUnion
  pub has_same_atom : A → Logics A → Bool
  unfolding equal
  has_same_atom a nil = false
  has_same_atom a (cons (atom x) xs) = equal cmp x a || has_same_atom a xs
  has_same_atom a (cons _ xs) = has_same_atom a xs

  module _ (rec : Rec A) where
    -- its second loop
    pub and_each : Logic A → Logics A → Run (Logics A)
    and_each l nil = done nil
    and_each l (cons x xs) = rec l x >>= λ y. and_each l xs >>= λ ys. done (cons y ys)

    pub atom_and_union : A → Logics A → Run (Logic A)
    unfolding has_same_atom and_each
    atom_and_union a xs =
        if has_same_atom a xs
        then done (atom a)
        else (and_each (atom a) xs >>= λ ys. done (union ys))

    -- The loop of notAndUnion; `none` is its early return of True.
    pub not_and_each : A → Logics A → Run (Option (Logics A))
    unfolding keep_in_union
    not_and_each a nil = done (some nil)
    not_and_each a (cons x xs) =
        let rest = not_and_each a xs in rec (neg a) x >>= λ l. keep_in_union rest l

    pub not_and_union : A → Logics A → Run (Logic A)
    unfolding not_and_each
    not_and_union a nil = done (neg a)
    not_and_union a (cons x xs) = not_and_each a (cons x xs) >>= λ o. elim o [
      | none ↦ done (union nil)
      | some ys ↦ elim ys [ nil ↦ done (inter nil) | cons y ys' ↦ done (union (cons y ys')) ]
    ]

    -- The loop of notAndIntersection; `none` is its early return of False.
    pub not_with_each : A → Logics A → Run (Option (Logics A))
    unfolding keep_in_intersection
    not_with_each a nil = done (some nil)
    not_with_each a (cons x xs) =
        let rest = not_with_each a xs in rec (neg a) x >>= λ l. keep_in_intersection rest l

    pub not_and_intersection : A → Logics A → Run (Logic A)
    unfolding not_with_each
    not_and_intersection a nil = done absent
    not_and_intersection a (cons x xs) = not_with_each a (cons x xs) >>= λ o. elim o [
      | none ↦ done (inter nil)
      | some ys ↦ done (inter ys)
    ]

    module _ (bt : BTree (Logic A)) where
      pub insert_each : Logics A → bt.Tree → Run bt.Tree
      insert_each nil t = done t
      insert_each (cons x xs) t = run (bt.replace_or_insert x t) >>= λ u. insert_each xs u

      -- The `switch` of intersectionAndIntersection on one AND; `none` is its early return.
      pub take_intersection : Logic A → bt.Tree → Run (Option bt.Tree)
      unfolding insert_each
      take_intersection (atom a) t = run (bt.replace_or_insert (atom a) t) >>= λ u. done (some u)
      take_intersection (neg a) t = run (bt.replace_or_insert (neg a) t) >>= λ u. done (some u)
      take_intersection (inter nil) t = done none
      take_intersection (inter (cons x xs)) t = insert_each (cons x xs) t >>= λ u. done (some u)
      take_intersection (union xs) t = panicked
      take_intersection absent t = done (some t)

      pub intersect_each : Logics A → Logics A → bt.Tree → Run (Logic A)
      unfolding take_intersection
      intersect_each nil ys t = done (inter (pack (bt.ascend t)))
      intersect_each (cons x xs) ys t = rec x (inter ys) >>= λ l. take_intersection l t >>= λ o.
          elim o [ none ↦ done (inter nil) | some u ↦ intersect_each xs ys u ]

      pub intersection_and_intersection : Logics A → Logics A → Run (Logic A)
      unfolding intersect_each
      intersection_and_intersection nil ys = done (inter nil)
      intersection_and_intersection (cons x xs) nil = done (inter nil)
      intersection_and_intersection (cons x xs) (cons y ys) =
          intersect_each (cons x xs) (cons y ys) bt.new

      pub distribute : Logics A → Logics A → bt.Tree → Run bt.Tree
      distribute xs nil t = done t
      distribute xs (cons y ys) t =
          rec (inter xs) y >>= λ l. run (bt.replace_or_insert l t) >>= λ u. distribute xs ys u

      pub intersection_and_union : Logics A → Logics A → Run (Logic A)
      unfolding distribute share_literal
      intersection_and_union nil ys = done (inter nil)
      intersection_and_union (cons x xs) nil = done (inter (cons x xs))
      intersection_and_union (cons x xs) (cons y ys) =
          if share_literal cmp (cons x xs) (cons y ys)
          then done (inter (cons x xs))
          else (distribute (cons x xs) (cons y ys) bt.new >>= λ t.
              done (union (pack (bt.ascend t))))

      -- `if result == nil { result = next } else { result = OR(result, next) }`
      pub or_result : Logic A → Logic A → Run (Logic A)
      unfolding or_logic
      or_result absent next = done next
      or_result result next = run (or_logic cmp bt result next)

      pub cross_row : Logic A → Logics A → Logic A → Run (Logic A)
      unfolding or_result
      cross_row x nil result = done result
      cross_row x (cons y ys) result =
          rec x y >>= λ next. or_result result next >>= λ r. cross_row x ys r

      pub cross : Logics A → Logics A → Logic A → Run (Logic A)
      unfolding cross_row
      cross nil ys result = done result
      cross (cons x xs) ys result = cross_row x ys result >>= λ r. cross xs ys r

      pub union_and_union : Logics A → Logics A → Run (Logic A)
      unfolding cross
      union_and_union nil ys = done (union ys)
      union_and_union (cons x xs) nil = done (union (cons x xs))
      union_and_union (cons x xs) (cons y ys) = cross (cons x xs) (cons y ys) absent

  module _ (bt : BTree (Logic A)) where
    -- AND
    pub and_with : Rec A → Rec A
    unfolding atom_and_atom atom_and_not not_and_not atom_and_intersection atom_and_union
        not_and_union not_and_intersection intersection_and_intersection intersection_and_union
        union_and_union
    and_with rec (atom a) (atom b) = done (atom_and_atom a b)
    and_with rec (atom a) (neg b) = done (atom_and_not a b)
    and_with rec (atom a) (inter ys) = done (atom_and_intersection a ys)
    and_with rec (atom a) (union ys) = atom_and_union rec a ys
    and_with rec (neg a) (atom b) = done (atom_and_not b a)
    and_with rec (neg a) (neg b) = done (not_and_not a b)
    and_with rec (neg a) (inter ys) = not_and_intersection rec a ys
    and_with rec (neg a) (union ys) = not_and_union rec a ys
    and_with rec (inter xs) (atom b) = done (atom_and_intersection b xs)
    and_with rec (inter xs) (neg b) = not_and_intersection rec b xs
    and_with rec (inter xs) (inter ys) = intersection_and_intersection rec bt xs ys
    and_with rec (inter xs) (union ys) = intersection_and_union rec bt xs ys
    and_with rec (union xs) (atom b) = rec (atom b) (union xs)
    and_with rec (union xs) (neg b) = not_and_union rec b xs
    and_with rec (union xs) (inter ys) = intersection_and_union rec bt ys xs
    and_with rec (union xs) (union ys) = union_and_union rec bt xs ys
    and_with rec _ _ = panicked

    pub and_fuel : ℕ → Rec A
    unfolding and_with
    and_fuel zero first second = no_fuel
    and_fuel (suc f) first second = and_with (and_fuel f) first second

    pub and_logic : Rec A
    unfolding and_fuel
    and_logic first second = and_fuel (2 * (size first + size second)) first second
