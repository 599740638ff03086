-- ===== src/Calc/Logic/Or.antt =====
-- OR of logic.go, with the helpers that it calls for each pair of kinds.
mod Exact
mod Unions
mod Examples
use Prim.Native.Nat.{Ordering}
use arana.Prelude.{Bool, true, false, ◌||◌, Option, none, some, List, [], ◌∷◌, if◌then◌else◌}
use arana.Prelude.Go.{Go, ret, panic, ◌>>=◌}
use arana.Calc.BTree.{BTree}
use arana.Calc.Logic.{
  Logic, Logics, atom, neg, inter, union, absent, nil, cons, pair, is_empty, true_logic, pack,
}

module _ {A : Type 0} (cmp : A → A → Ordering) where
  pub atom_or_atom : A → A → Logic A
  atom_or_atom a b = elim (cmp a b) [
    | Ordering.eq ↦ atom a
    | Ordering.lt ↦ union (pair (atom a) (atom b))
    | Ordering.gt ↦ union (pair (atom b) (atom a))
  ]

  pub atom_or_not : A → A → Logic A
  atom_or_not a b = elim (cmp a b) [
    | Ordering.eq ↦ union nil
    | Ordering.lt ↦ union (pair (atom a) (neg b))
    | Ordering.gt ↦ union (pair (neg b) (atom a))
  ]

  pub not_or_not : A → A → Logic A
  not_or_not a b = elim (cmp a b) [
    | Ordering.eq ↦ neg a
    | Ordering.lt ↦ union (pair (neg a) (neg b))
    | Ordering.gt ↦ union (pair (neg b) (neg a))
  ]

  -- `Compare == 0` of two items
  unfoldable pub equal : A → A → Bool
  equal a b = elim (cmp a b) [ Ordering.eq ↦ true | _ ↦ false ]

  -- Some member is the atom, or its negation.
  pub has_atom : A → Logics A → Bool
  unfolding equal
  has_atom a nil = false
  has_atom a (cons (atom x) xs) = equal a x || has_atom a xs
  has_atom a (cons _ xs) = has_atom a xs

  pub has_neg : A → Logics A → Bool
  unfolding equal
  has_neg a nil = false
  has_neg a (cons (neg x) xs) = equal a x || has_neg a xs
  has_neg a (cons _ xs) = has_neg a xs

  pub atom_or_intersection : A → Logics A → Logic A
  unfolding has_atom
  atom_or_intersection a nil = atom a
  atom_or_intersection a (cons x xs) =
      if has_atom a (cons x xs) then atom a else union (pair (atom a) (inter (cons x xs)))

  pub not_or_intersection : A → Logics A → Logic A
  unfolding has_neg
  not_or_intersection a nil = neg a
  not_or_intersection a (cons x xs) =
      if has_neg a (cons x xs) then neg a else union (pair (neg a) (inter (cons x xs)))

  -- The loop of atomOrUnion with the test on `added` behind it
  pub add_atom : A → Logics A → Logics A
  add_atom a nil = cons (atom a) nil
  add_atom a (cons (atom x) xs) =
      let rest = add_atom a xs in
      elim (cmp a x) [
        | Ordering.lt ↦ cons (atom a) (cons (atom x) xs)
        | Ordering.eq ↦ cons (atom a) xs
        | Ordering.gt ↦ cons (atom x) rest
      ]
  add_atom a (cons (neg x) xs) =
      let rest = add_atom a xs in
      elim (cmp a x) [
        | Ordering.lt ↦ cons (atom a) (cons (neg x) xs)
        | Ordering.eq ↦ xs
        | Ordering.gt ↦ cons (neg x) rest
      ]
  add_atom a (cons x xs) = cons x (add_atom a xs)

  pub atom_or_union : A → Logics A → Logic A
  unfolding add_atom
  atom_or_union a nil = union nil
  atom_or_union a (cons x xs) = union (add_atom a (cons x xs))

  -- The loop of notOrUnion, which has no test on `added` behind it
  pub add_neg : A → Logics A → Logics A
  add_neg a nil = nil
  add_neg a (cons (neg x) xs) =
      let rest = add_neg a xs in
      elim (cmp a x) [
        | Ordering.lt ↦ cons (neg a) (cons (neg x) xs)
        | Ordering.eq ↦ cons (neg a) xs
        | Ordering.gt ↦ cons (neg x) rest
      ]
  add_neg a (cons (atom x) xs) =
      let rest = add_neg a xs in
      elim (cmp a x) [
        | Ordering.lt ↦ cons (neg a) (cons (atom x) xs)
        | Ordering.eq ↦ xs
        | Ordering.gt ↦ cons (atom x) rest
      ]
  add_neg a (cons x xs) = cons x (add_neg a xs)

  pub not_or_union : A → Logics A → Logic A
  unfolding add_neg
  not_or_union a nil = union nil
  not_or_union a (cons x xs) = union (add_neg a (cons x xs))

  -- The double loop for an atom, or a negation, that is a member of both
  unfoldable pub share_literal : Logics A → Logics A → Bool
  unfolding has_atom has_neg
  share_literal nil ys = false
  share_literal (cons (atom x) xs) ys = has_atom x ys || share_literal xs ys
  share_literal (cons (neg x) xs) ys = has_neg x ys || share_literal xs ys
  share_literal (cons _ xs) ys = share_literal xs ys

  pub intersection_or_intersection : Logics A → Logics A → Logic A
  intersection_or_intersection nil ys = inter ys
  intersection_or_intersection (cons x xs) nil = inter (cons x xs)
  intersection_or_intersection (cons x xs) (cons y ys) =
      union (pair (inter (cons x xs)) (inter (cons y ys)))

  module _ (bt : BTree (Logic A)) where
    pub insert_all : Logics A → bt.Tree → Go bt.Tree
    insert_all nil t = ret t
    insert_all (cons x xs) t = bt.replace_or_insert x t >>= λ u. insert_all xs u

    pub intersection_or_union : Logics A → Logics A → Go (Logic A)
    unfolding share_literal insert_all
    intersection_or_union xs nil = ret (union nil)
    intersection_or_union nil (cons y ys) = ret (union (cons y ys))
    intersection_or_union (cons x xs) (cons y ys) =
        if share_literal (cons x xs) (cons y ys)
        then ret (union (cons y ys))
        else (insert_all (cons (inter (cons x xs)) (cons y ys)) bt.new >>= λ t.
            ret (union (pack (bt.ascend t))))

    -- The `switch` of unionOrUnion on one OR: `none` is its early return of True.
    pub take_union : Logic A → bt.Tree → Go (Option bt.Tree)
    unfolding insert_all
    take_union (union nil) t = ret none
    take_union (union (cons x xs)) t = insert_all (cons x xs) t >>= λ u. ret (some u)
    take_union absent t = ret (some t)
    take_union l t = bt.replace_or_insert l t >>= λ u. ret (some u)

    mutual
      unfolding atom_or_union not_or_union intersection_or_union take_union

      -- OR of a union and a formula
      pub union_or : Logics A → Logic A → Go (Logic A)
      union_or xs (atom a) = ret (atom_or_union a xs)
      union_or xs (neg a) = ret (not_or_union a xs)
      union_or xs (inter ys) = intersection_or_union ys xs
      union_or xs (union ys) =
          let each = union_or_each xs ys bt.new in
          elim xs [
            | nil ↦ ret (union nil)
            | cons x xs' ↦ elim ys [ nil ↦ ret (union nil) | cons y ys' ↦ each ]
          ]
      union_or xs absent = panic

      -- the loop of unionOrUnion, for two unions that are not empty
      pub union_or_each : Logics A → Logics A → bt.Tree → Go (Logic A)
      union_or_each xs nil t = ret (union (pack (bt.ascend t)))
      union_or_each xs (cons y ys) t = union_or xs y >>= λ l.
          take_union l t >>= λ o. elim o [ none ↦ ret (union nil) | some u ↦ union_or_each xs ys u ]

    -- OR
    unfoldable pub or_logic : Logic A → Logic A → Go (Logic A)
    unfolding atom_or_atom atom_or_not not_or_not atom_or_intersection not_or_intersection
        intersection_or_intersection union_or
    or_logic (atom a) (atom b) = ret (atom_or_atom a b)
    or_logic (atom a) (neg b) = ret (atom_or_not a b)
    or_logic (atom a) (inter ys) = ret (atom_or_intersection a ys)
    or_logic (atom a) (union ys) = union_or ys (atom a)
    or_logic (neg a) (atom b) = ret (atom_or_not b a)
    or_logic (neg a) (neg b) = ret (not_or_not a b)
    or_logic (neg a) (inter ys) = ret (not_or_intersection a ys)
    or_logic (neg a) (union ys) = union_or ys (neg a)
    or_logic (inter xs) (atom b) = ret (atom_or_intersection b xs)
    or_logic (inter xs) (neg b) = ret (not_or_intersection b xs)
    or_logic (inter xs) (inter ys) = ret (intersection_or_intersection xs ys)
    or_logic (inter xs) (union ys) = union_or ys (inter xs)
    or_logic (union xs) b = union_or xs b
    or_logic (atom a) absent = panic
    or_logic (neg a) absent = panic
    or_logic (inter xs) absent = panic
    or_logic absent b = panic
