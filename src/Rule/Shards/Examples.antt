-- ===== src/Rule/Shards/Examples.antt =====
-- Sets of shards on which the theorems on pkg/proto/rule/shards.go are used.
use arana.Prelude.{
  ℕ, ◌+◌, ◌^◌, ◌≡◌, ◌↔◌, ◌⊎◌, inl, inr, refl, subst, ◌∙◌, arith, ltb, List, [], ◌∷◌, ◌==◌,
  if◌then◌else◌, Bool-cases, ==_iff,
}
use arana.Prelude.Go.{ret, ret-injective}
use arana.Calc.BTree.{BTree}
use arana.Rule.Shards.{less_shard, intersection_shards, union_shards}
use arana.Rule.Shards.Keys.{less_shard-ltb}
use arana.Rule.Shards.Intersection.{In, IsKeyTree, all_keys}
use arana.Rule.Shards.Sets.{intersection_shards-both}
use arana.Rule.Shards.Union.{union_shards-any}

-- A tree as a list in ascending order
abbrev put_in : ℕ → List ℕ → List ℕ
put_in k [] = k ∷ []
put_in k (x ∷ xs) =
    let rest = put_in k xs in if k == x then x ∷ xs else (if ltb k x then k ∷ x ∷ xs else x ∷ rest)

put_in-In : (k x : ℕ) (xs : List ℕ) → In x (put_in k xs) ↔ ((x ≡ k) ⊎ In x xs)
put_in-In k x [] = ((λ h. h), λ h. h)
put_in-In k x (y ∷ ys) = elim (Bool-cases (k == y)) [
  | inl e ↦ rw (e) (inr, λ h. elim h [ inl q ↦ inl (q ∙ (==_iff k y).0 e) | inr p ↦ p ])
  | inr e ↦ rw (e) (elim (Bool-cases (ltb k y)) [
    | inl l ↦ rw (l) ((λ h. h), λ h. h)
    | inr l ↦
        let rest = put_in-In k x ys in
        rw (l) (
          (λ h. elim h [
            | inl q ↦ inr (inl q)
            | inr p ↦ elim (rest.0 p) [ inl q ↦ inl q | inr j ↦ inr (inr j) ]
          ]),
          λ h. elim h [
            | inl q ↦ inr (rest.1 (inl q))
            | inr p ↦ elim p [ inl q ↦ inl q | inr j ↦ inr (rest.1 (inr j)) ]
          ],
        )
  ])
]

abbrev list_tree : BTree ℕ
list_tree = record {
  Tree = List ℕ;
  new = [];
  replace_or_insert = λ k t. ret (put_in k t);
  ascend = λ t. t;
}

list_tree-IsKeyTree : IsKeyTree list_tree
list_tree-IsKeyTree = record {
  ascend-new = refl;
  insert = λ k t. (put_in k t, refl);
  ascend-insert =
      λ k x t u e. subst (λ v. In x v ↔ ((x ≡ k) ⊎ In x t)) (ret-injective e) (put_in-In k x t);
}

abbrev a : List ℕ
a = 7 ∷ (2 ^ 32 + 3) ∷ []

abbrev b : List ℕ
b = (2 ^ 32 + 3) ∷ (2 ^ 33) ∷ []

abbrev c : List ℕ
c = (2 ^ 33) ∷ []

less_shard-ltb_example : less_shard (2 ^ 32 + 3) 7 ≡ ltb (2 ^ 32 + 3) 7
less_shard-ltb_example = less_shard-ltb (2 ^ 32 + 3) 7 (ground arith) (ground arith)

intersection_shards-both_example :
    (t : List ℕ) × (intersection_shards list_tree a b [] ≡ ret t) × (In 7 t ↔ (In 7 a × In 7 b))
intersection_shards-both_example =
    intersection_shards-both list_tree list_tree-IsKeyTree a b 7 (ground arith) (ground arith)
      (ground arith)

union_shards-any_example :
    (t : List ℕ) × (union_shards list_tree a b (c ∷ []) ≡ ret t)
    × (In 7 t ↔ In 7 (all_keys list_tree list_tree-IsKeyTree (a ∷ b ∷ c ∷ [])))
union_shards-any_example =
    union_shards-any list_tree list_tree-IsKeyTree a b (c ∷ []) 7 (ground arith)
