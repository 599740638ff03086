-- ===== src/Rule/Shards/Union.antt =====
-- UnionShards of pkg/proto/rule/shards.go.
use arana.Prelude.{ℕ, ◌≡◌, ◌↔◌, ◌⊎◌, inl, inr, refl, sym, subst, ◌∙◌, List, [], ◌∷◌, ◌++◌}
use arana.Prelude.Go.{Go, ret, ◌>>=◌}
use arana.Calc.BTree.{BTree}
use arana.Rule.Shards.{get_db, get_table, add, add_each, add_others, union_shards}
use arana.Rule.Shards.Keys.{key-get}
use arana.Rule.Shards.Intersection.{In, AreKeys, IsKeyTree, all_keys, bind_same, bind_assoc}

module _ (bt : BTree ℕ) (tree : IsKeyTree bt) where
  -- `m` gives a tree that has what `t` has, and the keys `ks`.
  abbrev Adds : ℕ → List ℕ → bt.Tree → Go bt.Tree → Type 0
  Adds x ks t m =
      (u : bt.Tree) × (m ≡ ret u) × (In x (bt.ascend u) ↔ (In x (bt.ascend t) ⊎ In x ks))

  add_each-Adds : (x : ℕ) (ks : List ℕ) (t : bt.Tree) → AreKeys ks → Adds x ks t (add_each bt ks t)
  unfolding add_each add
  add_each-Adds x [] t h = (t, refl, (inl, λ m. elim m [ inl q ↦ q | inr q ↦ absurd q ]))
  add_each-Adds x (k ∷ ks) t h =
      let (u, added) = tree.insert k t in
      let one = tree.ascend-insert k x t u added in
      let (r, ok, rest) = add_each-Adds x ks u h.1 in
      (
        r,
        rw (key-get k h.0, added) ok,
        (
          (λ m. elim (rest.0 m) [
            | inl q ↦ elim (one.0 q) [ inl e ↦ inr (inl e) | inr p ↦ inl p ]
            | inr q ↦ inr (inr q)
          ]),
          λ m. elim m [
            | inl p ↦ rest.1 (inl (one.1 (inr p)))
            | inr q ↦ elim q [ inl e ↦ rest.1 (inl (one.1 (inl e))) | inr p ↦ rest.1 (inr p) ]
          ],
        ),
      )

  add_each-append :
      (xs ys : List ℕ) (t : bt.Tree)
      → add_each bt (xs ++ ys) t ≡ (add_each bt xs t >>= λ u. add_each bt ys u)
  unfolding add_each
  add_each-append [] ys t = refl
  add_each-append (x ∷ xs) ys t =
      bind_same (add bt (get_db x) (get_table x ∷ []) t) _ _ (add_each-append xs ys)
      ∙ sym (bind_assoc (add bt (get_db x) (get_table x ∷ []) t) (add_each bt xs) (add_each bt ys))

  add_others-all_keys :
      (ts : List bt.Tree) (t : bt.Tree) → add_others bt ts t ≡ add_each bt (all_keys bt tree ts) t
  unfolding add_others add_each
  add_others-all_keys [] t = refl
  add_others-all_keys (next ∷ ts) t =
      bind_same (add_each bt (bt.ascend next) t) _ _ (add_others-all_keys ts)
      ∙ sym (add_each-append (bt.ascend next) (all_keys bt tree ts) t)

  -- UnionShards gives the keys that the walk of some argument meets, for a tree of keys as documented.
  pub union_shards-any :
      (first second : bt.Tree) (others : List bt.Tree) (x : ℕ)
      → AreKeys (all_keys bt tree (first ∷ second ∷ others))
      → (t : bt.Tree) × (union_shards bt first second others ≡ ret t)
        × (In x (bt.ascend t) ↔ In x (all_keys bt tree (first ∷ second ∷ others)))
  unfolding union_shards
  union_shards-any first second others x h =
      let ts = first ∷ second ∷ others in
      let (t, ok, found) = add_each-Adds x (all_keys bt tree ts) bt.new h in
      (
        t,
        add_others-all_keys ts bt.new ∙ ok,
        (
          (λ m. elim (found.0 m) [ inl q ↦ absurd (subst (In x) tree.ascend-new q) | inr q ↦ q ]),
          λ m. found.1 (inr m),
        ),
      )
