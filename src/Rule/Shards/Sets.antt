-- ===== src/Rule/Shards/Sets.antt =====
-- IntersectionShards of two and of three sets, and UnionShards, in pkg/proto/rule/shards.go.
use arana.Prelude.{
  ℕ, ◌+◌, ◌≤◌, ◌≡◌, ◌↔◌, inl, inr, ap, arith, List, [], ◌∷◌, ◌++◌, ◌==◌, Bool-cases, ==_iff,
}
use arana.Prelude.Go.{ret}
use arana.Calc.BTree.{BTree}
use arana.Rule.Shards.{intersection_shards}
use arana.Rule.Shards.Intersection.{
  In, one_if, times, AreKeys, IsKeyTree, all_keys, times-append, intersection_shards-twice,
}

In-times : (x : ℕ) (xs : List ℕ) → In x xs → 1 ≤ times x xs
In-times x [] h = absurd h
In-times x (y ∷ ys) (inl e) = omega (arith, ap one_if ((==_iff x y).1 e))
In-times x (y ∷ ys) (inr h) = omega (arith, In-times x ys h)

times-In : (x : ℕ) (xs : List ℕ) → 1 ≤ times x xs → In x xs
times-In x [] h = absurd (omega arith)
times-In x (y ∷ ys) h = elim (Bool-cases (x == y)) [
  | inl e ↦ inl ((==_iff x y).0 e)
  | inr e ↦ inr (times-In x ys (omega (arith, ap one_if e)))
]

module _ (bt : BTree ℕ) (tree : IsKeyTree bt) where
  times-two :
      (a b : bt.Tree) (x : ℕ)
      → times x (all_keys bt tree (a ∷ b ∷ [])) ≡ times x (bt.ascend a) + times x (bt.ascend b)
  times-two a b x = omega (
    arith,
    times-append bt tree x (bt.ascend a) (bt.ascend b ++ []),
    times-append bt tree x (bt.ascend b) [],
  )

  -- IntersectionShards of two sets, each of which has the shard at most once, gives exactly the shards
  -- that are in both.
  pub intersection_shards-both :
      (first second : bt.Tree) (x : ℕ)
      → AreKeys (all_keys bt tree (first ∷ second ∷ []))
      → times x (bt.ascend first) ≤ 1
      → times x (bt.ascend second) ≤ 1
      → (t : bt.Tree) × (intersection_shards bt first second [] ≡ ret t)
        × (In x (bt.ascend t) ↔ (In x (bt.ascend first) × In x (bt.ascend second)))
  intersection_shards-both first second x keys once_a once_b =
      let (t, ok, found) = intersection_shards-twice bt tree first second [] x keys in
      let sum = times-two first second x in
      (
        t,
        ok,
        (
          (λ m.
              let two = found.0 m in
              (
                times-In x (bt.ascend first) (omega (arith, sum, two)),
                times-In x (bt.ascend second) (omega (arith, sum, two)),
              )),
          λ m. found.1 (
              omega
                (arith, sum, In-times x (bt.ascend first) m.0, In-times x (bt.ascend second) m.1)),
        ),
      )

  -- With a third argument IntersectionShards gives also the shards that are in the first two sets and
  -- not in the third.
  pub intersection_shards-two_of_three :
      (first second third : bt.Tree) (x : ℕ)
      → AreKeys (all_keys bt tree (first ∷ second ∷ third ∷ []))
      → In x (bt.ascend first)
      → In x (bt.ascend second)
      → ¬ In x (bt.ascend third)
      → (t : bt.Tree) × (intersection_shards bt first second (third ∷ []) ≡ ret t)
        × In x (bt.ascend t)
  intersection_shards-two_of_three first second third x keys a b c =
      let (t, ok, found) = intersection_shards-twice bt tree first second (third ∷ []) x keys in
      (
        t,
        ok,
        found.1 (
            omega (
              arith,
              times-append bt tree x (bt.ascend first)
                  (bt.ascend second ++ (bt.ascend third ++ [])),
              times-append bt tree x (bt.ascend second) (bt.ascend third ++ []),
              In-times x (bt.ascend first) a,
              In-times x (bt.ascend second) b,
            )),
      )
