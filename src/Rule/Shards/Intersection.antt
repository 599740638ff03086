-- ===== src/Rule/Shards/Intersection.antt =====
-- IntersectionShards and UnionShards of pkg/proto/rule/shards.go.
use arana.Prelude.{
  ℕ, ◌+◌, ◌^◌, ◌≤◌, ◌<◌, ◌≡◌, ◌≢◌, ◌↔◌, ◌⊎◌, inl, inr, refl, sym, ap, subst, ◌∙◌, arith, Bool, true,
  false, ◌||◌, List, [], ◌∷◌, ◌++◌, ◌==◌, Bool-cases, ℕ_discrete, ==_iff,
}
use arana.Prelude.Go.{Go, ret, panic, ◌>>=◌}
use arana.Calc.BTree.{BTree}
use arana.Rule.Shards.{
  get_db, get_table, has_key, add, visit, visit_each, visit_others, intersection_shards,
}
use arana.Rule.Shards.Keys.{key-get}

abbrev pub In : ℕ → List ℕ → Type 0
In x [] = ⊥
In x (y ∷ ys) = (x ≡ y) ⊎ In x ys

abbrev pub one_if : Bool → ℕ
one_if true = 1
one_if false = 0

-- How often a number stands in a list
abbrev pub times : ℕ → List ℕ → ℕ
times x [] = 0
times x (y ∷ ys) = one_if (x == y) + times x ys

abbrev pub AreKeys : List ℕ → Type 0
AreKeys [] = Unit
AreKeys (k ∷ ks) = (k < 2 ^ 64) × AreKeys ks

-- What the tree documents for keys, of which no two are equal to its order: an insertion succeeds, and
-- the walk behind it meets the new key and those of before; the walk of a new tree meets none.
pub record IsKeyTree (bt : BTree ℕ) : Type 0 where
  pub ascend-new : bt.ascend bt.new ≡ []
  pub insert : (k : ℕ) (t : bt.Tree) → (u : bt.Tree) × (bt.replace_or_insert k t ≡ ret u)
  pub ascend-insert :
      (k x : ℕ) (t u : bt.Tree)
      → bt.replace_or_insert k t ≡ ret u
      → In x (bt.ascend u) ↔ ((x ≡ k) ⊎ In x (bt.ascend t))

pub bind_same :
    {A B : Type 0} (m : Go A) (f g : A → Go B) → ((a : A) → f a ≡ g a) → (m >>= f) ≡ (m >>= g)
bind_same (ret a) f g h = h a
bind_same panic f g h = refl

pub bind_assoc :
    {A B C : Type 0} (m : Go A) (f : A → Go B) (g : B → Go C)
    → (m >>= f >>= g) ≡ (m >>= λ a. f a >>= g)
bind_assoc (ret a) f g = refl
bind_assoc panic f g = refl

module _ (bt : BTree ℕ) (tree : IsKeyTree bt) where
  -- The keys of several trees, one after the other
  abbrev pub all_keys : List bt.Tree → List ℕ
  all_keys [] = []
  all_keys (t ∷ ts) = bt.ascend t ++ all_keys ts

  -- What the loop makes of the keys `ks` for the number `x`
  abbrev Visits : ℕ → List ℕ → List ℕ × bt.Tree → Go (List ℕ × bt.Tree) → Type 0
  Visits x ks s m =
      (r : List ℕ × bt.Tree) × (m ≡ ret r)
      × (has_key x r.0 ≡ has_key x s.0 || has_key x ks)
      × (In x (bt.ascend r.1) ↔ (In x (bt.ascend s.1) ⊎ (2 ≤ times x ks + one_if (has_key x s.0))))

  met_again :
      (x k : ℕ) (ks : List ℕ) (visits : List ℕ) (t u : bt.Tree) (r : bt.Tree)
      → has_key k visits ≡ true
      → (In x (bt.ascend u) ↔ ((x ≡ k) ⊎ In x (bt.ascend t)))
      → (In x (bt.ascend r) ↔ (In x (bt.ascend u) ⊎ (2 ≤ times x ks + one_if (has_key x visits))))
      → In x (bt.ascend r)
        ↔ (In x (bt.ascend t) ⊎ (2 ≤ one_if (x == k) + times x ks + one_if (has_key x visits)))
  met_again x k ks visits t u r known ins rest = (forward, backward)
    where
      old : x ≡ k → one_if (has_key x visits) ≡ 1
      old e = ap one_if (subst (λ y. has_key y visits ≡ true) (sym e) known)

      hit : x ≡ k → one_if (x == k) ≡ 1
      hit e = ap one_if ((==_iff x k).1 e)

      miss : x ≢ k → one_if (x == k) ≡ 0
      miss n = elim (Bool-cases (x == k)) [
        | inl e ↦ absurd (n ((==_iff x k).0 e))
        | inr e ↦ ap one_if e
      ]

      forward :
          In x (bt.ascend r)
          → In x (bt.ascend t) ⊎ (2 ≤ one_if (x == k) + times x ks + one_if (has_key x visits))
      forward m = elim (rest.0 m) [
        | inl p ↦ elim (ins.0 p) [ inl e ↦ inr (omega (arith, old e, hit e)) | inr q ↦ inl q ]
        | inr two ↦ inr (omega arith)
      ]

      backward :
          In x (bt.ascend t) ⊎ (2 ≤ one_if (x == k) + times x ks + one_if (has_key x visits))
          → In x (bt.ascend r)
      backward (inl q) = rest.1 (inl (ins.1 (inr q)))
      backward (inr two) = elim (ℕ_discrete x k) [
        | yes e ↦ rest.1 (inl (ins.1 (inl e)))
        | no n ↦ rest.1 (inr (omega (arith, miss n)))
      ]

  one_if-or :
      (x k : ℕ) (visits : List ℕ)
      → has_key k visits ≡ false
      → one_if (x == k || has_key x visits) ≡ one_if (x == k) + one_if (has_key x visits)
  one_if-or x k visits new = elim (Bool-cases (x == k)) [
    | inl e ↦
        let none' : has_key x visits ≡ false =
          subst (λ y. has_key y visits ≡ false) (sym ((==_iff x k).0 e)) new in
        rw (e, none') (omega arith)
    | inr e ↦ rw (e) (omega arith)
  ]

  one_if-le : (b : Bool) → one_if b ≤ 1
  one_if-le true = omega arith
  one_if-le false = omega arith

  seen_again :
      (x k : ℕ) (visits : List ℕ) (later : Bool)
      → has_key k visits ≡ true
      → has_key x visits || later ≡ has_key x visits || (x == k || later)
  seen_again x k visits later known = elim (Bool-cases (x == k)) [
    | inl e ↦ rw (e, subst (λ y. has_key y visits ≡ true) (sym ((==_iff x k).0 e)) known) refl
    | inr e ↦ rw (e) refl
  ]

  seen_first : (a b c : Bool) → (a || b) || c ≡ b || (a || c)
  seen_first a b c = ground arith

  visit_each-Visits :
      (x : ℕ) (ks : List ℕ) (visits : List ℕ) (t : bt.Tree)
      → AreKeys ks
      → Visits x ks (visits, t) (visit_each bt ks (visits, t))
  unfolding visit_each visit add has_key
  visit_each-Visits x [] visits t h = (
    (visits, t),
    refl,
    ground arith,
    (
      inl,
      λ m. elim m [ inl q ↦ q | inr two ↦ absurd (omega (arith, one_if-le (has_key x visits))) ],
    ),
  )
  visit_each-Visits x (k ∷ ks) visits t h = elim (Bool-cases (has_key k visits)) [
    | inl e ↦
        let (u, added) = tree.insert k t in
        let (r, ok, seen, rest) = visit_each-Visits x ks visits u h.1 in
        (
          r,
          rw (key-get k h.0, e, added) ok,
          seen ∙ seen_again x k visits (has_key x ks) e,
          met_again x k ks visits t u r.1 e (tree.ascend-insert k x t u added) rest,
        )
    | inr e ↦
        let (r, ok, seen, rest) = visit_each-Visits x ks (k ∷ visits) t h.1 in
        (
          r,
          rw (key-get k h.0, e) ok,
          seen ∙ seen_first (x == k) (has_key x visits) (has_key x ks),
          subst (λ n. In x (bt.ascend r.1) ↔ (In x (bt.ascend t) ⊎ (2 ≤ n)))
              (omega (arith, one_if-or x k visits e)) rest,
        )
  ]

  pub times-append : (x : ℕ) (xs ys : List ℕ) → times x (xs ++ ys) ≡ times x xs + times x ys
  times-append x [] ys = omega arith
  times-append x (y ∷ xs) ys = omega (arith, times-append x xs ys)

  visit_each-append :
      (xs ys : List ℕ) (s : List ℕ × bt.Tree)
      → visit_each bt (xs ++ ys) s ≡ (visit_each bt xs s >>= λ u. visit_each bt ys u)
  unfolding visit_each
  visit_each-append [] ys s = refl
  visit_each-append (x ∷ xs) ys s =
      bind_same (visit bt (get_db x) (get_table x) s) _ _ (visit_each-append xs ys)
      ∙ sym (bind_assoc (visit bt (get_db x) (get_table x) s) (visit_each bt xs) (visit_each bt ys))

  visit_others-all_keys :
      (ts : List bt.Tree) (s : List ℕ × bt.Tree)
      → visit_others bt ts s ≡ visit_each bt (all_keys ts) s
  unfolding visit_others visit_each
  visit_others-all_keys [] s = refl
  visit_others-all_keys (t ∷ ts) s =
      bind_same (visit_each bt (bt.ascend t) s) _ _ (visit_others-all_keys ts)
      ∙ sym (visit_each-append (bt.ascend t) (all_keys ts) s)

  -- IntersectionShards gives the keys that the walks of its arguments, however many, meet at least
  -- twice in all, for a tree of keys as documented.
  pub intersection_shards-twice :
      (first second : bt.Tree) (others : List bt.Tree) (x : ℕ)
      → AreKeys (all_keys (first ∷ second ∷ others))
      → (t : bt.Tree) × (intersection_shards bt first second others ≡ ret t)
        × (In x (bt.ascend t) ↔ (2 ≤ times x (all_keys (first ∷ second ∷ others))))
  unfolding intersection_shards has_key
  intersection_shards-twice first second others x h =
      let ts = first ∷ second ∷ others in
      let (r, ok, seen, found) = visit_each-Visits x (all_keys ts) [] bt.new h in
      (
        r.1,
        rw (visit_others-all_keys ts ([], bt.new), ok) refl,
        (
          (λ m. elim (found.0 m) [
            | inl q ↦ absurd (subst (In x) tree.ascend-new q)
            | inr two ↦ omega arith
          ]),
          λ two. found.1 (inr (omega arith)),
        ),
      )
