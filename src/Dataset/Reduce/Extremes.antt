-- ===== src/Dataset/Reduce/Extremes.antt =====
-- The columns of a ReduceDataset (pkg/dataset/reduce.go) under Max() and Min() of pkg/reduce
use arana.Prelude.{
  ◌≡◌, refl, sym, subst, Bool, true, false, Option, none, some, List, [], ◌∷◌, Bool-cases, inl, inr,
}
use arana.Dataset.Streams.{ok}
use arana.Dataset.Reduce.{and_then, DecimalReducer, RowValues, fold_cell, max_decimal, min_decimal}
use arana.Dataset.Reduce.Columns.{column}
use arana.Prelude.{if◌then◌else◌}
use mathlib.Core.List.{Memᴰ}
use mathlib.Core.List.Memᴰ

-- The decimals of the values that are not null
abbrev pub present : {V D : Type 0} → (V → D) → List (Option V) → List D
present dec [] = []
present dec (none ∷ l) = present dec l
present dec (some v ∷ l) = dec v ∷ present dec l

-- The order in which `before x y` is what sends the reducer from y to x
pub record Comparison {D : Type 0} (before : D → D → Bool) : Type 0 where
  pub asym : (x y : D) → before x y ≡ true → before y x ≡ false
  pub chain : (x y z : D) → before x y ≡ false → before y z ≡ false → before x z ≡ false
  pub irreflexive : (x : D) → before x x ≡ false

abbrev pub Extreme : {D : Type 0} → (D → D → Bool) → List D → D → Type 0
Extreme {D = D} before l d = Memᴰ d l × ((x : D) → Memᴰ x l → before x d ≡ false)

-- Null where all values are, and otherwise one of the decimals, before which there is no other
abbrev pub Best : {V D : Type 0} → (D → D → Bool) → (V → D) → List D → Option V → Type 0
Best before dec l none = l ≡ []
Best before dec l (some m) = Extreme before l (dec m)

module _ {D : Type 0} (before : D → D → Bool) (order : Comparison before) where
  Extreme-kept :
      (x y d : D) (l : List D)
      → before y x ≡ false
      → Extreme before (x ∷ l) d
      → Extreme before (x ∷ y ∷ l) d
  Extreme-kept x y d l h (m, best) = (
    elim (Memᴰ.cases_cons m) [ inl e ↦ Memᴰ.head e | inr t ↦ Memᴰ.tail (Memᴰ.tail t) ],
    λ a n. elim (Memᴰ.cases_cons n) [
      | inl e ↦ subst (λ b. before b d ≡ false) (sym e) (best x (Memᴰ.head refl))
      | inr t ↦ elim (Memᴰ.cases_cons t) [
        | inl e ↦
            subst (λ b. before b d ≡ false) (sym e) (order.chain y x d h (best x (Memᴰ.head refl)))
        | inr t' ↦ best a (Memᴰ.tail t')
      ]
    ],
  )

  Extreme-taken :
      (x y d : D) (l : List D)
      → before y x ≡ true
      → Extreme before (y ∷ l) d
      → Extreme before (x ∷ y ∷ l) d
  Extreme-taken x y d l h (m, best) = (
    Memᴰ.tail m,
    λ a n. elim (Memᴰ.cases_cons n) [
      | inl e ↦
          subst (λ b. before b d ≡ false) (sym e)
            (order.chain x y d (order.asym y x h) (best y (Memᴰ.head refl)))
      | inr t ↦ best a t
    ],
  )

  Best-kept :
      {V : Type 0} (dec : V → D) (x y : D) (l : List D) (out : Option V)
      → before y x ≡ false
      → Best before dec (x ∷ l) out
      → Best before dec (x ∷ y ∷ l) out
  Best-kept dec x y l none h b = absurd (cc)
  Best-kept dec x y l (some m) h b = Extreme-kept x y (dec m) l h b

  Best-taken :
      {V : Type 0} (dec : V → D) (x y : D) (l : List D) (out : Option V)
      → before y x ≡ true
      → Best before dec (y ∷ l) out
      → Best before dec (x ∷ y ∷ l) out
  Best-taken dec x y l none h b = absurd (cc)
  Best-taken dec x y l (some m) h b = Extreme-taken x y (dec m) l h b

module _ {E F R V D : Type 0} (ops : RowValues E F R V D) (dec : V → D)
    (reads : (v : V) → ops.decimal v ≡ ok (dec v))
    (makes : (z : D) → dec (ops.new_value_decimal z) ≡ z) (before : D → D → Bool)
    (order : Comparison before) (red : DecimalReducer E D)
    (picks : (x y : D) → red x y ≡ (if before y x then ok y else ok x)) where
  column-Best :
      (v : Option V) (l : List (Option V))
      → (out : Option V) × (column ops (some red) v l ≡ ok out)
        × Best before dec (present dec (v ∷ l)) out
  unfolding column and_then fold_cell
  column-Best none [] = (none, refl, refl)
  column-Best (some v) [] = (
    some v,
    refl,
    (
      Memᴰ.head refl,
      λ x n. elim (Memᴰ.cases_cons n) [
        | inl e ↦ subst (λ b. before b (dec v) ≡ false) (sym e) (order.irreflexive (dec v))
        | inr t ↦ absurd (Memᴰ.not-nil t)
      ],
    ),
  )
  column-Best none (none ∷ l) = column-Best none l
  column-Best (some v) (none ∷ l) = column-Best (some v) l
  column-Best none (some w ∷ l) = column-Best (some w) l
  column-Best (some v) (some w ∷ l) = elim (Bool-cases (before (dec w) (dec v))) [
    | inl t ↦
        let (out, eq, best) = column-Best (some (ops.new_value_decimal (dec w))) l in
        (
          out,
          rw (reads v, reads w, picks, t) eq,
          Best-taken before order dec (dec v) (dec w) (present dec l) out t
              (subst (λ d. Best before dec (d ∷ present dec l) out) (makes (dec w)) best),
        )
    | inr f ↦
        let (out, eq, best) = column-Best (some (ops.new_value_decimal (dec v))) l in
        (
          out,
          rw (reads v, reads w, picks, f) eq,
          Best-kept before order dec (dec v) (dec w) (present dec l) out f
              (subst (λ d. Best before dec (d ∷ present dec l) out) (makes (dec v)) best),
        )
  ]

-- The columns of Max() and Min() are folded without an error: to null where all values are null,
-- and otherwise to the decimal of one of them, which no other is greater (less) than. Decimal of
-- every value succeeds, and gives back what NewValueDecimal was made of.
pub column_extremes :
    {E F R V D : Type 0} (ops : RowValues E F R V D) (dec : V → D)
    (greater_than less_than : D → D → Bool) (v : Option V) (l : List (Option V))
    → ((w : V) → ops.decimal w ≡ ok (dec w))
    → ((z : D) → dec (ops.new_value_decimal z) ≡ z)
    → Comparison greater_than
    → Comparison less_than
    → ((out : Option V) × (column ops (some (max_decimal greater_than)) v l ≡ ok out)
        × Best greater_than dec (present dec (v ∷ l)) out)
      × ((out : Option V) × (column ops (some (min_decimal less_than)) v l ≡ ok out)
          × Best less_than dec (present dec (v ∷ l)) out)
unfolding max_decimal min_decimal
column_extremes ops dec greater_than less_than v l reads makes over under = (
  column-Best ops dec reads makes greater_than over (max_decimal greater_than) (λ x y. refl) v l,
  column-Best ops dec reads makes less_than under (min_decimal less_than) (λ x y. refl) v l,
)
