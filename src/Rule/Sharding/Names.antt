-- ===== src/Rule/Sharding/Names.antt =====
-- The variables of a virtual shard in pkg/proto/rule/rule.go: names without repetition.
use text.Mathlib.Text.{◌==◌ as str_eq}
use text.Mathlib.TextEquality.{eq_iff}
use arana.Prelude.{
  ◌≡◌, refl, sym, subst, ◌↔◌, ◌⊎◌, inl, inr, arith, String, true, false, none, List, [], ◌∷◌, ◌++◌,
  Bool-cases,
}
use arana.Rule.Sharding.{VShard, has_name, add_name, add_names, names_of, variables}

abbrev pub In : String → List String → Type 0
In x [] = ⊥
In x (y ∷ ys) = (x ≡ y) ⊎ In x ys

-- Every name stands once.
abbrev pub Distinct : List String → Type 0
Distinct [] = Unit
Distinct (x ∷ xs) = ¬ In x xs × Distinct xs

has_name-In : (x : String) (xs : List String) → has_name x xs ≡ true → In x xs
unfolding has_name
has_name-In x [] h = ground arith
has_name-In x (y ∷ ys) h = elim (Bool-cases (str_eq x y)) [
  | inl e ↦ inl ((eq_iff x y).0 e)
  | inr e ↦ inr (has_name-In x ys (ground arith))
]

In-has_name : (x : String) (xs : List String) → In x xs → has_name x xs ≡ true
unfolding has_name
In-has_name x [] h = absurd h
In-has_name x (y ∷ ys) (inl e) = rw ((eq_iff x y).1 e) refl
In-has_name x (y ∷ ys) (inr h) = ground (arith, In-has_name x ys h)

-- `x` is one of two names' lists.
In-append_left : (x : String) (xs ys : List String) → In x xs → In x (xs ++ ys)
In-append_left x [] ys h = absurd h
In-append_left x (z ∷ xs) ys (inl e) = inl e
In-append_left x (z ∷ xs) ys (inr h) = inr (In-append_left x xs ys h)

In-append_last : (x : String) (xs : List String) → In x (xs ++ (x ∷ []))
In-append_last x [] = inl refl
In-append_last x (z ∷ xs) = inr (In-append_last x xs)

In-append_inv : (x y : String) (xs : List String) → In x (xs ++ (y ∷ [])) → In x xs ⊎ (x ≡ y)
In-append_inv x y [] (inl e) = inr e
In-append_inv x y [] (inr h) = absurd h
In-append_inv x y (z ∷ xs) (inl e) = inl (inl e)
In-append_inv x y (z ∷ xs) (inr h) = elim (In-append_inv x y xs h) [
  | inl k ↦ inl (inr k)
  | inr e ↦ inr e
]

Distinct-append :
    (y : String) (xs : List String) → Distinct xs → ¬ In y xs → Distinct (xs ++ (y ∷ []))
Distinct-append y [] d n = ((λ h. h), tt)
Distinct-append y (z ∷ xs) d n = (
  (λ h. elim (In-append_inv z y xs h) [ inl k ↦ d.0 k | inr e ↦ n (inl (sym e)) ]),
  Distinct-append y xs d.1 (λ k. n (inr k)),
)

not-has_name : (x : String) (xs : List String) → has_name x xs ≡ false → ¬ In x xs
not-has_name x xs h k = ground (arith, In-has_name x xs k)

add_name-Distinct : (seen : List String) (x : String) → Distinct seen → Distinct (add_name seen x)
add_name-Distinct seen x d = elim (Bool-cases (has_name x seen)) [
  | inl e ↦ rw (e) d
  | inr e ↦ rw (e) (Distinct-append x seen d (not-has_name x seen e))
]

add_name-In :
    (y : String) (seen : List String) (x : String) → In y (add_name seen x) ↔ (In y seen ⊎ (y ≡ x))
add_name-In y seen x = elim (Bool-cases (has_name x seen)) [
  | inl e ↦ rw (e) (
    inl,
    λ h. elim h [ inl k ↦ k | inr q ↦ subst (λ z. In z seen) (sym q) (has_name-In x seen e) ],
  )
  | inr e ↦ rw (e) (
    In-append_inv y x seen,
    λ h. elim h [
      | inl k ↦ In-append_left y seen (x ∷ []) k
      | inr q ↦ subst (λ z. In z (seen ++ (x ∷ []))) (sym q) (In-append_last x seen)
    ],
  )
]

add_names-Distinct : (seen xs : List String) → Distinct seen → Distinct (add_names seen xs)
unfolding add_names
add_names-Distinct seen [] d = d
add_names-Distinct seen (x ∷ xs) d =
    add_names-Distinct (add_name seen x) xs (add_name-Distinct seen x d)

add_names-In :
    (y : String) (seen xs : List String) → In y (add_names seen xs) ↔ (In y seen ⊎ In y xs)
unfolding add_names
add_names-In y seen [] = (inl, λ h. elim h [ inl k ↦ k | inr k ↦ absurd k ])
add_names-In y seen (x ∷ xs) =
    let rest = add_names-In y (add_name seen x) xs in
    let here = add_name-In y seen x in
    (
      (λ h. elim (rest.0 h) [
        | inl k ↦ elim (here.0 k) [ inl j ↦ inl j | inr e ↦ inr (inl e) ]
        | inr k ↦ inr (inr k)
      ]),
      λ h. elim h [
        | inl k ↦ rest.1 (inl (here.1 (inl k)))
        | inr k ↦ elim k [ inl e ↦ rest.1 (inl (here.1 (inr e))) | inr j ↦ rest.1 (inr j) ]
      ],
    )

both-In :
    (y : String) (xs ys : List String) → In y (add_names (add_names [] xs) ys) ↔ (In y xs ⊎ In y ys)
both-In y xs ys =
    let outer = add_names-In y (add_names [] xs) ys in
    let inner = add_names-In y [] xs in
    (
      (λ h. elim (outer.0 h) [
        | inl k ↦ elim (inner.0 k) [ inl j ↦ absurd j | inr j ↦ inl j ]
        | inr k ↦ inr k
      ]),
      λ h. elim h [ inl k ↦ outer.1 (inl (inner.1 (inr k))) | inr k ↦ outer.1 (inr k) ],
    )

-- The variables of a virtual shard that has not computed them yet are those of its database's computer
-- and of its table's computer, each once.
pub variables-Distinct :
    {V : Type 0} (vs : VShard V) (y : String)
    → vs.visited ≡ none
    → Distinct (variables vs)
      × (In y (variables vs) ↔ (In y (names_of vs.db) ⊎ In y (names_of vs.table)))
unfolding variables
variables-Distinct vs y fresh = rw (fresh) (
  add_names-Distinct (add_names [] (names_of vs.db)) (names_of vs.table)
      (add_names-Distinct [] (names_of vs.db) tt),
  both-In y (names_of vs.db) (names_of vs.table),
)
