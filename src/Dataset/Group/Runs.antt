-- ===== src/Dataset/Group/Runs.antt =====
-- The runs of rows of the same group in a list of rows: what GroupDataset of
-- pkg/dataset/group_reduce.go makes its groups of.
use arana.Prelude.{
  ◌≡◌, inl, inr, refl, ap, sym, subst, ◌∙◌, Bool, true, false, List, [], ◌∷◌, ◌++◌, if◌then◌else◌,
  Bool-cases,
}

abbrev pub onto {ℓ} : {A : Type ℓ} → A → List (List A) → List (List A)
onto r [] = (r ∷ []) ∷ []
onto r (g ∷ gs) = (r ∷ g) ∷ gs

-- The runs of a list with a first row
abbrev pub split : {R : Type 0} → (R → R → Bool) → R → List R → List (List R)
split same r [] = (r ∷ []) ∷ []
split same r (n ∷ l) =
    let rest = split same n l in if same r n then onto r rest else (r ∷ []) ∷ rest

abbrev pub concat {ℓ} : {A : Type ℓ} → List (List A) → List A
concat [] = []
concat (g ∷ gs) = g ++ concat gs

-- Every row belongs to the group of the one before it.
abbrev pub IsChain : {R : Type 0} → (R → R → Bool) → R → List R → Type 0
IsChain same r [] = Unit
IsChain same r (n ∷ l) = (same r n ≡ true) × IsChain same n l

abbrev pub last_of {ℓ} : {A : Type ℓ} → A → List A → A
last_of r [] = r
last_of r (n ∷ l) = last_of n l

-- The first group begins with a row of another group than `r`.
abbrev pub Breaks : {R : Type 0} → (R → R → Bool) → R → List (List R) → Type 0
Breaks same r [] = Unit
Breaks same r ([] ∷ gs) = ⊥
Breaks same r ((n ∷ g) ∷ gs) = same r n ≡ false

-- Lists with a row at least, each a run that the next list does not continue
abbrev pub AreRuns : {R : Type 0} → (R → R → Bool) → List (List R) → Type 0
AreRuns same [] = Unit
AreRuns same ([] ∷ gs) = ⊥
AreRuns same ((r ∷ g) ∷ gs) = IsChain same r g × Breaks same (last_of r g) gs × AreRuns same gs

-- Runs of which the first begins with `r`
abbrev pub StartAt : {R : Type 0} → (R → R → Bool) → R → List (List R) → Type 0
StartAt same r [] = ⊥
StartAt same r ([] ∷ gs) = ⊥
StartAt same r ((n ∷ g) ∷ gs) =
    (n ≡ r) × IsChain same n g × Breaks same (last_of n g) gs × AreRuns same gs

onto-StartAt :
    {R : Type 0} (same : R → R → Bool) (r n : R) (gs : List (List R))
    → same r n ≡ true
    → StartAt same n gs
    → StartAt same r (onto r gs)
onto-StartAt same r n [] e h = elim h [ ]
onto-StartAt same r n ([] ∷ gs) e h = elim h [ ]
onto-StartAt same r n ((m ∷ g) ∷ gs) e h =
    (refl, (subst (λ x. same r x ≡ true) (sym h.0) e, h.1), h.2, h.3)

pub StartAt-AreRuns :
    {R : Type 0} (same : R → R → Bool) (r : R) (gs : List (List R))
    → StartAt same r gs
    → AreRuns same gs
StartAt-AreRuns same r [] h = elim h [ ]
StartAt-AreRuns same r ([] ∷ gs) h = elim h [ ]
StartAt-AreRuns same r ((n ∷ g) ∷ gs) h = (h.1, h.2, h.3)

StartAt-Breaks :
    {R : Type 0} (same : R → R → Bool) (r n : R) (gs : List (List R))
    → same r n ≡ false
    → StartAt same n gs
    → Breaks same r gs
StartAt-Breaks same r n [] e h = elim h [ ]
StartAt-Breaks same r n ([] ∷ gs) e h = elim h [ ]
StartAt-Breaks same r n ((m ∷ g) ∷ gs) e h = subst (λ x. same r x ≡ false) (sym h.0) e

pub split-StartAt :
    {R : Type 0} (same : R → R → Bool) (r : R) (l : List R) → StartAt same r (split same r l)
split-StartAt same r [] = (refl, tt, tt, tt)
split-StartAt same r (n ∷ l) =
    let rest = split-StartAt same n l in
    elim (Bool-cases (same r n)) [
      | inl e ↦ rw (e) (onto-StartAt same r n (split same n l) e rest)
      | inr e ↦ rw (e) (
        refl,
        tt,
        StartAt-Breaks same r n (split same n l) e rest,
        StartAt-AreRuns same n (split same n l) rest,
      )
    ]

concat-onto : {R : Type 0} (r : R) (gs : List (List R)) → concat (onto r gs) ≡ r ∷ concat gs
concat-onto r [] = refl
concat-onto r (g ∷ gs) = refl

pub concat-split :
    {R : Type 0} (same : R → R → Bool) (r : R) (l : List R) → concat (split same r l) ≡ r ∷ l
concat-split same r [] = refl
concat-split same r (n ∷ l) = elim (Bool-cases (same r n)) [
  | inl e ↦ rw (e) (concat-onto r (split same n l) ∙ ap (λ m. r ∷ m) (concat-split same n l))
  | inr e ↦ rw (e) (ap (λ m. r ∷ m) (concat-split same n l))
]
