-- ===== src/Rule/Topology/Examples.antt =====
-- A topology on which the theorems on pkg/proto/rule/topology.go are used.
use arana.Prelude.{
  ℕ, suc, ◌≡◌, ◌↔◌, arith, inl, inr, Bool, true, false, ◌||◌, List, [], ◌∷◌, if◌then◌else◌,
  Bool-cases,
}
use arana.Prelude.Int.{ℤ, pos, negsuc}
use arana.Rule.Topology.{eq_ℤ, Index, set_topology, exists, smallest}
use arana.Rule.Topology.Entries.{In, IsSearch, eq_ℤ_refl, eq_ℤ-≡, exists-set_topology}
use arana.Rule.Topology.Valid.{IsValid}
use arana.Rule.Topology.Least.{IsSmallest, smallest-IsSmallest}

-- A search that looks at every member
linear : List ℤ → ℤ → Bool
linear [] t = false
linear (x ∷ xs) t = eq_ℤ t x || linear xs t

linear-finds : (xs : List ℤ) (t : ℤ) → (linear xs t ≡ true) ↔ In t xs
unfolding linear
linear-finds [] t = ((λ h. ground arith), λ h. absurd h)
linear-finds (x ∷ xs) t =
    let rest = linear-finds xs t in
    (
      (λ h. elim (Bool-cases (eq_ℤ t x)) [
        | inl e ↦ inl (eq_ℤ-≡ t x e)
        | inr e ↦ inr (rest.0 (ground arith))
      ]),
      λ h. ground (arith, rest, h, eq_ℤ_refl t),
    )

linear-IsSearch : IsSearch linear
linear-IsSearch = record { finds = λ xs t asc. linear-finds xs t }

abbrev two_dbs : Index
two_dbs = (pos 3, pos 5 ∷ pos 7 ∷ []) ∷ (negsuc 0, pos 2 ∷ pos 9 ∷ []) ∷ []

two_dbs-IsValid : IsValid two_dbs
two_dbs-IsValid = (
  ground arith,
  (λ q. cc),
  ((ground arith, tt), (tt, tt)),
  ((λ q. cc), tt),
  (ground arith, (λ q. cc), ((ground arith, tt), (tt, tt)), tt, tt),
)

exists-set_topology_example :
    (exists linear (set_topology two_dbs (pos 3) (pos 8 ∷ pos 6 ∷ [])) (pos 3) (pos 6) ≡ true) ↔ (
      if eq_ℤ (pos 3) (pos 3)
      then In (pos 6) (pos 8 ∷ pos 6 ∷ [])
      else (exists linear two_dbs (pos 3) (pos 6) ≡ true))
exists-set_topology_example =
    exists-set_topology linear linear-IsSearch two_dbs (pos 3) (pos 8 ∷ pos 6 ∷ []) (pos 3) (pos 6)

smallest-IsSmallest_example : IsSmallest two_dbs (smallest two_dbs)
smallest-IsSmallest_example = smallest-IsSmallest two_dbs two_dbs-IsValid

-- Counts the pairs, and stops at the database 3
abbrev count_until : ℤ → ℤ → ℕ → Bool × ℕ
count_until d t n = (if eq_ℤ d (pos 3) then false else true, suc n)
