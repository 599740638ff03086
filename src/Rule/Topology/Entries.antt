-- ===== src/Rule/Topology/Entries.antt =====
-- SetTopology and Exists of pkg/proto/rule/topology.go.
use arana.Prelude.{
  ◌≡◌, ◌≢◌, ◌↔◌, refl, subst, ◌⊎◌, inl, inr, arith, Bool, true, false, none, some, List, [], ◌∷◌,
  if◌then◌else◌, Bool-cases,
}
use arana.Prelude.Int.{ℤ, pos, negsuc, ltb_ℤ, ◌≤ℤ◌}
use arana.Rule.Topology.{eq_ℤ, Index, insert, sort_ints, load, delete, store, set_topology, exists}

pub eq_ℤ-≡ : (a b : ℤ) → eq_ℤ a b ≡ true → a ≡ b
eq_ℤ-≡ a b h = ground arith

pub eq_ℤ_refl : (a : ℤ) → eq_ℤ a a ≡ true
eq_ℤ_refl (pos a) = ground arith
eq_ℤ_refl (negsuc a) = ground arith

pub not-eq_ℤ : (a b : ℤ) → eq_ℤ a b ≡ false → a ≢ b
not-eq_ℤ a b h e = ground (arith, subst (λ c. eq_ℤ a c ≡ true) e (eq_ℤ_refl a))

abbrev pub In : ℤ → List ℤ → Type 0
In x [] = ⊥
In x (y ∷ ys) = (x ≡ y) ⊎ In x ys

abbrev pub AtLeast : ℤ → List ℤ → Type 0
AtLeast lo [] = Unit
AtLeast lo (x ∷ xs) = (lo ≤ℤ x) × AtLeast lo xs

-- In ascending order
abbrev pub Ascending : List ℤ → Type 0
Ascending [] = Unit
Ascending (x ∷ xs) = AtLeast x xs × Ascending xs

AtLeast-weaken : (lo x : ℤ) (xs : List ℤ) → lo ≤ℤ x → AtLeast x xs → AtLeast lo xs
AtLeast-weaken lo x [] l h = tt
AtLeast-weaken lo x (y ∷ ys) l h = (omega (arith, h.0), AtLeast-weaken lo x ys l h.1)

insert-AtLeast : (lo x : ℤ) (ys : List ℤ) → lo ≤ℤ x → AtLeast lo ys → AtLeast lo (insert x ys)
unfolding insert
insert-AtLeast lo x [] l h = (l, tt)
insert-AtLeast lo x (y ∷ ys) l h = elim (Bool-cases (ltb_ℤ y x)) [
  | inl e ↦ rw (e) (h.0, insert-AtLeast lo x ys l h.1)
  | inr e ↦ rw (e) (l, h)
]

insert-Ascending : (x : ℤ) (ys : List ℤ) → Ascending ys → Ascending (insert x ys)
unfolding insert
insert-Ascending x [] h = (tt, tt)
insert-Ascending x (y ∷ ys) (al, asc) = elim (Bool-cases (ltb_ℤ y x)) [
  | inl e ↦ rw (e) (insert-AtLeast y x ys (ground arith) al, insert-Ascending x ys asc)
  | inr e ↦ let le : x ≤ℤ y = ground arith in rw (e) ((le, AtLeast-weaken x y ys le al), (al, asc))
]

pub sort_ints-Ascending : (xs : List ℤ) → Ascending (sort_ints xs)
unfolding sort_ints
sort_ints-Ascending [] = tt
sort_ints-Ascending (x ∷ xs) = insert-Ascending x (sort_ints xs) (sort_ints-Ascending xs)

insert-In : (t x : ℤ) (ys : List ℤ) → In t (insert x ys) ↔ ((t ≡ x) ⊎ In t ys)
unfolding insert
insert-In t x [] = ((λ h. h), λ h. h)
insert-In t x (y ∷ ys) = elim (Bool-cases (ltb_ℤ y x)) [
  | inl e ↦
      let rest = insert-In t x ys in
      rw (e) (
        (λ h. elim h [
          | inl q ↦ inr (inl q)
          | inr k ↦ elim (rest.0 k) [ inl q ↦ inl q | inr j ↦ inr (inr j) ]
        ]),
        λ h. elim h [
          | inl q ↦ inr (rest.1 (inl q))
          | inr k ↦ elim k [ inl q ↦ inl q | inr j ↦ inr (rest.1 (inr j)) ]
        ],
      )
  | inr e ↦ rw (e) ((λ h. h), λ h. h)
]

pub sort_ints-In : (t : ℤ) (xs : List ℤ) → In t (sort_ints xs) ↔ In t xs
unfolding sort_ints
sort_ints-In t [] = ((λ h. h), λ h. h)
sort_ints-In t (x ∷ xs) =
    let one = insert-In t x (sort_ints xs) in
    let rest = sort_ints-In t xs in
    (
      (λ h. elim (one.0 h) [ inl q ↦ inl q | inr k ↦ inr (rest.0 k) ]),
      λ h. elim h [ inl q ↦ one.1 (inl q) | inr k ↦ one.1 (inr (rest.1 k)) ],
    )

load-store :
    (idx : Index) (db d : ℤ) (ts : List ℤ)
    → load (store idx db ts) d ≡ (if eq_ℤ db d then some ts else load idx d)
unfolding load store
load-store [] db d ts = refl
load-store ((e, us) ∷ idx) db d ts = ground (arith, load-store idx db d ts)

load-delete :
    (idx : Index) (db d : ℤ) → load (delete idx db) d ≡ (if eq_ℤ db d then none else load idx d)
unfolding load delete
load-delete [] db d = ground arith
load-delete ((e, us) ∷ idx) db d = ground (arith, load-delete idx db d)

-- A binary search that finds exactly the members of a list in ascending order
pub record IsSearch (binary_search : List ℤ → ℤ → Bool) : Type 0 where
  pub finds : (xs : List ℤ) (t : ℤ) → Ascending xs → (binary_search xs t ≡ true) ↔ In t xs

module _ (binary_search : List ℤ → ℤ → Bool) (search : IsSearch binary_search) where
  found_sorted :
      (tables : List ℤ) (t : ℤ) → (binary_search (sort_ints tables) t ≡ true) ↔ In t tables
  found_sorted tables t =
      let found = search.finds (sort_ints tables) t (sort_ints-Ascending tables) in
      let same = sort_ints-In t tables in ((λ h. same.0 (found.0 h)), λ h. found.1 (same.1 h))

  -- After SetTopology of a database the tables that exist in it are those that were given, in any
  -- order and none for an empty list, and what exists in the other databases stays, for a binary search
  -- that finds the members of ascending lists.
  pub exists-set_topology :
      (idx : Index) (db : ℤ) (tables : List ℤ) (d t : ℤ)
      → (exists binary_search (set_topology idx db tables) d t ≡ true)
        ↔ (if eq_ℤ db d then In t tables else (exists binary_search idx d t ≡ true))
  unfolding exists set_topology
  exists-set_topology idx db [] d t =
      rw (load-delete idx db d, exists)
        (elim (Bool-cases (eq_ℤ db d)) [
          | inl e ↦ rw (e) ((λ h. ground arith), λ h. absurd h)
          | inr e ↦ rw (e) ((λ h. h), λ h. h)
        ])
  exists-set_topology idx db (x ∷ xs) d t =
      rw (load-store idx db d (sort_ints (x ∷ xs)), exists)
        (elim (Bool-cases (eq_ℤ db d)) [
          | inl e ↦ rw (e) (found_sorted (x ∷ xs) t)
          | inr e ↦ rw (e) ((λ h. h), λ h. h)
        ])
