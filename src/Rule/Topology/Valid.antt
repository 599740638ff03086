-- ===== src/Rule/Topology/Valid.antt =====
-- What SetTopology of pkg/proto/rule/topology.go keeps true of a topology.
use arana.Prelude.{◌+◌, ◌<◌, ◌≢◌, sym, inl, inr, List, [], ◌∷◌, Bool-cases}
use arana.Prelude.Int.{ℤ, pos_part, neg_part, ltb_ℤ}
use arana.Rule.Topology.{eq_ℤ, Index, insert, sort_ints, delete, store, set_topology, max_int}
use arana.Rule.Topology.Entries.{Ascending, sort_ints-Ascending, not-eq_ℤ}

infix 50 ◌<ℤ◌
abbrev pub ◌<ℤ◌ : ℤ → ℤ → Type 0
a <ℤ b = pos_part a + neg_part b < pos_part b + neg_part a

abbrev pub NotIn : ℤ → Index → Type 0
NotIn b [] = Unit
NotIn b ((d, ts) ∷ idx) = (d ≢ b) × NotIn b idx

-- Every database is an int below the largest and stands once, and its tables are in ascending order and
-- not none, as SetTopology leaves them.
abbrev pub IsValid : Index → Type 0
IsValid [] = Unit
IsValid ((d, ts) ∷ idx) = (d <ℤ max_int) × (ts ≢ []) × Ascending ts × NotIn d idx × IsValid idx

NotIn-delete : (b db : ℤ) (idx : Index) → NotIn b idx → NotIn b (delete idx db)
unfolding delete
NotIn-delete b db [] h = tt
NotIn-delete b db ((d, ts) ∷ idx) h = elim (Bool-cases (eq_ℤ d db)) [
  | inl e ↦ rw (e) (NotIn-delete b db idx h.1)
  | inr e ↦ rw (e) (h.0, NotIn-delete b db idx h.1)
]

delete-IsValid : (db : ℤ) (idx : Index) → IsValid idx → IsValid (delete idx db)
unfolding delete
delete-IsValid db [] v = tt
delete-IsValid db ((d, ts) ∷ idx) (below, some', asc, apart, valid) =
    elim (Bool-cases (eq_ℤ d db)) [
      | inl e ↦ rw (e) (delete-IsValid db idx valid)
      | inr e ↦ rw (e) (below, some', asc, NotIn-delete d db idx apart, delete-IsValid db idx valid)
    ]

NotIn-store :
    (b db : ℤ) (ts : List ℤ) (idx : Index) → db ≢ b → NotIn b idx → NotIn b (store idx db ts)
unfolding store
NotIn-store b db ts [] n h = (n, tt)
NotIn-store b db ts ((d, us) ∷ idx) n h = elim (Bool-cases (eq_ℤ d db)) [
  | inl e ↦ rw (e) h
  | inr e ↦ rw (e) (h.0, NotIn-store b db ts idx n h.1)
]

store-IsValid :
    (db : ℤ) (ts : List ℤ) (idx : Index)
    → db <ℤ max_int
    → ts ≢ []
    → Ascending ts
    → IsValid idx
    → IsValid (store idx db ts)
unfolding store
store-IsValid db ts [] l n a v = (l, n, a, tt, tt)
store-IsValid db ts ((d, us) ∷ idx) l n a (below, some', asc, apart, valid) =
    elim (Bool-cases (eq_ℤ d db)) [
      | inl e ↦ rw (e) (below, n, a, apart, valid)
      | inr e ↦ rw (e) (
        below,
        some',
        asc,
        NotIn-store d db ts idx (λ q. not-eq_ℤ d db e (sym q)) apart,
        store-IsValid db ts idx l n a valid,
      )
    ]

not_none : (x : ℤ) (ys : List ℤ) → insert x ys ≢ []
unfolding insert
not_none x [] = λ q. cc
not_none x (y ∷ ys) = elim (Bool-cases (ltb_ℤ y x)) [
  | inl e ↦ rw (e) λ q. cc
  | inr e ↦ rw (e) λ q. cc
]

-- SetTopology keeps a topology in which every database is an int below the largest and stands once, and
-- has tables, in ascending order, where the database that it is given is below the largest int.
pub set_topology-IsValid :
    (idx : Index) (db : ℤ) (tables : List ℤ)
    → db <ℤ max_int
    → IsValid idx
    → IsValid (set_topology idx db tables)
unfolding set_topology sort_ints
set_topology-IsValid idx db [] l v = delete-IsValid db idx v
set_topology-IsValid idx db (t ∷ tables) l v =
    store-IsValid db (sort_ints (t ∷ tables)) idx l (not_none t (sort_ints tables))
      (sort_ints-Ascending (t ∷ tables)) v
