-- ===== src/Rule/Topology/Least.antt =====
-- Smallest of pkg/proto/rule/topology.go against the pairs of a database and a table.
use arana.Prelude.{
  ◌≡◌, ◌≢◌, refl, sym, ap, subst, ◌⊎◌, inl, inr, arith, true, false, Option, none, some, List, [],
  ◌∷◌, if◌then◌else◌, Bool-cases,
}
use arana.Prelude.Int.{ℤ, pos, negsuc, eq_of_parts, ltb_ℤ, ◌≤ℤ◌}
use arana.Rule.Topology.{eq_ℤ, Index, max_int, smallest_loop, smallest}
use arana.Rule.Topology.Entries.{AtLeast}
use arana.Rule.Topology.Valid.{◌<ℤ◌, NotIn, IsValid}
use arana.Rule.Topology.Walk.{pairs, pairs_of}

abbrev pub Above : ℤ → Index → Type 0
Above b [] = Unit
Above b ((d, ts) ∷ idx) = (b ≤ℤ d) × Above b idx

abbrev pub Among : ℤ × ℤ → List (ℤ × ℤ) → Type 0
Among r [] = ⊥
Among r (p ∷ ps) = (r ≡ p) ⊎ Among r ps

-- No pair is before `r`, by its database and then by its table.
abbrev pub Least : ℤ × ℤ → List (ℤ × ℤ) → Type 0
Least r [] = Unit
Least r ((d, t) ∷ ps) = ((r.0 <ℤ d) ⊎ ((r.0 ≡ d) × (r.1 ≤ℤ t))) × Least r ps

Among-pairs_of :
    (r : ℤ × ℤ) (d : ℤ) (ts : List ℤ) (ps : List (ℤ × ℤ)) → Among r ps → Among r (pairs_of d ts ps)
Among-pairs_of r d [] ps h = h
Among-pairs_of r d (t ∷ ts) ps h = inr (Among-pairs_of r d ts ps h)

Least-before :
    (r : ℤ × ℤ) (d : ℤ) (ts : List ℤ) (ps : List (ℤ × ℤ))
    → r.0 <ℤ d
    → Least r ps
    → Least r (pairs_of d ts ps)
Least-before r d [] ps l h = h
Least-before r d (t ∷ ts) ps l h = (inl l, Least-before r d ts ps l h)

Least-first :
    (d t : ℤ) (ts : List ℤ) (ps : List (ℤ × ℤ))
    → AtLeast t ts
    → Least (d, t) ps
    → Least (d, t) (pairs_of d ts ps)
Least-first d t [] ps a h = h
Least-first d t (u ∷ ts) ps a h = (inr (refl, a.0), Least-first d t ts ps a.1 h)

strictly : (b d : ℤ) → b ≤ℤ d → d ≢ b → b <ℤ d
strictly b d l n = ground (arith, eq_of_parts d b)

Least-Above : (d t : ℤ) (idx : Index) → Above d idx → NotIn d idx → Least (d, t) (pairs idx)
Least-Above d t [] a n = tt
Least-Above d t ((e, us) ∷ idx) a n =
    Least-before (d, t) e us (pairs idx) (strictly d e a.0 n.0) (Least-Above d t idx a.1 n.1)

-- What the loop makes of the best pair so far
abbrev Result : ℤ × ℤ → Index → ℤ × ℤ → Type 0
Result best idx r =
    ((r ≡ best) × Above best.0 idx) ⊎ (Among r (pairs idx) × (r.0 <ℤ best.0) × Least r (pairs idx))

taken-Result :
    (best : ℤ × ℤ) (d t : ℤ) (ts : List ℤ) (idx : Index) (r : ℤ × ℤ)
    → d <ℤ best.0
    → AtLeast t ts
    → NotIn d idx
    → Result (d, t) idx r
    → Result best ((d, t ∷ ts) ∷ idx) r
taken-Result best d t ts idx r l a n (inl (e, above)) = inr (
  inl e,
  subst (λ q. q.0 <ℤ best.0) (sym e) l,
  subst (λ q. Least q (pairs ((d, t ∷ ts) ∷ idx))) (sym e)
      (inr (refl, omega arith), Least-first d t ts (pairs idx) a (Least-Above d t idx above n)),
)
taken-Result best d t ts idx r l a n (inr (k, less, least)) = inr (
  inr (Among-pairs_of r d ts (pairs idx) k),
  omega arith,
  (inl less, Least-before r d ts (pairs idx) less least),
)

kept-Result :
    (best : ℤ × ℤ) (d t : ℤ) (ts : List ℤ) (idx : Index) (r : ℤ × ℤ)
    → best.0 ≤ℤ d
    → Result best idx r
    → Result best ((d, t ∷ ts) ∷ idx) r
kept-Result best d t ts idx r l (inl (e, above)) = inl (e, (l, above))
kept-Result best d t ts idx r l (inr (k, less, least)) =
    let under : r.0 <ℤ d = omega arith in
    inr (
      inr (Among-pairs_of r d ts (pairs idx) k),
      less,
      (inl under, Least-before r d ts (pairs idx) under least),
    )

better :
    (best : ℤ × ℤ) (d t : ℤ)
    → ltb_ℤ d best.0 ≡ true
    → (if ltb_ℤ d best.0 then (d, t) else best) ≡ (d, t)
better best d t e = rw (e) refl

no_better :
    (best : ℤ × ℤ) (d t : ℤ)
    → ltb_ℤ d best.0 ≡ false
    → (if ltb_ℤ d best.0 then (d, t) else best) ≡ best
no_better best d t e = rw (e) refl

smallest_loop-Result :
    (idx : Index) (best : ℤ × ℤ) → IsValid idx → Result best idx (smallest_loop idx best)
unfolding smallest_loop
smallest_loop-Result [] best v = inl (refl, tt)
smallest_loop-Result ((d, []) ∷ idx) best (below, some', asc, apart, valid) = absurd (some' refl)
smallest_loop-Result ((d, t ∷ ts) ∷ idx) best (below, some', asc, apart, valid) =
    elim (Bool-cases (ltb_ℤ d best.0)) [
      | inl e ↦
          subst (Result best ((d, t ∷ ts) ∷ idx)) (sym (ap (smallest_loop idx) (better best d t e)))
            (taken-Result best d t ts idx _ (ground arith) asc.0 apart
              (smallest_loop-Result idx (d, t) valid))
      | inr e ↦
          subst (Result best ((d, t ∷ ts) ∷ idx))
            (sym (ap (smallest_loop idx) (no_better best d t e)))
            (kept-Result best d t ts idx _ (ground arith) (smallest_loop-Result idx best valid))
    ]

-- What Smallest gives, before the names are made
abbrev pub IsSmallest : Index → Option (ℤ × ℤ) → Type 0
IsSmallest idx none = idx ≡ []
IsSmallest idx (some r) = Among r (pairs idx) × Least r (pairs idx)

not_max : (a : ℤ) → a <ℤ max_int → eq_ℤ a max_int ≡ false
not_max (pos a) l = ground arith
not_max (negsuc a) l = refl

none_behind : (idx : Index) → IsValid idx → Above max_int idx → idx ≡ []
none_behind [] v a = refl
none_behind ((d, ts) ∷ idx) (below, some', asc, apart, valid) a = absurd (omega (arith, below, a.0))

-- Smallest of a topology that SetTopology can leave, with databases that are ints below the largest,
-- gives the first table of the first database, and nothing only where there is no database.
pub smallest-IsSmallest : (idx : Index) → IsValid idx → IsSmallest idx (smallest idx)
unfolding smallest
smallest-IsSmallest idx v = elim (smallest_loop-Result idx (max_int, max_int) v) [
  | inl (e, above) ↦ rw (e) (none_behind idx v above)
  | inr (k, less, least) ↦ rw (not_max _ less) (k, least)
]
