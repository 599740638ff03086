-- ===== src/Rule/Topology/Walk.antt =====
-- Each, Len and Smallest of pkg/proto/rule/topology.go against the pairs of a database and a table.
use arana.Prelude.{ℕ, suc, ◌+◌, ◌≡◌, refl, ap, ◌∙◌, arith, Bool, true, false, List, [], ◌∷◌, length}
use arana.Prelude.Int.{ℤ}
use arana.Rule.Topology.{go_on, Index, len, each_table, each}

abbrev pub pairs_of : ℤ → List ℤ → List (ℤ × ℤ) → List (ℤ × ℤ)
pairs_of d [] rest = rest
pairs_of d (t ∷ ts) rest = (d, t) ∷ pairs_of d ts rest

abbrev pub pairs : Index → List (ℤ × ℤ)
pairs [] = []
pairs ((d, ts) ∷ idx) = pairs_of d ts (pairs idx)

-- The function on one pair after the other, until it gives false
abbrev pub until_false : {S : Type 0} → (ℤ → ℤ → S → Bool × S) → List (ℤ × ℤ) → S → Bool × S
until_false on_each [] s = (true, s)
until_false on_each ((d, t) ∷ ps) s = go_on (on_each d t s) (λ u. until_false on_each ps u)

go_on_assoc :
    {S : Type 0} (r : Bool × S) (f g : S → Bool × S)
    → go_on (go_on r f) g ≡ go_on r (λ s. go_on (f s) g)
go_on_assoc (true, s) f g = refl
go_on_assoc (false, s) f g = refl

go_on_same :
    {S : Type 0} (r : Bool × S) (f g : S → Bool × S) → ((s : S) → f s ≡ g s) → go_on r f ≡ go_on r g
go_on_same (true, s) f g h = h s
go_on_same (false, s) f g h = refl

module _ {S : Type 0} (on_each : ℤ → ℤ → S → Bool × S) where
  each_table-until_false :
      (d : ℤ) (ts : List ℤ) (ps : List (ℤ × ℤ)) (s : S)
      → go_on (each_table on_each d ts s) (until_false on_each ps)
        ≡ until_false on_each (pairs_of d ts ps) s
  unfolding each_table
  each_table-until_false d [] ps s = refl
  each_table-until_false d (t ∷ ts) ps s =
      go_on_assoc (on_each d t s) (each_table on_each d ts) (until_false on_each ps)
      ∙ go_on_same (on_each d t s) _ _ (each_table-until_false d ts ps)

  each-pairs : (idx : Index) (s : S) → each on_each idx s ≡ until_false on_each (pairs idx) s
  unfolding each
  each-pairs [] s = refl
  each-pairs ((d, ts) ∷ idx) s =
      go_on_same (each_table on_each d ts s) _ _ (each-pairs idx)
      ∙ each_table-until_false d ts (pairs idx) s

length-pairs_of :
    (d : ℤ) (ts : List ℤ) (rest : List (ℤ × ℤ))
    → length (pairs_of d ts rest) ≡ length rest + length ts
length-pairs_of d [] rest = omega arith
length-pairs_of d (t ∷ ts) rest = omega (arith, length-pairs_of d ts rest)

add_one : (n : ℕ) → n + 1 ≡ suc n
add_one n = omega arith

len-pairs : (idx : Index) → len idx ≡ (length idx, length (pairs idx))
unfolding len
len-pairs [] = refl
len-pairs ((d, ts) ∷ idx) =
    rw (len-pairs idx, length-pairs_of d ts (pairs idx))
      (ap (λ n. (n, length (pairs idx) + length ts)) (add_one (length idx)))

-- Each calls its function on every pair of a database and one of its tables, in the order of the
-- databases and of their tables, until it gives false; Len counts the databases and those pairs.
pub each-until_false :
    {S : Type 0} (on_each : ℤ → ℤ → S → Bool × S) (idx : Index) (s : S)
    → (each on_each idx s ≡ until_false on_each (pairs idx) s)
      × (len idx ≡ (length idx, length (pairs idx)))
each-until_false on_each idx s = (each-pairs on_each idx s, len-pairs idx)
