-- ===== src/Rule/Topology.antt =====
-- pkg/proto/rule/topology.go: the databases of a table and the tables in each. The sync.Map is a
-- list of its entries, in the order in which Range visits them; the binary search of
-- golang.org/x/exp/slices is a parameter.
pub mod Entries
pub mod Valid
pub mod Walk
pub mod Least
mod Examples
use arana.Prelude.{
  ℕ, zero, suc, ◌+◌, ◌-◌, ◌^◌, Bool, true, false, not, ◌&&◌, ◌||◌, Option, none, some, List, [],
  ◌∷◌, ◌++◌, length, ◌==◌, if◌then◌else◌,
}
use arana.Prelude.Int.{ℤ, pos, negsuc, ltb_ℤ}

abbrev pub eq_ℤ : ℤ → ℤ → Bool
eq_ℤ (pos a) (pos b) = a == b
eq_ℤ (negsuc a) (negsuc b) = a == b
eq_ℤ _ _ = false

abbrev pub Index : Type 0
Index = List (ℤ × List ℤ)

-- sort.Ints
pub insert : ℤ → List ℤ → List ℤ
insert x [] = x ∷ []
insert x (y ∷ ys) = let rest = insert x ys in if ltb_ℤ y x then y ∷ rest else x ∷ y ∷ ys

pub sort_ints : List ℤ → List ℤ
sort_ints [] = []
sort_ints (x ∷ xs) = insert x (sort_ints xs)

-- Load, Delete and Store of the map
pub load : Index → ℤ → Option (List ℤ)
load [] db = none
load ((d, ts) ∷ idx) db = let rest = load idx db in if eq_ℤ d db then some ts else rest

pub delete : Index → ℤ → Index
delete [] db = []
delete ((d, ts) ∷ idx) db = let rest = delete idx db in if eq_ℤ d db then rest else (d, ts) ∷ rest

pub store : Index → ℤ → List ℤ → Index
store [] db tables = (db, tables) ∷ []
store ((d, ts) ∷ idx) db tables =
    let rest = store idx db tables in if eq_ℤ d db then (d, tables) ∷ idx else (d, ts) ∷ rest

-- SetTopology
pub set_topology : Index → ℤ → List ℤ → Index
set_topology idx db [] = delete idx db
set_topology idx db (t ∷ tables) = store idx db (sort_ints (t ∷ tables))

-- Len
pub len : Index → ℕ × ℕ
len [] = (0, 0)
len ((d, ts) ∷ idx) = let (dbs, tbs) = len idx in (dbs + 1, tbs + length ts)

-- Exists
pub exists : (List ℤ → ℤ → Bool) → Index → ℤ → ℤ → Bool
exists binary_search idx db tb = elim (load idx db) [ none ↦ false | some ts ↦ binary_search ts tb ]

-- `if !onEach(d, t) { return false }`, and what follows it
abbrev pub go_on : {S : Type 0} → Bool × S → (S → Bool × S) → Bool × S
go_on (true, s) rest = rest s
go_on (false, s) rest = (false, s)

-- Each, with the state that its function changes: first the loop over the tables of one database
module _ {S : Type 0} (on_each : ℤ → ℤ → S → Bool × S) where
  pub each_table : ℤ → List ℤ → S → Bool × S
  each_table db [] s = (true, s)
  each_table db (t ∷ ts) s = go_on (on_each db t s) (λ u. each_table db ts u)

  pub each : Index → S → Bool × S
  each [] s = (true, s)
  each ((d, ts) ∷ idx) s = go_on (each_table d ts s) (λ u. each idx u)

abbrev pub max_int : ℤ
max_int = pos (2 ^ 63 - 1)

-- t[0] where there is one, else what was there
abbrev pub first_or : ℤ → List ℤ → ℤ
first_or other [] = other
first_or other (t ∷ ts) = t

-- Smallest, before the names: the loop, and the test behind it
pub smallest_loop : Index → ℤ × ℤ → ℤ × ℤ
smallest_loop [] best = best
smallest_loop ((d, ts) ∷ idx) best =
    smallest_loop idx (if ltb_ℤ d best.0 then (d, first_or best.1 ts) else best)

pub smallest : Index → Option (ℤ × ℤ)
smallest idx =
    let best = smallest_loop idx (max_int, max_int) in
    if not (eq_ℤ best.0 max_int) || not (eq_ℤ best.1 max_int) then some best else none
