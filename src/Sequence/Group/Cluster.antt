-- ===== src/Sequence/Group/Cluster.antt =====
-- Nodes that share the row of a table, with every order in which they acquire and restart.
mod Validity
mod Served
pub mod Unique
mod Examples
use native.Mathlib.Nat.{mod-le}
use arana.Prelude.{
  ℕ, zero, suc, ◌+◌, ◌-◌, ◌%◌, ◌≤◌, ◌<◌, ◌≡◌, ◌≢◌, ◌⊎◌, inl, inr, refl, sym, ap, ◌∙◌, subst, arith,
  Bool, true, false, Option, none, some, List, [], ◌∷◌, ◌==◌, if◌then◌else◌, Bool-cases,
  Option-cases, leb,
}
use arana.Prelude.Go.{Go, ret, panic}
use arana.Sequence.Group.{
  Group, Row, Left, no_fault, init_step, next_start, open_group, acquire, start_sequence,
}
use arana.Sequence.Group.Block.{next_start-disjoint_iff, next_start-residue}

pub record Cluster : Type 0 where
  pub row : Option Row
  pub nodes : ℕ → Group
  pub issued : List ℕ

abbrev pub set_node : (ℕ → Group) → ℕ → Group → ℕ → Group
set_node nodes i g j = if j == i then g else nodes j

abbrev pub serve : Cluster → ℕ → Left → Cluster
serve c i l = record {
  row = l.row;
  nodes = set_node c.nodes i l.seq;
  issued = l.seq.current_val ∷ c.issued;
}

-- A node acquires a number, or starts anew with the cluster's step.
pub data Step (step : ℕ) (c u : Cluster) : Type 0 where
  acquired :
      (i : ℕ) (l : Left)
      → acquire no_fault (c.nodes i) c.row ≡ ret l
      → u ≡ serve c i l
      → Step step c u
  restarted :
      (i : ℕ) → u ≡ record c { nodes = set_node c.nodes i (init_step (some step)) } → Step step c u

pub data Reach (step : ℕ) (c : Cluster) : Cluster → Type 0 where
  here : Reach step c c
  next : {u v : Cluster} → Reach step c u → Step step u v → Reach step c v

-- No row yet, and nodes that have just started
pub initial : ℕ → Cluster
unfolding init_step
initial step = record { row = none; nodes = λ i. init_step (some step); issued = [] }

abbrev pub In : ℕ → List ℕ → Type 0
In x [] = ⊥
In x (y ∷ ys) = (y ≡ x) ⊎ In x ys

abbrev pub Distinct : List ℕ → Type 0
Distinct [] = Unit
Distinct (x ∷ xs) = ((y : ℕ) → In y xs → x ≢ y) × Distinct xs
