-- ===== src/Sequence/Group/Cluster/Validity.antt =====
-- What holds of a cluster between two calls, and how a node's change keeps it.
use arana.Prelude.{
  ℕ, ◌+◌, ◌-◌, ◌%◌, ◌≤◌, ◌<◌, ◌≡◌, ◌≢◌, ◌⊎◌, inl, inr, subst, arith, false, Option, none, some,
  List, ◌∷◌, ◌==◌, Bool-cases,
}
use arana.Sequence.Group.{Group, Row}
use arana.Sequence.Group.Cluster.{Cluster, In, Distinct, set_node}

-- The last number of the group that the row stands for
abbrev pub end_of : ℕ → Option ℕ → ℕ
end_of step none = 0
end_of step (some v) = v + step - 1

abbrev pub top : ℕ → Option Row → ℕ
top step none = 0
top step (some r) = end_of step r.seq_val

abbrev pub ValueOk : ℕ → Option ℕ → Type 0
ValueOk step none = ⊥
ValueOk step (some v) = (1 ≤ v) × (v % step ≤ 1)

abbrev pub RowOk : ℕ → Option Row → Type 0
RowOk step none = Unit
RowOk step (some r) = ValueOk step r.seq_val

-- The numbers that a node has left are those after `current_val` up to `current_group_max_val`.
abbrev pub HasLeft : Group → Type 0
HasLeft g = g.current_val < g.current_group_max_val

abbrev pub Outside : ℕ → Group → Type 0
Outside x g = (x ≤ g.current_val) ⊎ (g.current_group_max_val < x)

pub record IsValid (step : ℕ) (c : Cluster) : Type 0 where
  pub row_ok : RowOk step c.row
  pub steps : (i : ℕ) → (c.nodes i).step ≡ step
  pub below : (i : ℕ) → (c.nodes i).current_group_max_val ≤ top step c.row
  pub behind : (i : ℕ) → (c.nodes i).current_val ≤ top step c.row
  pub issued_below : (x : ℕ) → In x c.issued → x ≤ top step c.row
  pub apart :
      (i j : ℕ)
      → i ≢ j
      → HasLeft (c.nodes i)
      → HasLeft (c.nodes j)
      → ((c.nodes i).current_group_max_val ≤ (c.nodes j).current_val)
        ⊎ ((c.nodes j).current_group_max_val ≤ (c.nodes i).current_val)
  pub unused : (i : ℕ) → HasLeft (c.nodes i) → (x : ℕ) → In x c.issued → Outside x (c.nodes i)
  pub distinct : Distinct c.issued

-- What a node and the row have to do with the others for the cluster to stay valid
pub record Fits (step : ℕ) (c : Cluster) (i : ℕ) (g : Group) (row : Option Row) : Type 0 where
  pub row_ok : RowOk step row
  pub same_step : g.step ≡ step
  pub grows : top step c.row ≤ top step row
  pub below : g.current_group_max_val ≤ top step row
  pub behind : g.current_val ≤ top step row
  pub apart :
      (j : ℕ)
      → j ≢ i
      → HasLeft g
      → HasLeft (c.nodes j)
      → (g.current_group_max_val ≤ (c.nodes j).current_val)
        ⊎ ((c.nodes j).current_group_max_val ≤ g.current_val)
  pub unused : HasLeft g → (x : ℕ) → In x c.issued → Outside x g

-- and for a number to be new
pub record IsNew (step : ℕ) (c : Cluster) (i x : ℕ) (g : Group) (row : Option Row) : Type 0 where
  pub within : x ≤ top step row
  pub own : Outside x g
  pub others : (j : ℕ) → j ≢ i → HasLeft (c.nodes j) → Outside x (c.nodes j)

ne_of_test : (j i : ℕ) → (j == i) ≡ false → j ≢ i
ne_of_test j i h = ground arith

module _ (step : ℕ) (c : Cluster) (v : IsValid step c) (i : ℕ) (g : Group) (row : Option Row)
    (f : Fits step c i g row) where
  abbrev nodes' : ℕ → Group
  nodes' = set_node c.nodes i g

  set-steps : (j : ℕ) → (nodes' j).step ≡ step
  set-steps j = elim (Bool-cases (j == i)) [
    | inl here' ↦ rw here' f.same_step
    | inr other ↦ rw other (v.steps j)
  ]

  set-below : (j : ℕ) → (nodes' j).current_group_max_val ≤ top step row
  set-below j = elim (Bool-cases (j == i)) [
    | inl here' ↦ rw here' f.below
    | inr other ↦ rw other (omega (arith, v.below j, f.grows))
  ]

  set-behind : (j : ℕ) → (nodes' j).current_val ≤ top step row
  set-behind j = elim (Bool-cases (j == i)) [
    | inl here' ↦ rw here' f.behind
    | inr other ↦ rw other (omega (arith, v.behind j, f.grows))
  ]

  set-apart :
      (j k : ℕ)
      → j ≢ k
      → HasLeft (nodes' j)
      → HasLeft (nodes' k)
      → ((nodes' j).current_group_max_val ≤ (nodes' k).current_val)
        ⊎ ((nodes' k).current_group_max_val ≤ (nodes' j).current_val)
  set-apart j k ne hj hk = elim (Bool-cases (j == i)) [
    | inl jh ↦ elim (Bool-cases (k == i)) [
      | inl kh ↦ absurd (ground arith)
      | inr ko ↦ rw (jh, ko) (f.apart k (ne_of_test k i ko) (rw jh at hj) (rw ko at hk))
    ]
    | inr jo ↦ elim (Bool-cases (k == i)) [
      | inl kh ↦
          rw (jo, kh) (ground (arith, f.apart j (ne_of_test j i jo) (rw kh at hk) (rw jo at hj)))
      | inr ko ↦ rw (jo, ko) (v.apart j k ne (rw jo at hj) (rw ko at hk))
    ]
  ]

  set-unused :
      (x : ℕ)
      → (In x c.issued) ⊎ IsNew step c i x g row
      → (j : ℕ) → HasLeft (nodes' j)
      → Outside x (nodes' j)
  set-unused x (inl issued) j h = elim (Bool-cases (j == i)) [
    | inl here' ↦ rw here' (f.unused (rw here' at h) x issued)
    | inr other ↦ rw other (v.unused j (rw other at h) x issued)
  ]
  set-unused x (inr n) j h = elim (Bool-cases (j == i)) [
    | inl here' ↦ rw here' n.own
    | inr other ↦ rw other (n.others j (ne_of_test j i other) (rw other at h))
  ]

  set-issued_below : (x : ℕ) → (In x c.issued) ⊎ IsNew step c i x g row → x ≤ top step row
  set-issued_below x (inl issued) = omega (arith, v.issued_below x issued, f.grows)
  set-issued_below x (inr n) = n.within

  -- Every number in `issued'` was issued before or is new.
  pub replace-IsValid :
      (issued' : List ℕ)
      → ((x : ℕ) → In x issued' → (In x c.issued) ⊎ IsNew step c i x g row)
      → Distinct issued'
      → IsValid step (record { row = row; nodes = nodes'; issued = issued' })
  replace-IsValid issued' old d = record {
    row_ok = f.row_ok;
    steps = set-steps;
    below = set-below;
    behind = set-behind;
    issued_below = λ x h. set-issued_below x (old x h);
    apart = set-apart;
    unused = λ j h x issued. set-unused x (old x issued) j h;
    distinct = d;
  }

  -- The generator serves the number that it is left with.
  pub serve-IsValid :
      IsNew step c i g.current_val g row
      → ((y : ℕ) → In y c.issued → g.current_val ≢ y)
      → IsValid step (record { row = row; nodes = nodes'; issued = g.current_val ∷ c.issued })
  serve-IsValid n new = replace-IsValid (g.current_val ∷ c.issued) old (new, v.distinct)
    where
      old : (x : ℕ) → In x (g.current_val ∷ c.issued) → (In x c.issued) ⊎ IsNew step c i x g row
      old x (inl e) = inr (subst (λ y. IsNew step c i y g row) e n)
      old x (inr h) = inl h
