-- ===== src/Sequence/Group/Cluster/Unique.antt =====
-- No number is issued twice.
use arana.Prelude.{
  ℕ, ◌+◌, ◌%◌, ◌≤◌, ◌<◌, inl, inr, refl, sym, arith, false, Option, some, List, [], ◌∷◌, length,
  ◌*◌, ◌^◌, ◌≡◌, subst,
}
use arana.Sequence.Group.{Group, Row, Left, init_step}
use arana.Sequence.Group.Block.{group_at}
use arana.Sequence.Group.Cluster.{
  Cluster, Step, Reach, acquired, restarted, here, next, initial, Distinct, set_node, serve,
}
use arana.Sequence.Group.Cluster.Validity.{
  top, HasLeft, IsValid, Fits, replace-IsValid, serve-IsValid,
}
use arana.Sequence.Group.Cluster.Served.{Served, counted, opened, acquire-Served}

module _ (step : ℕ) (c : Cluster) (v : IsValid step c) (i : ℕ) where
  abbrev counted_seq : Group
  counted_seq = record (c.nodes i) { current_val = (c.nodes i).current_val + 1 }

  counted-Fits : HasLeft (c.nodes i) → Fits step c i counted_seq c.row
  counted-Fits left = record {
    row_ok = v.row_ok;
    same_step = v.steps i;
    grows = omega arith;
    below = v.below i;
    behind = omega (arith, v.below i);
    apart = λ j ne h hj. ground (arith, v.apart i j (λ p. ne (sym p)) left hj);
    unused = λ h x issued. ground (arith, v.unused i left x issued);
  }

  counted-IsValid :
      HasLeft (c.nodes i)
      → IsValid step (serve c i (record { seq = counted_seq; row = c.row; failed = false }))
  counted-IsValid left =
      serve-IsValid step c v i counted_seq c.row (counted-Fits left)
        (record {
          within = omega (arith, v.below i);
          own = inl (omega arith);
          others = λ j ne hj. ground (arith, v.apart i j (λ p. ne (sym p)) left hj);
        })
        (λ y issued. ground (arith, v.unused i left y issued))

  module _ (start n : ℕ) (pos : 0 < step) (above : top step c.row < start)
      (residue : start % step ≤ 1) where
    abbrev opened_row : Option Row
    opened_row = some (record { seq_val = some start; row_step = n })

    opened-Fits : Fits step c i (group_at (c.nodes i) start) opened_row
    opened-Fits = record {
      row_ok = (omega arith, residue);
      same_step = v.steps i;
      grows = omega arith;
      below = omega (arith, v.steps i);
      behind = omega arith;
      apart = λ j ne h hj. inr (omega (arith, v.below j));
      unused = λ h x issued. inl (omega (arith, v.issued_below x issued));
    }

    opened-IsValid :
        IsValid step (
          serve c i (record { seq = group_at (c.nodes i) start; row = opened_row; failed = false }))
    opened-IsValid =
        serve-IsValid step c v i (group_at (c.nodes i) start) opened_row opened-Fits
          (record {
            within = omega arith;
            own = inl (omega arith);
            others = λ j ne hj. inr (omega (arith, v.below j));
          })
          (λ y issued. omega (arith, v.issued_below y issued))

Served-IsValid :
    (step : ℕ) (c : Cluster) (i : ℕ) (l : Left)
    → 0 < step
    → IsValid step c
    → Served step (c.nodes i) c.row l
    → IsValid step (serve c i l)
Served-IsValid step c i l pos v (counted left seq row) =
    rw (seq, row) (counted-IsValid step c v i left)
Served-IsValid step c i l pos v (opened start n above near residue seq row) =
    rw (seq, row) (opened-IsValid step c v i start n pos above residue)

restart-IsValid :
    (step : ℕ) (c : Cluster) (i : ℕ)
    → IsValid step c
    → IsValid step (record c { nodes = set_node c.nodes i (init_step (some step)) })
unfolding init_step
restart-IsValid step c i v =
    replace-IsValid step c v i (init_step (some step)) c.row
      (record {
        row_ok = v.row_ok;
        same_step = refl;
        grows = omega arith;
        below = omega arith;
        behind = omega arith;
        apart = λ j ne h hj. absurd (omega arith);
        unused = λ h x issued. absurd (omega arith);
      })
      c.issued (λ x h. inl h) v.distinct

initial-IsValid : (step : ℕ) → IsValid step (initial step)
unfolding initial init_step
initial-IsValid step = record {
  row_ok = tt;
  steps = λ i. refl;
  below = λ i. omega arith;
  behind = λ i. omega arith;
  issued_below = λ x h. absurd h;
  apart = λ i j ne hi hj. absurd (omega arith);
  unused = λ i h x issued. absurd issued;
  distinct = tt;
}

-- The room that the numbers issued so far can have taken
abbrev taken : ℕ → List ℕ → ℕ
taken step [] = 0
taken step (x ∷ issued) = taken step issued + (step + 1)

taken-length : (step : ℕ) (issued : List ℕ) → taken step issued ≡ length issued * (step + 1)
taken-length step [] = grind arith
taken-length step (x ∷ issued) = grind (arith, taken-length step issued)

Served-top :
    (step : ℕ) (g : Group) (row : Option Row) (l : Left)
    → Served step g row l
    → top step l.row ≤ top step row + (step + 1)
Served-top step g row l (counted left seq same) = rw same (omega arith)
Served-top step g row l (opened start n above near residue seq same) = rw same (omega arith)

-- A valid cluster whose row has gone no further than the calls can have taken it
abbrev Within : ℕ → Cluster → Type 0
Within step c = IsValid step c × (top step c.row ≤ taken step c.issued)

Step-Within :
    (step : ℕ) (c u : Cluster)
    → 0 < step
    → Within step c
    → Step step c u
    → taken step u.issued + 1 < 2 ^ 63
    → Within step u
Step-Within step c u pos (v, low) (acquired i l e same) room =
    let room' : taken step c.issued + (step + 1) + 1 < 2 ^ 63 =
      subst (λ w. taken step w.issued + 1 < 2 ^ 63) same room in
    let served =
      acquire-Served step (c.nodes i) c.row l pos (v.steps i) v.row_ok
        (omega arith, v.behind i, v.below i) e in
    rw same (
      Served-IsValid step c i l pos v served,
      omega (arith, Served-top step (c.nodes i) c.row l served),
    )
Step-Within step c u pos (v, low) (restarted i same) room =
    rw same (restart-IsValid step c i v, low)

taken-grows : (step : ℕ) (c u : Cluster) → Step step c u → taken step c.issued ≤ taken step u.issued
taken-grows step c u (acquired i l e same) = rw same (omega arith)
taken-grows step c u (restarted i same) = rw same (omega arith)

Reach-Within :
    (step : ℕ) {c u : Cluster}
    → 0 < step
    → Within step c
    → Reach step c u
    → taken step u.issued + 1 < 2 ^ 63
    → Within step u
Reach-Within step pos v here room = v
Reach-Within step {u = u} pos v (next {u = w} r s) room =
    Step-Within step w u pos (Reach-Within step pos v r (omega (arith, taken-grows step w u s))) s
      room

-- Any number of nodes with the same positive step share a row that is not there at first. However
-- their calls of Acquire, none of which fails, and their restarts follow one another, no number is
-- issued twice, as long as the number of calls times one more than the step, and 1, is below 2 ^ 63.
pub Reach-Distinct :
    (step : ℕ) (c : Cluster)
    → 0 < step
    → length c.issued * (step + 1) + 1 < 2 ^ 63
    → Reach step (initial step) c
    → Distinct c.issued
unfolding initial
Reach-Distinct step c pos room r =
    (Reach-Within step pos (initial-IsValid step, omega arith) r
      (rw (taken-length step c.issued) room)).0.distinct
