-- ===== src/Sequence/Group/Cluster/Served.antt =====
-- A successful Acquire: the next number of the node's group, or the first of a new one.
use native.Mathlib.Nat.{mod-le}
use arana.Prelude.{
  ℕ, ◌+◌, ◌-◌, ◌%◌, ◌^◌, ◌≤◌, ◌<◌, ◌≡◌, inl, inr, sym, subst, arith, Option, none, some, Bool-cases,
  Option-cases, leb,
}
use arana.Prelude.Go.{ret}
use arana.Sequence.Group.{Group, Row, Left, no_fault, next_start, acquire, start_sequence}
use arana.Sequence.Words.{add64-small, le64-small}
use arana.Sequence.Group.Block.{
  next_start-disjoint_iff, next_start-residue, next_start-reach, group_at, open_group-small,
}
use arana.Sequence.Group.Cluster.Validity.{top, end_of, ValueOk, RowOk, HasLeft}

-- The two ways in which Acquire succeeds
pub data Served (step : ℕ) (g : Group) (row : Option Row) (l : Left) : Type 0 where
  counted :
      HasLeft g
      → l.seq ≡ record g { current_val = g.current_val + 1 }
      → l.row ≡ row
      → Served step g row l
  opened :
      (start n : ℕ)
      → top step row < start
      → start ≤ top step row + 2
      → start % step ≤ 1
      → l.seq ≡ group_at g start
      → l.row ≡ some (record { seq_val = some start; row_step = n })
      → Served step g row l

-- Nothing wraps around while the numbers of the row's group, and of the next one, stay below the
-- largest int64.
abbrev pub Room : ℕ → Group → Option Row → Type 0
Room step g row =
    (top step row + step + 2 < 2 ^ 63)
    × (g.current_val ≤ top step row)
    × (g.current_group_max_val ≤ top step row)

pub acquire-Served :
    (step : ℕ) (g : Group) (row : Option Row) (l : Left)
    → 0 < step
    → g.step ≡ step
    → RowOk step row
    → Room step g row
    → acquire no_fault g row ≡ ret l
    → Served step g row l
unfolding acquire
acquire-Served step g none l pos same ok room e =
    let test = le64-small g.current_group_max_val g.current_val (omega arith) (omega arith) in
    elim (Bool-cases (leb g.current_group_max_val g.current_val)) [
      | inr left ↦
          let next = add64-small g.current_val 1 (omega arith) in
          counted (ground arith) (ground (arith, test, next)) (ground (arith, test))
      | inl used ↦
          let opens = open_group-small g start_sequence (omega arith) (omega arith) in
          opened start_sequence g.step (omega arith) (omega arith) (mod-le 1 step)
            (ground (arith, test, opens)) (ground (arith, test))
    ]
acquire-Served step g (some r) l pos same ok room e =
    let test = le64-small g.current_group_max_val g.current_val (omega arith) (omega arith) in
    elim (Bool-cases (leb g.current_group_max_val g.current_val)) [
      | inr left ↦
          let next = add64-small g.current_val 1 (omega arith) in
          counted (ground arith) (ground (arith, test, next)) (ground (arith, test))
      | inl used ↦ elim (Option-cases r.seq_val) [
        | inl null ↦ absurd (subst (ValueOk step) null ok)
        | inr (last, e') ↦
            let value : ValueOk step (some last) = subst (ValueOk step) e' ok in
            let fits : last + step - 1 + step + 2 < 2 ^ 63 =
              subst (λ o. end_of step o + step + 2 < 2 ^ 63) e' room.0 in
            let start = next_start last step in
            let near = next_start-reach last step pos (omega arith) in
            let opens = open_group-small g start (omega arith) (omega (arith, near)) in
            opened start r.row_step
              (subst (λ o. end_of step o < start) (sym e')
                (omega (arith, (next_start-disjoint_iff last step pos (omega arith)).1 value.1)))
              (subst (λ o. start ≤ end_of step o + 2) (sym e') (omega (arith, near)))
              (next_start-residue last step pos (omega arith)) (ground (arith, test, opens))
              (ground (arith, test))
      ]
    ]
