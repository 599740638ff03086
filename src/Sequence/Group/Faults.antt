-- ===== src/Sequence/Group/Faults.antt =====
-- Generators over the row of pkg/sequence/group/group.go whose group was not committed.
use arana.Prelude.{ℕ, ◌+◌, ◌-◌, ◌^◌, ◌≤◌, ◌<◌, ◌≡◌, refl, arith, true, false, Option, some}
use arana.Prelude.Go.{ret}
use arana.Sequence.Group.{Group, Row, Left, Fault, no_fault, at_commit, next_start, acquire}
use arana.Sequence.Words.{le64-small, add64-small}
use arana.Sequence.Group.Block.{next_start-reach, group_at, open_group-small}

-- A generator with no number left, and none that is negative
abbrev pub IsUsedUp : Group → Type 0
IsUsedUp g = (g.current_group_max_val ≤ g.current_val) × (g.current_val < 2 ^ 63)

abbrev row_of : ℕ → ℕ → Option Row
row_of v n = some (record { seq_val = some v; row_step = n })

-- Two generators with the same step of at least 2, no number left and none that is negative, over a
-- row whose value, twice the step and 1 add up to less than 2 ^ 63. The Commit of the first one fails,
-- which leaves the row as it was. Its next call then succeeds whichever call to the database fails,
-- and leaves the row alone; the second generator is given the same number by its second call, also
-- whichever call fails.
pub acquire-failed_commit :
    (a b : Group) (last n : ℕ) (f g : Fault)
    → 2 ≤ a.step
    → b.step ≡ a.step
    → last + a.step + a.step + 1 < 2 ^ 63
    → IsUsedUp a
    → IsUsedUp b
    → (a1 a2 b1 b2 : Left) × (acquire at_commit a (row_of last n) ≡ ret a1)
      × (a1.failed ≡ true)
      × (a1.row ≡ row_of last n)
      × (acquire f a1.seq a1.row ≡ ret a2)
      × (a2.failed ≡ false)
      × (a2.row ≡ row_of last n)
      × (acquire no_fault b a2.row ≡ ret b1)
      × (acquire g b1.seq b1.row ≡ ret b2)
      × (b2.failed ≡ false)
      × (a2.seq.current_val ≡ b2.seq.current_val)
unfolding acquire
acquire-failed_commit a b last n f g big same room used_a used_b =
    let start = next_start last a.step in
    let near = next_start-reach last a.step (omega arith) (omega arith) in
    let opened = group_at a start in
    let opened_b = group_at b start in
    let one = record opened { current_val = start + 1 } in
    let one_b = record opened_b { current_val = start + 1 } in
    let opens = open_group-small a start (omega arith) (omega (arith, near)) in
    let opens_b = open_group-small b start (omega arith) (omega (arith, near)) in
    let next = add64-small start 1 (omega (arith, near)) in
    let test_a = le64-small a.current_group_max_val a.current_val (omega arith) (omega arith) in
    let test_b = le64-small b.current_group_max_val b.current_val (omega arith) (omega arith) in
    let test = le64-small (start + a.step - 1) start (omega (arith, near)) (omega (arith, near)) in
    (
      record { seq = opened; row = row_of last n; failed = true },
      record { seq = one; row = row_of last n; failed = false },
      record { seq = opened_b; row = row_of start n; failed = false },
      record { seq = one_b; row = row_of start n; failed = false },
      ground (arith, test_a, opens),
      refl,
      refl,
      ground (arith, test, next),
      refl,
      refl,
      ground (arith, test_b, opens_b),
      ground (arith, test, next),
      refl,
      refl,
    )
