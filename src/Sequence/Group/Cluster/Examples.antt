-- ===== src/Sequence/Group/Cluster/Examples.antt =====
-- Generators on which the theorems on pkg/sequence/group/group.go are used.
use arana.Prelude.{ℕ, ◌+◌, ◌-◌, ◌^◌, ◌%◌, ◌≡◌, ◌≤◌, ◌↔◌, refl, arith, true, false, Option, some}
use arana.Prelude.Go.{ret}
use arana.Sequence.Group.{
  Group, Row, Left, no_fault, at_load, at_commit, next_start, init_step, open_group, write_row,
  from_value, from_row, acquire_next_group, acquire,
}
use arana.Sequence.Words.{is_negative, magnitude, add64, sub64, mul64, div64}
use arana.Sequence.Group.Block.{next_start-disjoint_iff}
use arana.Sequence.Group.Faults.{acquire-failed_commit}
use arana.Sequence.Group.Cluster.{Cluster, acquired, Reach, here, next, initial, serve, Distinct}
use arana.Sequence.Group.Cluster.Unique.{Reach-Distinct}

next_start-disjoint_iff_example : (101 + 100 ≤ next_start 101 100) ↔ (101 % 100 ≤ 1)
next_start-disjoint_iff_example = next_start-disjoint_iff 101 100 (ground arith) (omega arith)

-- A generator with a step and no number left
abbrev used : ℕ → Group
used step = record { step = step; current_group_max_val = 0; current_val = 0 }

abbrev row_at : ℕ → Option Row
row_at v = some (record { seq_val = some v; row_step = 100 })

acquire-failed_commit_example :
    (a1 a2 b1 b2 : Left) × (acquire at_commit (used 100) (row_at 101) ≡ ret a1)
    × (a1.failed ≡ true)
    × (a1.row ≡ row_at 101)
    × (acquire at_load a1.seq a1.row ≡ ret a2)
    × (a2.failed ≡ false)
    × (a2.row ≡ row_at 101)
    × (acquire no_fault (used 100) a2.row ≡ ret b1)
    × (acquire at_load b1.seq b1.row ≡ ret b2)
    × (b2.failed ≡ false)
    × (a2.seq.current_val ≡ b2.seq.current_val)
acquire-failed_commit_example =
    acquire-failed_commit (used 100) (used 100) 101 100 at_load at_load (ground arith) refl
      (omega arith) (ground arith) (ground arith)

-- Two nodes of a cluster with the step 2, of which the first acquires and then the second
abbrev left0 : Left
left0 = record {
  seq = record { step = 2; current_group_max_val = 2; current_val = 1 };
  row = some (record { seq_val = some 1; row_step = 2 });
  failed = false;
}

abbrev left1 : Left
left1 = record {
  seq = record { step = 2; current_group_max_val = 4; current_val = 3 };
  row = some (record { seq_val = some 3; row_step = 2 });
  failed = false;
}

abbrev second : Cluster
second = serve (serve (initial 2) 0 left0) 1 left1

first_call : acquire no_fault ((initial 2).nodes 0) (initial 2).row ≡ ret left0
unfolding acquire acquire_next_group from_row write_row open_group initial init_step
first_call = refl

second_call : acquire no_fault ((serve (initial 2) 0 left0).nodes 1) left0.row ≡ ret left1
unfolding acquire acquire_next_group from_row from_value next_start write_row open_group initial
    init_step
second_call = refl

second_reached : Reach 2 (initial 2) second
second_reached =
    next (next here (acquired 0 left0 first_call refl)) (acquired 1 left1 second_call refl)

Reach-Distinct_example : Distinct second.issued
unfolding initial
Reach-Distinct_example = Reach-Distinct 2 second (ground arith) (ground arith) second_reached

-- -7 / 2, and a start that wraps around to a negative one
minus : div64 (2 ^ 64 - 7) 2 ≡ 2 ^ 64 - 3
unfolding div64 magnitude is_negative sub64
minus = refl

turned : is_negative (next_start (2 ^ 62 + 1) (2 ^ 62)) ≡ true
unfolding is_negative next_start add64 mul64 div64 magnitude
turned = refl
