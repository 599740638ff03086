-- ===== src/Sequence/Group.antt =====
-- pkg/sequence/group/group.go. Numbers and steps are int64, as their 64-bit patterns; `none` for a
-- step from the options stands for none given. Of the table __arana_group_sequence it keeps the row
-- of one logic table.
mod Block
mod Faults
pub mod Cluster
use arana.Prelude.{
  ℕ, zero, suc, ◌+◌, ◌-◌, ◌*◌, ◌/◌, Bool, true, false, Option, none, some, ◌==◌, if◌then◌else◌,
}
use arana.Sequence.Words.{add64, sub64, mul64, div64, le64}
use arana.Prelude.Go.{Go, ret, panic, ◌>>=◌}

abbrev pub start_sequence : ℕ
start_sequence = 1

abbrev pub default_group_step : ℕ
default_group_step = 100

pub record Group : Type 0 where
  pub step : ℕ
  pub current_group_max_val : ℕ
  pub current_val : ℕ

-- The columns seq_val (nullable) and step
pub record Row : Type 0 where
  pub seq_val : Option ℕ
  pub row_step : ℕ

-- The call that fails, if one does. `at_load` stands for all that fail before the first
-- assignment to the generator: runtime.Load, Begin, Query, Dataset, Next and Scan.
pub data Fault : Type 0 where
  no_fault at_load at_exec at_commit : Fault

-- What a call leaves: the generator, the committed row, and whether it returned an error.
pub record Left : Type 0 where
  pub seq : Group
  pub row : Option Row
  pub failed : Bool

-- initStep; the generator is new, so its other fields are 0.
pub init_step : Option ℕ → Group
init_step option = record {
  step = elim option [ none ↦ default_group_step | some n ↦ n ];
  current_group_max_val = 0;
  current_val = 0;
}

-- The first number of the group behind a row's value
pub next_start : ℕ → ℕ → ℕ
unfolding add64 mul64 div64
next_start last step = add64 (mul64 (add64 (div64 last step) 1) step) 1

-- `seq.currentVal = …; seq.currentGroupMaxVal = …`
pub open_group : Group → ℕ → Group
unfolding add64 sub64
open_group seq start = record seq {
  current_val = start;
  current_group_max_val = sub64 (add64 start seq.step) 1;
}

-- The Exec and the Commit behind those assignments: a failure rolls the row back, and leaves the
-- generator as it is by then.
write_row : Fault → Group → Option Row → Row → Left
write_row no_fault seq old new = record { seq = seq; row = some new; failed = false }
write_row at_load seq old new = record { seq = seq; row = old; failed = true }
write_row at_exec seq old new = record { seq = seq; row = old; failed = true }
write_row at_commit seq old new = record { seq = seq; row = old; failed = true }

-- The branch for a row: a NULL changes nothing. Division by a zero step panics.
from_value : Fault → Group → Row → Option ℕ → Go Left
unfolding write_row next_start open_group
from_value fault seq row none = ret (record { seq = seq; row = some row; failed = false })
from_value fault seq row (some last) =
    let start = next_start last seq.step in
    if seq.step == 0
    then panic
    else ret
        (write_row fault (open_group seq start) (some row) (record row { seq_val = some start }))

-- What follows a successful Next, or an EOF
from_row : Fault → Group → Option Row → Go Left
unfolding write_row from_value open_group
from_row fault seq none = ret (
    write_row fault (open_group seq start_sequence) none
      (record { seq_val = some start_sequence; row_step = seq.step }))
from_row fault seq (some row) = from_value fault seq row row.seq_val

-- acquireNextGroup, with runtime.Load before it
pub acquire_next_group : Fault → Group → Option Row → Go Left
unfolding from_row
acquire_next_group at_load seq row = ret (record { seq = seq; row = row; failed = true })
acquire_next_group fault seq row = from_row fault seq row

-- Acquire; the number that it returns is `seq.current_val` of what it leaves.
pub acquire : Fault → Group → Option Row → Go Left
unfolding acquire_next_group le64 add64
acquire fault seq row =
    if le64 seq.current_group_max_val seq.current_val
    then acquire_next_group fault seq row
    else ret (record {
      seq = record seq { current_val = add64 seq.current_val 1 };
      row = row;
      failed = false;
    })
