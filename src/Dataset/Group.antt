-- ===== src/Dataset/Group.antt =====
-- pkg/dataset/group_reduce.go, GroupDataset: the rows of a data set that is ordered by the group
-- keys, reduced to one row for each group. The goroutine that reads the data set, and the loop that
-- reduces what it sends, are here one after the other; Race has them side by side.
pub mod Keys
pub mod Runs
pub mod Consume
pub mod Groups
pub mod Race
pub mod Schedules
mod Examples
use arana.Prelude.{
  ℕ, zero, suc, ◌≡◌, Bool, true, false, Option, none, some, List, [], ◌∷◌, if◌then◌else◌,
}
use arana.Dataset.Streams.{Outcome, ok, fault, Answer, row, eof, failed, pending}

-- What a run of consumeUntilDifferent sends and leaves; `returned` is false at the end of the fuel.
pub record Consumed (E R S : Type 0) : Type 0 where
  pub sent : List R
  pub failure : Option E
  pub inner : S
  pub buf : Option R
  pub at_end : Bool
  pub returned : Bool

-- popBuf at the end of the data set: the last row is sent.
pop_buf : {R : Type 0} → Option R → List R
pop_buf none = []
pop_buf (some r) = r ∷ []

module _ {E R S : Type 0} where
  stop : List R → Option E → S → Option R → Bool → Consumed E R S
  stop sent failure s buf at_end = record {
    sent = sent;
    failure = failure;
    inner = s;
    buf = buf;
    at_end = at_end;
    returned = true;
  }

  send : R → Consumed E R S → Consumed E R S
  send r c = record c { sent = r ∷ c.sent }

  judge : Outcome E Bool → (S → Option R → Consumed E R S) → R → R → S → Consumed E R S
  judge (fault e) again prev next s = stop [] (some e) s (some next) false
  judge (ok true) again prev next s = send prev (again s (some next))
  judge (ok false) again prev next s = stop (prev ∷ []) none s (some next) false

  offer :
      (R → R → Outcome E Bool) → (S → Option R → Consumed E R S) → R → S → Option R → Consumed E R S
  offer same again next s none = again s (some next)
  offer same again next s (some prev) = judge (same prev next) again prev next s

  pub consume_row :
      (R → R → Outcome E Bool)
      → (S → Option R → Consumed E R S)
      → Option R
      → Answer E R × S
      → Consumed E R S
  consume_row same again buf (eof, s) = stop (pop_buf buf) none s none true
  consume_row same again buf (failed e, s) = stop [] (some e) s buf false
  consume_row same again buf (row next, s) = offer same again next s buf
  consume_row same again buf (pending, s) = record (stop [] none s buf false) { returned = false }

  -- consumeUntilDifferent, with fuel for the rows it reads
  pub consume : (S → Answer E R × S) → (R → R → Outcome E Bool) → ℕ → S → Option R → Consumed E R S
  consume next same zero s buf = record (stop [] none s buf false) { returned = false }
  consume next same (suc fuel) s buf = consume_row same (consume next same fuel) buf (next s)

-- Reducer: a fresh one, Reduce and Row; a row that is nil is `none`.
pub record Reducer (E R Q T : Type 0) : Type 0 where
  pub fresh : T
  pub reduce : T → R → Outcome E T
  pub row_of : T → Option Q

pub record Grouped (R S : Type 0) : Type 0 where
  pub inner : S
  pub buf : Option R
  pub at_end : Bool

-- The loop of Next over the rows that are sent
pub reduce_all : {E R T : Type 0} → (T → R → Outcome E T) → T → List R → Outcome E T
reduce_all reduce t [] = ok t
reduce_all reduce t (r ∷ l) = elim (reduce t r) [ ok u ↦ reduce_all reduce u l | fault e ↦ fault e ]

group_answer : {E Q : Type 0} → Outcome E (Option Q) → Option E → Answer E (Option Q)
group_answer (fault e) failure = failed e
group_answer (ok q) (some e) = failed e
group_answer (ok q) none = row q

module _ {E R Q T : Type 0} where
  row_or_fault : Reducer E R Q T → Outcome E T → Outcome E (Option Q)
  row_or_fault reducer (ok t) = ok (reducer.row_of t)
  row_or_fault reducer (fault e) = fault e

  pub reduced : Reducer E R Q T → List R → Outcome E (Option Q)
  reduced reducer l = row_or_fault reducer (reduce_all reducer.reduce reducer.fresh l)

  finish : {S : Type 0} → Reducer E R Q T → Consumed E R S → Answer E (Option Q) × Grouped R S
  finish reducer c = (
    if c.returned then group_answer (reduced reducer c.sent) c.failure else pending,
    record { inner = c.inner; buf = c.buf; at_end = c.at_end },
  )

-- GroupDataset.Next; `same` is isSameGroup on the indexes that getKeyIndexes gives, if it gives any.
pub group_next :
    {E R Q T S : Type 0}
    → (S → Answer E R × S)
    → Outcome E (R → R → Outcome E Bool)
    → Reducer E R Q T
    → ℕ
    → Grouped R S
    → Answer E (Option Q) × Grouped R S
group_next next (fault e) reducer fuel gd = if gd.at_end then (eof, gd) else (failed e, gd)
group_next next (ok same) reducer fuel gd =
    if gd.at_end then (eof, gd) else finish reducer (consume next same fuel gd.inner gd.buf)
