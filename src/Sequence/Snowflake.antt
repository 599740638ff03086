-- ===== src/Sequence/Snowflake.antt =====
-- pkg/sequence/snowflake/snowflake.go. The clock is the list of the millisecond stamps since the
-- epoch that the calls of `time.Since` will give; an int64 is its 64-bit pattern, and stamps are
-- not negative. The table of work ids is the list of its rows.
mod Ids
mod Clock
mod WorkId
mod Examples
use arana.Prelude.{
  ℕ, zero, suc, ◌+◌, ◌-◌, ◌*◌, ◌%◌, ◌^◌, bit_or, bit_and, Bool, true, false, ◌||◌, Option, none,
  some, List, [], ◌∷◌, ltb, leb, ◌==◌, if◌then◌else◌,
}
use Prim.Native.Nat.{max}
use mathlib.Core.Option
use arana.Prelude.Go.{Go, ret, panic, ◌>>=◌}

abbrev pub work_id_max : ℕ
work_id_max = 1024

abbrev pub step_mask : ℕ
step_mask = 2 ^ 12 - 1

-- int64 x << k
abbrev pub shl64 : ℕ → ℕ → ℕ
shl64 x k = x * 2 ^ k % 2 ^ 64

pub record Snowflake : Type 0 where
  pub seq_offset : ℕ  -- int8
  pub last_time : ℕ
  pub step : ℕ
  pub work_id : ℕ
  pub current_val : ℕ

-- timestamp<<timeShift | workId<<workIdShift | step
pub compose : ℕ → ℕ → ℕ → ℕ
compose timestamp work_id step = bit_or (bit_or (shl64 timestamp 22) (shl64 work_id 12)) step

-- `for timestamp <= seq.lastTime { … }`; `none` where the stamps end before the loop does
pub wait_until_after : ℕ → ℕ → List ℕ → Option (ℕ × List ℕ)
wait_until_after last timestamp [] = if leb timestamp last then none else some (timestamp, [])
wait_until_after last timestamp (next ∷ later) =
    let again = wait_until_after last next later in
    if leb timestamp last then again else some (timestamp, next ∷ later)

-- ^x & 1 on an int8
pub flip : ℕ → ℕ
flip offset = bit_and (2 ^ 8 - 1 - offset) 1

-- The last two assignments of Acquire
pub stamp : Snowflake → ℕ → Snowflake
stamp seq timestamp = record seq {
  last_time = timestamp;
  current_val = compose timestamp seq.work_id seq.step;
}

-- What an Acquire leaves: the generator, the number, and the stamps that it has not read.
pub record Acquired : Type 0 where
  pub after : Snowflake
  pub value : ℕ
  pub clock : List ℕ

returned : Snowflake → ℕ × List ℕ → Acquired
returned seq (timestamp, clock) =
    let after = stamp seq timestamp in
    record { after = after; value = after.current_val; clock = clock }

-- Acquire. `none`: the stamps do not reach the time for which it waits.
pub acquire : Snowflake → List ℕ → Option Acquired
unfolding wait_until_after flip stamp returned
acquire seq [] = none
acquire seq (timestamp ∷ clock) =
    let next = bit_and (seq.step + 1) step_mask in
    let offset = flip seq.seq_offset in
    let waited = wait_until_after seq.last_time timestamp clock in
    if timestamp == seq.last_time
    then (if next == 0
        then Option.map (returned (record seq { step = next })) waited
        else some (returned (record seq { step = next }) (timestamp, clock)))
    else some (returned (record seq { seq_offset = offset; step = offset }) (timestamp, clock))

-- A generator that acquires `n` times in a row, with the numbers that it returns
pub acquire_many : ℕ → Snowflake → List ℕ → Option (List ℕ)
acquire_many zero seq clock = some []
acquire_many (suc n) seq clock = elim (acquire seq clock) [
  | none ↦ none
  | some a ↦ Option.map (λ ids. a.value ∷ ids) (acquire_many n a.after a.clock)
]

-- A row of __arana_snowflake_sequence for one logic table; `stale` is the test on renew_time.
pub record Row : Type 0 where
  pub work_id : ℕ
  pub node : ℕ
  pub stale : Bool

-- MAX over the rows that a condition selects: NULL where there are none
pub max_work_id : (Row → Bool) → List Row → Option ℕ
max_work_id p [] = none
max_work_id p (r ∷ rows) =
    let rest = max_work_id p rows in
    if p r then some (elim rest [ none ↦ r.work_id | some m ↦ max r.work_id m ]) else rest

-- _selectSelfWorkIdWithXLock: the first row of the node, if it has one
pub select_self : ℕ → List Row → Option ℕ
select_self node [] = none
select_self node (r ∷ rows) =
    let rest = select_self node rows in if r.node == node then some r.work_id else rest

-- _selectMaxWorkIdWithXLock, _selectFreeWorkIdWithXLock
pub select_max : List Row → Option ℕ
unfolding max_work_id
select_max = max_work_id (λ r. true)

pub select_free : List Row → Option ℕ
unfolding max_work_id
select_free = max_work_id (λ r. r.stale)

-- Which call to the database fails, if one does
pub data Fault : Type 0 where
  no_fault at_begin at_query at_exec at_commit : Fault

-- findWorkID, where the queries succeed. A NULL from _selectFreeWorkIdWithXLock is a nil value,
-- and the call of its method Int64 panics.
pub find_work_id : ℕ → List Row → Go ℕ
unfolding select_self select_max select_free
find_work_id node rows = elim (select_self node rows) [
  | some own ↦ ret own
  | none ↦ elim (select_max rows) [
    | none ↦ ret 1
    | some top ↦
        if ltb work_id_max (top + 1)
        then elim (select_free rows) [ none ↦ panic | some free ↦ ret (free + 1) ]
        else ret (top + 1)
  ]
]

-- _setWorkId: REPLACE deletes the rows that share the work id or the node.
pub replace_row : ℕ → ℕ → List Row → List Row
replace_row id node [] = record { work_id = id; node = node; stale = false } ∷ []
replace_row id node (r ∷ rows) =
    let rest = replace_row id node rows in
    if r.work_id == id || r.node == node then rest else r ∷ rest

-- What initWorkerID leaves: the generator, the table, and whether it returned an error
pub record Started : Type 0 where
  pub seq : Snowflake
  pub rows : List Row
  pub failed : Bool

-- initWorkerID. Before the commit an error leaves the table as it was; the range of the work id
-- is tested after it.
pub init_worker_id : Fault → ℕ → Snowflake → List Row → Go Started
unfolding find_work_id replace_row
init_worker_id no_fault node seq rows = do
  id ← find_work_id node rows
  ret (record {
    seq = record seq { work_id = id };
    rows = replace_row id node rows;
    failed = ltb work_id_max id;
  })
init_worker_id at_begin node seq rows = ret (record { seq = seq; rows = rows; failed = true })
init_worker_id at_query node seq rows = ret (record { seq = seq; rows = rows; failed = true })
init_worker_id at_exec node seq rows = do
  id ← find_work_id node rows
  ret (record { seq = seq; rows = rows; failed = true })
init_worker_id at_commit node seq rows = do
  id ← find_work_id node rows
  ret (record { seq = seq; rows = rows; failed = true })
