-- ===== src/Rule/Steps.antt =====
-- pkg/proto/rule/range.go: the steppers of shard columns and the ranges of values they give. An int of
-- w bits is a word below 2 ^ w in two's complement; a time is a number of nanoseconds.
pub mod Ranges
pub mod Directions
mod Examples
use arana.Prelude.{
  ℕ, zero, suc, ◌+◌, ◌-◌, ◌*◌, ◌%◌, ◌^◌, String, Bool, true, false, ◌&&◌, Option, none, some, List,
  [], ◌∷◌, ltb, ◌==◌, if◌then◌else◌,
}
use arana.Prelude.Int.{ℤ, pos, negsuc, ◌+ℤ◌}
use arana.Prelude.Go.{Go, ret, panic, ◌>>=◌}

-- `of n` is a value of the type that has no name.
pub data StepUnit : Type 0 where
  hour : StepUnit
  day : StepUnit
  week : StepUnit
  month : StepUnit
  year : StepUnit
  num : StepUnit
  str : StepUnit
  of : ℕ → StepUnit

pub is_time : StepUnit → Bool
is_time hour = true
is_time day = true
is_time week = true
is_time month = true
is_time year = true
is_time _ = false

pub record Stepper : Type 0 where
  pub n : ℕ
  pub unit : StepUnit

-- The types that implement Range: the current value, the step and the count; for texts, the length and
-- the count
pub data Range : Type 0 where
  iter_str : ℕ → ℕ → Range
  iter_int : ℕ → ℕ → ℕ → Range
  iter_int32 : ℕ → ℕ → ℕ → Range
  iter_int64 : ℕ → ℕ → ℕ → Range
  iter_time : ℤ → ℕ → ℕ → Range

-- An interface{}: `other` is of a type that no `case` names.
pub data Value : Type 0 where
  absent : Value
  int32 : ℕ → Value
  int : ℕ → Value
  int64 : ℕ → Value
  time : ℤ → Value
  text : String → Value
  range : Range → Value
  other : Value

pub data Computed (X : Type 0) : Type 0 where
  computed : X → Computed X
  nil_offset : Computed X
  unsupported : Computed X

abbrev pub neg64 : ℕ → ℕ
neg64 n = (2 ^ 64 - n) % 2 ^ 64

abbrev pub neg32 : ℕ → ℕ
neg32 n = (2 ^ 32 - n) % 2 ^ 32

abbrev pub signed64 : ℕ → ℤ
signed64 n = if ltb n (2 ^ 63) then pos n else negsuc (2 ^ 64 - n - 1)

-- time.Hour, and the constants duDay and duWeek
abbrev pub one_hour : ℕ
one_hour = 3600000000000

abbrev pub one_day : ℕ
one_day = 24 * one_hour

abbrev pub one_week : ℕ
one_week = 7 * 24 * one_hour

-- time.Time's Add
pub add_time : ℤ → ℕ → ℤ
add_time t d = t +ℤ signed64 d

-- compute
pub compute : Stepper → Value → ℕ → Computed Value
compute s absent n = nil_offset
compute s v n = elim s.unit [
  | num ↦ elim v [
    | int32 cur ↦ computed (int32 ((cur + n % 2 ^ 32) % 2 ^ 32))
    | int cur ↦ computed (int ((cur + n) % 2 ^ 64))
    | int64 cur ↦ computed (int64 ((cur + n) % 2 ^ 64))
    | _ ↦ unsupported
  ]
  | hour ↦ elim v [
    | time cur ↦ computed (time (add_time cur (n * one_hour % 2 ^ 64)))
    | _ ↦ unsupported
  ]
  | day ↦ elim v [
    | time cur ↦ computed (time (add_time cur (n * one_day % 2 ^ 64)))
    | _ ↦ unsupported
  ]
  | week ↦ elim v [
    | time cur ↦ computed (time (add_time cur (n * one_week % 2 ^ 64)))
    | _ ↦ unsupported
  ]
  | str ↦ computed (range (iter_str 16 n))
  | _ ↦ unsupported
]

-- After and Before
pub after : Stepper → Value → Computed Value
after s v = compute s v s.n

pub before : Stepper → Value → Computed Value
before s v = compute s v (neg64 s.n)

pub iter_time_of : Stepper → ℤ → ℕ → ℕ → Bool → Range
iter_time_of s cur cnt unit reverse =
    let step = s.n * unit % 2 ^ 64 in iter_time cur (if reverse then neg64 step else step) cnt

pub iter_int32_of : Stepper → ℕ → ℕ → Bool → Range
iter_int32_of s cur cnt reverse =
    let step = s.n % 2 ^ 32 in iter_int32 cur (if reverse then neg32 step else step) cnt

pub iter_int_of : Stepper → ℕ → ℕ → Bool → Range
iter_int_of s cur cnt reverse = iter_int cur (if reverse then neg64 s.n else s.n) cnt

pub iter_int64_of : Stepper → ℕ → ℕ → Bool → Range
iter_int64_of s cur cnt reverse = iter_int64 cur (if reverse then neg64 s.n else s.n) cnt

-- computeRange
pub compute_range : Stepper → Value → ℕ → Bool → Computed Range
compute_range s absent cnt reverse = nil_offset
compute_range s v cnt reverse = elim s.unit [
  | num ↦ elim v [
    | int32 cur ↦ computed (iter_int32_of s cur cnt reverse)
    | int cur ↦ computed (iter_int_of s cur cnt reverse)
    | int64 cur ↦ computed (iter_int64_of s cur cnt reverse)
    | _ ↦ unsupported
  ]
  | hour ↦ elim v [
    | time cur ↦ computed (iter_time_of s cur cnt one_hour reverse)
    | _ ↦ unsupported
  ]
  | day ↦ elim v [ time cur ↦ computed (iter_time_of s cur cnt one_day reverse) | _ ↦ unsupported ]
  | week ↦ elim v [
    | time cur ↦ computed (iter_time_of s cur cnt one_week reverse)
    | _ ↦ unsupported
  ]
  | str ↦ computed (iter_str 16 cnt)
  | _ ↦ unsupported
]

-- Ascend and Descend
pub ascend : Stepper → Value → ℕ → Computed Range
ascend s v cnt = compute_range s v cnt false

pub descend : Stepper → Value → ℕ → Computed Range
descend s v cnt = compute_range s v cnt true

abbrev pub count_of : Range → ℕ
count_of (iter_str length cnt) = cnt
count_of (iter_int cur step cnt) = cnt
count_of (iter_int32 cur step cnt) = cnt
count_of (iter_int64 cur step cnt) = cnt
count_of (iter_time cur step cnt) = cnt

-- HasNext: a count is an int, so one from 2 ^ 63 on is negative.
pub has_next : Range → Bool
has_next r = ltb 0 (count_of r) && ltb (count_of r) (2 ^ 63)

abbrev pub less_one : ℕ → ℕ
less_one cnt = (cnt + (2 ^ 64 - 1)) % 2 ^ 64

-- Next; `random` is the text that the package's random source gives. Only the texts' iterator looks
-- at the sign of its count.
pub next : Range → String → Go (Value × Range)
next (iter_str length cnt) random =
    if has_next (iter_str length cnt)
    then ret (text random, iter_str length (less_one cnt))
    else panic
next (iter_int cur step cnt) random =
    if cnt == 0 then panic else ret (int cur, iter_int ((cur + step) % 2 ^ 64) step (less_one cnt))
next (iter_int32 cur step cnt) random =
    if cnt == 0
    then panic
    else ret (int32 cur, iter_int32 ((cur + step) % 2 ^ 32) step (less_one cnt))
next (iter_int64 cur step cnt) random =
    if cnt == 0
    then panic
    else ret (int64 cur, iter_int64 ((cur + step) % 2 ^ 64) step (less_one cnt))
next (iter_time cur step cnt) random =
    if cnt == 0 then panic else ret (time cur, iter_time (add_time cur step) step (less_one cnt))
