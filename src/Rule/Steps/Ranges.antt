-- ===== src/Rule/Steps/Ranges.antt =====
-- The values of a range in pkg/proto/rule/range.go, read by `for r.HasNext() { ... r.Next() ... }`,
-- against the values of its stepper.
use arana.Prelude.{
  ℕ, zero, suc, ◌+◌, ◌*◌, ◌%◌, ◌^◌, ◌<◌, ◌≡◌, refl, ap, arith, String, Bool, true, false, Option,
  none, some, List, [], ◌∷◌, length, ◌==◌, if◌then◌else◌,
}
use arana.Prelude.Int.{ℤ}
use arana.Prelude.Go.{Go, ret, panic, ◌>>=◌}
use arana.Rule.Steps.{
  StepUnit, hour, day, week, num, Stepper, Range, iter_int, iter_int32, iter_int64, iter_time,
  Value, int32, int, int64, time, Computed, computed, neg64, neg32, one_hour, one_day, one_week,
  add_time, compute, after, before, iter_time_of, iter_int32_of, iter_int_of, iter_int64_of,
  count_of, has_next, less_one, next,
}

-- One turn of the loop, and the rest of it
abbrev pub turn : Go (Value × Range) → (Range → Option (Go (List Value))) → Option (Go (List Value))
turn panic rest = some panic
turn (ret (v, r)) rest = elim (rest r) [ none ↦ none | some vs ↦ some (vs >>= λ us. ret (v ∷ us)) ]

-- The loop, `random` giving the text that each turn may draw; `none` is the end of the fuel.
pub drain : ℕ → Range → (ℕ → String) → Option (Go (List Value))
drain zero r random = none
drain (suc f) r random =
    if has_next r then turn (next r (random f)) (λ q. drain f q random) else some (ret [])

-- Every value is what `step` makes of the one before it, and the first one is `v`.
abbrev pub Follows : (Value → Computed Value) → Value → List Value → Type 0
Follows step v [] = Unit
Follows step v (x ∷ xs) = (x ≡ v) × (w : Value) × (step v ≡ computed w) × Follows step w xs

-- The loop ends with `k` values that follow each other from `v`.
abbrev pub Gives : (Value → Computed Value) → Value → ℕ → Option (Go (List Value)) → Type 0
Gives step v k m = (vs : List Value) × (m ≡ some (ret vs)) × (length vs ≡ k) × Follows step v vs

turned :
    (v : Value) (r : Range) (rest : Range → Option (Go (List Value))) (vs : List Value)
    → rest r ≡ some (ret vs)
    → turn (ret (v, r)) rest ≡ some (ret (v ∷ vs))
turned v r rest vs e = rw (e, turn) refl

has_next-suc : (r : Range) (k : ℕ) → count_of r ≡ suc k → suc k < 2 ^ 63 → has_next r ≡ true
unfolding has_next
has_next-suc r k e h = rw (e) (ground arith)

has_next-zero : (r : Range) → count_of r ≡ 0 → has_next r ≡ false
unfolding has_next
has_next-zero r e = rw (e) refl

less_one-suc : (k : ℕ) → suc k < 2 ^ 63 → less_one (suc k) ≡ k
less_one-suc k h = omega arith

module _ {T : Type 0} (val : T → Value) (mk : T → ℕ → Range) (add : T → T)
    (step : Value → Computed Value) (counts : (t : T) (c : ℕ) → count_of (mk t c) ≡ c)
    (nexts : (t : T) (c : ℕ) (x : String)
      → next (mk t (suc c)) x ≡ ret (val t, mk (add t) (less_one (suc c))))
    (steps : (t : T) → step (val t) ≡ computed (val (add t))) where
  drain-Gives :
      (k : ℕ) (t : T) (random : ℕ → String)
      → k < 2 ^ 63
      → Gives step (val t) k (drain (suc k) (mk t k) random)
  unfolding drain
  drain-Gives zero t random h = ([], rw (has_next-zero (mk t 0) (counts t 0), drain) refl, refl, tt)
  drain-Gives (suc k) t random h =
      let (vs, e, l, f) = drain-Gives k (add t) random (omega arith) in
      (
        val t ∷ vs,
        rw
            (
              has_next-suc (mk t (suc k)) k (counts t (suc k)) h,
              nexts t k (random (suc k)),
              less_one-suc k h,
            )
            (turned (val t) (mk (add t) k) (λ q. drain (suc k) q random) vs e),
        ap suc l,
        (refl, val (add t), steps t, f),
      )

-- The step of a range in one of the directions
abbrev pub toward : Bool → Stepper → Value → Computed Value
toward false s v = after s v
toward true s v = before s v

neg32-neg64 : (n : ℕ) → n < 2 ^ 64 → neg32 (n % 2 ^ 32) ≡ neg64 n % 2 ^ 32
neg32-neg64 n h = omega arith

neg64-hour : (n : ℕ) → n < 2 ^ 64 → neg64 (n * one_hour % 2 ^ 64) ≡ neg64 n * one_hour % 2 ^ 64
neg64-hour n h = omega arith

neg64-day : (n : ℕ) → n < 2 ^ 64 → neg64 (n * one_day % 2 ^ 64) ≡ neg64 n * one_day % 2 ^ 64
neg64-day n h = omega arith

neg64-week : (n : ℕ) → n < 2 ^ 64 → neg64 (n * one_week % 2 ^ 64) ≡ neg64 n * one_week % 2 ^ 64
neg64-week n h = omega arith

pub computed-injective : {X : Type 0} {x y : X} → computed x ≡ computed y → x ≡ y
computed-injective e = cc

abbrev pub stepper : ℕ → StepUnit → Stepper
stepper n unit = record { n = n; unit = unit }

not_zero : (c : ℕ) → (suc c == 0) ≡ false
not_zero c = ground arith

-- The ranges of each type, for any step function that adds their step
module _ (step : Value → Computed Value) (st cnt : ℕ) (random : ℕ → String) (h : cnt < 2 ^ 63) where
  abbrev Runs : Value → Range → Type 0
  Runs v r = Gives step v cnt (drain (suc cnt) r random)

  iter_int32-Gives :
      ((t : ℕ) → step (int32 t) ≡ computed (int32 ((t + st) % 2 ^ 32)))
      → (t : ℕ) → Runs (int32 t) (iter_int32 t st cnt)
  unfolding next
  iter_int32-Gives k t =
      drain-Gives int32 (λ t c. iter_int32 t st c) (λ t. (t + st) % 2 ^ 32) step (λ t c. refl)
        (λ t c x. rw (not_zero c) refl) k cnt t random h

  iter_int-Gives :
      ((t : ℕ) → step (int t) ≡ computed (int ((t + st) % 2 ^ 64)))
      → (t : ℕ) → Runs (int t) (iter_int t st cnt)
  unfolding next
  iter_int-Gives k t =
      drain-Gives int (λ t c. iter_int t st c) (λ t. (t + st) % 2 ^ 64) step (λ t c. refl)
        (λ t c x. rw (not_zero c) refl) k cnt t random h

  iter_int64-Gives :
      ((t : ℕ) → step (int64 t) ≡ computed (int64 ((t + st) % 2 ^ 64)))
      → (t : ℕ) → Runs (int64 t) (iter_int64 t st cnt)
  unfolding next
  iter_int64-Gives k t =
      drain-Gives int64 (λ t c. iter_int64 t st c) (λ t. (t + st) % 2 ^ 64) step (λ t c. refl)
        (λ t c x. rw (not_zero c) refl) k cnt t random h

  iter_time-Gives :
      ((t : ℤ) → step (time t) ≡ computed (time (add_time t st)))
      → (t : ℤ) → Runs (time t) (iter_time t st cnt)
  unfolding next
  iter_time-Gives k t =
      drain-Gives time (λ t c. iter_time t st c) (λ t. add_time t st) step (λ t c. refl)
        (λ t c x. rw (not_zero c) refl) k cnt t random h

-- The ranges that computeRange gives, in both directions
module _ (n cnt : ℕ) (random : ℕ → String) (is_int : n < 2 ^ 64) (h : cnt < 2 ^ 63) where
  abbrev Steps : Bool → StepUnit → Value → Range → Type 0
  Steps reverse unit v r = Gives (toward reverse (stepper n unit)) v cnt (drain (suc cnt) r random)

  pub int32-Steps :
      (reverse : Bool) (t : ℕ)
      → Steps reverse num (int32 t) (iter_int32_of (stepper n num) t cnt reverse)
  unfolding iter_int32_of after before compute
  int32-Steps false t = iter_int32-Gives _ (n % 2 ^ 32) cnt random h (λ t. refl) t
  int32-Steps true t =
      iter_int32-Gives _ (neg32 (n % 2 ^ 32)) cnt random h (λ t. rw (neg32-neg64 n is_int) refl) t

  pub int-Steps :
      (reverse : Bool) (t : ℕ)
      → Steps reverse num (int t) (iter_int_of (stepper n num) t cnt reverse)
  unfolding iter_int_of after before compute
  int-Steps false t = iter_int-Gives _ n cnt random h (λ t. refl) t
  int-Steps true t = iter_int-Gives _ (neg64 n) cnt random h (λ t. refl) t

  pub int64-Steps :
      (reverse : Bool) (t : ℕ)
      → Steps reverse num (int64 t) (iter_int64_of (stepper n num) t cnt reverse)
  unfolding iter_int64_of after before compute
  int64-Steps false t = iter_int64-Gives _ n cnt random h (λ t. refl) t
  int64-Steps true t = iter_int64-Gives _ (neg64 n) cnt random h (λ t. refl) t

  pub hour-Steps :
      (reverse : Bool) (t : ℤ)
      → Steps reverse hour (time t) (iter_time_of (stepper n hour) t cnt one_hour reverse)
  unfolding iter_time_of after before compute
  hour-Steps false t = iter_time-Gives _ (n * one_hour % 2 ^ 64) cnt random h (λ t. refl) t
  hour-Steps true t =
      iter_time-Gives _ (neg64 (n * one_hour % 2 ^ 64)) cnt random h
        (λ t. rw (neg64-hour n is_int) refl) t

  pub day-Steps :
      (reverse : Bool) (t : ℤ)
      → Steps reverse day (time t) (iter_time_of (stepper n day) t cnt one_day reverse)
  unfolding iter_time_of after before compute
  day-Steps false t = iter_time-Gives _ (n * one_day % 2 ^ 64) cnt random h (λ t. refl) t
  day-Steps true t =
      iter_time-Gives _ (neg64 (n * one_day % 2 ^ 64)) cnt random h
        (λ t. rw (neg64-day n is_int) refl) t

  pub week-Steps :
      (reverse : Bool) (t : ℤ)
      → Steps reverse week (time t) (iter_time_of (stepper n week) t cnt one_week reverse)
  unfolding iter_time_of after before compute
  week-Steps false t = iter_time-Gives _ (n * one_week % 2 ^ 64) cnt random h (λ t. refl) t
  week-Steps true t =
      iter_time-Gives _ (neg64 (n * one_week % 2 ^ 64)) cnt random h
        (λ t. rw (neg64-week n is_int) refl) t
