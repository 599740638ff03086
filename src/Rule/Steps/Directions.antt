-- ===== src/Rule/Steps/Directions.antt =====
-- Ascend and Descend of pkg/proto/rule/range.go against After and Before.
use arana.Prelude.{ℕ, suc, ◌+◌, ◌%◌, ◌^◌, ◌<◌, ◌≡◌, ◌≢◌, refl, ap, subst, arith, String, Bool}
use arana.Rule.Steps.{
  StepUnit, hour, day, week, month, year, num, str, of, Range, Value, int32, int, int64, time,
  Computed, computed, neg64, compute, after, before, compute_range,
}
use arana.Rule.Steps.Ranges.{
  drain, Gives, toward, stepper, computed-injective, int32-Steps, int-Steps, int64-Steps,
  hour-Steps, day-Steps, week-Steps,
}

abbrev Fails : {X : Type 0} → Computed X → Type 0
Fails (computed x) = ⊥
Fails _ = Unit

month-Fails :
    (n : ℕ) (v : Value) (cnt : ℕ) (reverse : Bool)
    → Fails (compute_range (stepper n month) v cnt reverse)
unfolding compute_range
month-Fails n v cnt reverse = ground arith

year-Fails :
    (n : ℕ) (v : Value) (cnt : ℕ) (reverse : Bool)
    → Fails (compute_range (stepper n year) v cnt reverse)
unfolding compute_range
year-Fails n v cnt reverse = ground arith

of-Fails :
    (n k : ℕ) (v : Value) (cnt : ℕ) (reverse : Bool)
    → Fails (compute_range (stepper n (of k)) v cnt reverse)
unfolding compute_range
of-Fails n k v cnt reverse = ground arith

is_range :
    (n cnt : ℕ) (reverse : Bool) (random : ℕ → String) (unit : StepUnit) (v : Value) (q r : Range)
    → computed q ≡ computed r
    → Gives (toward reverse (stepper n unit)) v cnt (drain (suc cnt) q random)
    → Gives (toward reverse (stepper n unit)) v cnt (drain (suc cnt) r random)
is_range n cnt reverse random unit v q r e g =
    subst (λ p. Gives (toward reverse (stepper n unit)) v cnt (drain (suc cnt) p random))
      (computed-injective e) g

-- A loop over the range that Ascend or Descend gives for a count from 0 on, of a stepper of numbers or
-- times, ends with no panic after as many values as the count: the first is the offset, and each one is
-- what After, or Before, makes of the one ahead of it.
pub compute_range-Gives :
    (n : ℕ) (unit : StepUnit) (v : Value) (cnt : ℕ) (reverse : Bool) (r : Range)
    (random : ℕ → String)
    → n < 2 ^ 64
    → cnt < 2 ^ 63
    → unit ≢ str
    → compute_range (stepper n unit) v cnt reverse ≡ computed r
    → Gives (toward reverse (stepper n unit)) v cnt (drain (suc cnt) r random)
unfolding compute_range
compute_range-Gives n num (int32 t) cnt reverse r random i h u e =
    is_range n cnt reverse random _ _ _ r e (int32-Steps n cnt random i h reverse t)
compute_range-Gives n num (int t) cnt reverse r random i h u e =
    is_range n cnt reverse random _ _ _ r e (int-Steps n cnt random i h reverse t)
compute_range-Gives n num (int64 t) cnt reverse r random i h u e =
    is_range n cnt reverse random _ _ _ r e (int64-Steps n cnt random i h reverse t)
compute_range-Gives n hour (time t) cnt reverse r random i h u e =
    is_range n cnt reverse random _ _ _ r e (hour-Steps n cnt random i h reverse t)
compute_range-Gives n day (time t) cnt reverse r random i h u e =
    is_range n cnt reverse random _ _ _ r e (day-Steps n cnt random i h reverse t)
compute_range-Gives n week (time t) cnt reverse r random i h u e =
    is_range n cnt reverse random _ _ _ r e (week-Steps n cnt random i h reverse t)
compute_range-Gives n str v cnt reverse r random i h u e = absurd (u refl)
compute_range-Gives n month v cnt reverse r random i h u e =
    absurd (subst Fails e (month-Fails n v cnt reverse))
compute_range-Gives n year v cnt reverse r random i h u e =
    absurd (subst Fails e (year-Fails n v cnt reverse))
compute_range-Gives n (of k) v cnt reverse r random i h u e =
    absurd (subst Fails e (of-Fails n k v cnt reverse))
compute_range-Gives n unit v cnt reverse r random i h u e = absurd (subst Fails e tt)

abbrev pub IsIn : Value → Type 0
IsIn (int32 t) = t < 2 ^ 32
IsIn (int t) = t < 2 ^ 64
IsIn (int64 t) = t < 2 ^ 64
IsIn _ = ⊥

wrap64 : (t n : ℕ) → n < 2 ^ 64 → t < 2 ^ 64 → ((t + n) % 2 ^ 64 + neg64 n) % 2 ^ 64 ≡ t
wrap64 t n h i = omega arith

wrap32 :
    (t n : ℕ)
    → n < 2 ^ 64
    → t < 2 ^ 32
    → ((t + n % 2 ^ 32) % 2 ^ 32 + neg64 n % 2 ^ 32) % 2 ^ 32 ≡ t
wrap32 t n h i = omega arith

-- Before undoes After on the integers of the three types that a number stepper takes, also where they
-- wrap around.
pub before-after :
    (n : ℕ) (v w : Value)
    → n < 2 ^ 64
    → IsIn v
    → after (stepper n num) v ≡ computed w
    → before (stepper n num) w ≡ computed v
unfolding after before compute
before-after n (int32 t) w h i e =
    subst (λ x. before (stepper n num) x ≡ computed (int32 t)) (computed-injective e)
      (ap (λ z. computed (int32 z)) (wrap32 t n h i))
before-after n (int t) w h i e =
    subst (λ x. before (stepper n num) x ≡ computed (int t)) (computed-injective e)
      (ap (λ z. computed (int z)) (wrap64 t n h i))
before-after n (int64 t) w h i e =
    subst (λ x. before (stepper n num) x ≡ computed (int64 t)) (computed-injective e)
      (ap (λ z. computed (int64 z)) (wrap64 t n h i))
before-after n v w h i e = absurd i
