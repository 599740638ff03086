-- ===== src/Sequence/Snowflake/Ids.antt =====
-- The three fields of a number, and where they overlap.
use arana.Prelude.{ℕ, ◌+◌, ◌*◌, ◌/◌, ◌^◌, ◌<◌, ◌≡◌, ◌∙◌, ap, arith, bit_or}
use native.Mathlib.Nat.{mod-eq_of_lt, add-zero}
use arana.Prelude.Bits.{bit_or-high_low, bit_or-scale, bit_or-one}
use arana.Sequence.Snowflake.{compose, work_id_max}

-- What the masks and shifts assume of the fields.
pub record InRange (timestamp work_id step : ℕ) : Type 0 where
  pub time_fits : timestamp < 2 ^ 42
  pub work_id_fits : work_id < 2 ^ 10
  pub step_fits : step < 2 ^ 12

pub compose-sum :
    (timestamp work_id step : ℕ)
    → InRange timestamp work_id step
    → compose timestamp work_id step ≡ timestamp * 2 ^ 22 + work_id * 2 ^ 12 + step
unfolding compose
compose-sum timestamp work_id step h =
    let regroup : timestamp * 2 ^ 22 + work_id * 2 ^ 12 ≡ (timestamp * 2 ^ 10 + work_id) * 2 ^ 12 =
      omega arith in
    rw
      (
        mod-eq_of_lt {n = timestamp * 2 ^ 22} {m = 2 ^ 64} (omega arith),
        mod-eq_of_lt {n = work_id * 2 ^ 12} {m = 2 ^ 64} (omega arith),
        bit_or-high_low 22 timestamp (work_id * 2 ^ 12) (omega arith),
        regroup,
      )
      (bit_or-high_low 12 (timestamp * 2 ^ 10 + work_id) step h.step_fits)

-- Two numbers with fields in range are equal only if their time, work id and step are.
pub compose-injective :
    (t w s t' w' s' : ℕ)
    → InRange t w s
    → InRange t' w' s'
    → compose t w s ≡ compose t' w' s'
    → (t ≡ t') × (w ≡ w') × (s ≡ s')
compose-injective t w s t' w' s' h h' e =
    omega (arith, compose-sum t w s h, compose-sum t' w' s' h')

-- The work id 1024, which the range check of initWorkerID lets pass, does not fit its ten bits:
-- at every time it gives the numbers that the work id 0 gives at that time with its lowest bit
-- set, so at every odd time those of the same millisecond.
pub compose-work_id_max :
    (timestamp step : ℕ)
    → timestamp < 2 ^ 42
    → compose timestamp work_id_max step ≡ compose (timestamp / 2 * 2 + 1) 0 step
unfolding compose
compose-work_id_max timestamp step h =
    let odd = timestamp / 2 * 2 + 1 in
    let high : bit_or (timestamp * 2 ^ 22) (2 ^ 22) ≡ odd * 2 ^ 22 =
      bit_or-scale 22 timestamp 1 ∙ ap (λ (t : ℕ). t * 2 ^ 22) (bit_or-one timestamp) in
    let low : bit_or (odd * 2 ^ 22) 0 ≡ odd * 2 ^ 22 =
      bit_or-high_low 22 odd 0 (omega arith) ∙ add-zero (odd * 2 ^ 22) in
    rw (
      mod-eq_of_lt {n = timestamp * 2 ^ 22} {m = 2 ^ 64} (omega arith),
      mod-eq_of_lt {n = odd * 2 ^ 22} {m = 2 ^ 64} (omega arith),
      high,
      low,
    )
