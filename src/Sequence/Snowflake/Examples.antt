-- ===== src/Sequence/Snowflake/Examples.antt =====
-- Generators and tables of work ids on which the theorems on pkg/sequence/snowflake/snowflake.go are
-- used.
use arana.Prelude.{
  ℕ, zero, suc, ◌+◌, ◌≡◌, ◌≢◌, ◌≤◌, refl, sym, ℕ_discrete, arith, inl, inr, true, false, none, some,
  List, [], ◌∷◌, ◌==◌,
}
use arana.Prelude.Go.{ret}
use arana.Sequence.Snowflake.{
  Snowflake, work_id_max, compose, flip, stamp, returned, wait_until_after, Acquired, acquire,
  acquire_many, Row, no_fault, Started, select_self, select_max, select_free, max_work_id,
  find_work_id, init_worker_id,
}
use arana.Sequence.Snowflake.Ids.{compose-injective}
use arana.Sequence.Snowflake.Clock.{Increasing, acquire_many-Increasing, acquire_total}
use arana.Sequence.Snowflake.WorkId.{In, NewAmong, init_worker_id-fresh, find_work_id-takes_live}

abbrev seq0 : Snowflake
seq0 = record { seq_offset = 0; last_time = 5; step = 4095; work_id = 3; current_val = 0 }

-- Two stamps of the last millisecond, and a later one
abbrev clock0 : List ℕ
clock0 = 5 ∷ 5 ∷ 6 ∷ 6 ∷ []

two_ids : acquire_many 2 seq0 clock0 ≡ some (compose 6 3 0 ∷ compose 6 3 1 ∷ [])
unfolding acquire_many acquire returned stamp wait_until_after flip compose
two_ids = refl

acquire_many-Increasing_example : Increasing 0 (compose 6 3 0 ∷ compose 6 3 1 ∷ [])
acquire_many-Increasing_example =
    acquire_many-Increasing 2 seq0 clock0 (compose 6 3 0 ∷ compose 6 3 1 ∷ []) (ground arith)
      (ground arith) two_ids

acquire_total_example :
    (a : Acquired) × (acquire seq0 clock0 ≡ some a)
    × (a.value ≡ compose a.after.last_time 3 a.after.step)
acquire_total_example = acquire_total seq0 clock0 (inr (inr (inl (ground arith))))

abbrev early : ℕ
early = 7

abbrev late : ℕ
late = 3 + 4

compose-injective_example : (early ≡ late) × (early ≡ late) × (early ≡ late)
compose-injective_example =
    compose-injective early early early late late late (ground arith) (ground arith) refl

abbrev few_rows : List Row
few_rows =
    record { work_id = 2; node = 11; stale = false }
    ∷ record { work_id = 1; node = 12; stale = true }
    ∷ []

few_new : select_self 10 few_rows ≡ none
unfolding select_self
few_new = refl

few_top : select_max few_rows ≡ some 2
unfolding select_max max_work_id
few_top = refl

init_worker_id-fresh_example :
    (s : Started) × (init_worker_id no_fault 10 seq0 few_rows ≡ ret s)
    × (s.failed ≡ false)
    × (s.seq ≡ record seq0 { work_id = 2 + 1 })
    × In (record { work_id = 2 + 1; node = 10; stale = false }) s.rows
    × NewAmong (2 + 1) few_rows s.rows
init_worker_id-fresh_example =
    init_worker_id-fresh 10 2 seq0 few_rows few_new few_top (ground arith)

-- Work ids from `k` down to 1, of which the fifth is stale
abbrev full_rows : ℕ → List Row
full_rows zero = []
full_rows (suc k) = record { work_id = suc k; node = suc k; stale = suc k == 5 } ∷ full_rows k

full_new : select_self 0 (full_rows work_id_max) ≡ none
unfolding select_self
full_new = refl

full_top : select_max (full_rows work_id_max) ≡ some work_id_max
unfolding select_max max_work_id
full_top = refl

full_free : select_free (full_rows work_id_max) ≡ some 5
unfolding select_free max_work_id
full_free = refl

full_rows-all : (k id : ℕ) → 1 ≤ id → id ≤ k → (r : Row) × In r (full_rows k) × (r.work_id ≡ id)
full_rows-all zero id h l = absurd (omega arith)
full_rows-all (suc k) id h l = elim (ℕ_discrete id (suc k)) [
  | yes e ↦ (_, inl refl, sym e)
  | no n ↦ let (r, held, e) = full_rows-all k id h (omega arith) in (r, inr held, e)
]

find_work_id-takes_live_example :
    (find_work_id 0 (full_rows work_id_max) ≡ ret (5 + 1))
    × ((r : Row) × In r (full_rows work_id_max)
        × (r.work_id ≡ 5 + 1)
        × (r.stale ≡ false)
        × (r.node ≢ 0))
find_work_id-takes_live_example =
    find_work_id-takes_live 0 5 (full_rows work_id_max) full_new full_top full_free (ground arith)
      (full_rows-all work_id_max)
