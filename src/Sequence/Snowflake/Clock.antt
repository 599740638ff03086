-- ===== src/Sequence/Snowflake/Clock.antt =====
-- The numbers of one generator grow, as long as its clock does not go back.
use mathlib.Core.Option
use arana.Prelude.{
  subst, ◌<◌, ℕ, zero, suc, ◌+◌, ◌-◌, ◌^◌, ◌≤◌, ◌≡◌, ◌⊎◌, refl, inl, inr, List, [], ◌∷◌, Option,
  none, some, arith, bit_and, leb, ◌==◌, Bool-cases, Option-cases,
}
use arana.Prelude.Bits.{bit_and-mask}
use arana.Sequence.Snowflake.{
  Snowflake, Acquired, compose, flip, acquire, acquire_many, wait_until_after, returned, stamp,
  step_mask,
}
use arana.Sequence.Snowflake.Ids.{InRange, compose-sum}

-- A clock that is never behind `lo`, does not go back, and stays below the time, 2 ^ 41, from which
-- on the number that is made of it is negative
abbrev pub Ascending : ℕ → List ℕ → Type 0
Ascending lo [] = Unit
Ascending lo (t ∷ ts) = (lo ≤ t) × (t < 2 ^ 41) × Ascending t ts

-- Strictly increasing as int64: none of the numbers is negative.
abbrev pub Increasing : ℕ → List ℕ → Type 0
Increasing lo [] = Unit
Increasing lo (x ∷ xs) = (lo < x) × (x < 2 ^ 63) × Increasing x xs

-- Between two calls of Acquire
pub record IsValid (seq : Snowflake) : Type 0 where
  pub fields : InRange seq.last_time seq.work_id seq.step
  pub early : seq.last_time < 2 ^ 41
  pub offset : seq.seq_offset ≤ 1
  pub current : seq.current_val ≤ compose seq.last_time seq.work_id seq.step

flip-le : (x : ℕ) → flip x ≤ 1
unfolding flip
flip-le x = omega (arith, bit_and-mask 1 (2 ^ 8 - 1 - x))

-- The wait ends behind `last`, at a time from which the rest of the clock goes on.
abbrev Waited : ℕ → Option (ℕ × List ℕ) → Type 0
Waited last none = Unit
Waited last (some (t, clock)) = (last < t) × (t < 2 ^ 41) × Ascending t clock

wait_until_after-Waited :
    (last t : ℕ) (clock : List ℕ)
    → t < 2 ^ 41
    → Ascending t clock
    → Waited last (wait_until_after last t clock)
unfolding wait_until_after
wait_until_after-Waited last t [] b asc = elim (Bool-cases (leb t last)) [
  | inl early ↦ rw early tt
  | inr late ↦ rw late (ground arith, b, tt)
]
wait_until_after-Waited last t (x ∷ xs) b asc = elim (Bool-cases (leb t last)) [
  | inl early ↦ rw early (wait_until_after-Waited last x xs asc.1 asc.2)
  | inr late ↦ rw late (ground arith, b, asc)
]

-- What an Acquire keeps of a valid generator with a good clock
record Follows (seq : Snowflake) (a : Acquired) : Type 0 where
  grows : seq.current_val < a.value
  small : a.value < 2 ^ 63
  kept : a.value ≡ a.after.current_val
  valid : IsValid a.after
  ascending : Ascending a.after.last_time a.clock

-- A number with a later time, or the same time and a larger step, is larger.
stamp-Follows :
    (seq next : Snowflake) (t : ℕ) (clock : List ℕ)
    → IsValid seq
    → next.work_id ≡ seq.work_id
    → next.seq_offset ≤ 1
    → next.step < 2 ^ 12
    → t < 2 ^ 41
    → (seq.last_time < t) ⊎ ((t ≡ seq.last_time) × (seq.step < next.step))
    → Ascending t clock
    → Follows seq (returned next (t, clock))
unfolding returned stamp
stamp-Follows seq next t clock v same offset step_fits time_fits later asc = record {
  grows = omega (
    arith,
    compose-sum seq.last_time seq.work_id seq.step v.fields,
    compose-sum t next.work_id next.step (omega arith),
  );
  small = omega (arith, compose-sum t next.work_id next.step (omega arith));
  kept = refl;
  valid = omega arith;
  ascending = asc;
}

abbrev FollowsIf : Snowflake → Option Acquired → Type 0
FollowsIf seq none = Unit
FollowsIf seq (some a) = Follows seq a

next_step :
    (step : ℕ)
    → step < 2 ^ 12
    → (bit_and (step + 1) step_mask ≡ 0) ⊎ (bit_and (step + 1) step_mask ≡ step + 1)
next_step step h = omega (arith, bit_and-mask 12 (step + 1))

Waited-FollowsIf :
    (seq next : Snowflake) (w : Option (ℕ × List ℕ))
    → IsValid seq
    → next.work_id ≡ seq.work_id
    → next.seq_offset ≤ 1
    → next.step < 2 ^ 12
    → Waited seq.last_time w
    → FollowsIf seq (Option.map (returned next) w)
Waited-FollowsIf seq next none v same offset step_fits h = tt
Waited-FollowsIf seq next (some (t, clock)) v same offset step_fits h =
    stamp-Follows seq next t clock v same offset step_fits h.1 (inl h.0) h.2

acquire-FollowsIf :
    (seq : Snowflake) (clock : List ℕ)
    → IsValid seq
    → Ascending seq.last_time clock
    → FollowsIf seq (acquire seq clock)
unfolding acquire
acquire-FollowsIf seq [] v asc = tt
acquire-FollowsIf seq (t ∷ clock) v asc =
    let next = bit_and (seq.step + 1) step_mask in
    let offset = flip seq.seq_offset in
    elim (Bool-cases (t == seq.last_time)) [
      | inl same ↦ elim (Bool-cases (next == 0)) [
        | inl full ↦
            rw (same, full)
              (Waited-FollowsIf seq (record seq { step = next }) _ v refl (v.offset) (ground arith)
                (wait_until_after-Waited seq.last_time t clock asc.1 asc.2))
        | inr room ↦
            rw (same, room)
              (stamp-Follows seq (record seq { step = next }) t clock v refl v.offset
                (omega (arith, bit_and-mask 12 (seq.step + 1))) asc.1
                (inr (ground arith, ground (arith, next_step seq.step v.fields.step_fits))) asc.2)
      ]
      | inr other ↦ rw other (
          stamp-Follows seq (record seq { seq_offset = offset; step = offset }) t clock v refl
            (flip-le seq.seq_offset) (omega (arith, flip-le seq.seq_offset)) asc.1
            (inl (ground (arith, asc.0))) asc.2)
    ]

abbrev IncreasingIf : ℕ → Option (List ℕ) → Type 0
IncreasingIf lo none = Unit
IncreasingIf lo (some ids) = Increasing lo ids

cons-IncreasingIf :
    (lo x : ℕ) (rest : Option (List ℕ))
    → lo < x
    → x < 2 ^ 63
    → IncreasingIf x rest
    → IncreasingIf lo (Option.map (λ ids. x ∷ ids) rest)
cons-IncreasingIf lo x none h small r = tt
cons-IncreasingIf lo x (some ids) h small r = (h, small, r)

acquire_many-IncreasingIf :
    (n : ℕ) (seq : Snowflake) (clock : List ℕ)
    → IsValid seq
    → Ascending seq.last_time clock
    → IncreasingIf seq.current_val (acquire_many n seq clock)
unfolding acquire_many
acquire_many-IncreasingIf zero seq clock v asc = tt
acquire_many-IncreasingIf (suc n) seq clock v asc = elim (Option-cases (acquire seq clock)) [
  | inl none_left ↦ rw (none_left, acquire_many) tt
  | inr (a, e) ↦
      let f : Follows seq a = subst (FollowsIf seq) e (acquire-FollowsIf seq clock v asc) in
      let rest : IncreasingIf a.value (acquire_many n a.after a.clock) =
        rw f.kept (acquire_many-IncreasingIf n a.after a.clock f.valid f.ascending) in
      rw (e, acquire_many) (cons-IncreasingIf seq.current_val a.value _ f.grows f.small rest)
]

-- The numbers that one generator returns, however many, whose fields are in range and whose work id
-- is below 1024, are strictly increasing int64, and so never repeat, if its clock does not go back and stays below 2 ^ 41: within
-- a millisecond, across the wait that a full step counter causes, and from one millisecond to the
-- next.
pub acquire_many-Increasing :
    (n : ℕ) (seq : Snowflake) (clock ids : List ℕ)
    → IsValid seq
    → Ascending seq.last_time clock
    → acquire_many n seq clock ≡ some ids
    → Increasing seq.current_val ids
acquire_many-Increasing n seq clock ids v asc e =
    subst (IncreasingIf seq.current_val) e (acquire_many-IncreasingIf n seq clock v asc)

-- Some stamp of the clock is later.
abbrev pub Passes : ℕ → List ℕ → Type 0
Passes last [] = ⊥
Passes last (t ∷ ts) = (last < t) ⊎ Passes last ts

wait_until_after-total :
    (last t : ℕ) (clock : List ℕ)
    → Passes last (t ∷ clock)
    → (w : ℕ × List ℕ) × (wait_until_after last t clock ≡ some w)
unfolding wait_until_after
wait_until_after-total last t [] (inl h) = ((t, []), ground arith)
wait_until_after-total last t [] (inr h) = absurd h
wait_until_after-total last t (x ∷ xs) (inl h) = ((t, x ∷ xs), ground arith)
wait_until_after-total last t (x ∷ xs) (inr h) = elim (Bool-cases (leb t last)) [
  | inl early ↦ rw early (wait_until_after-total last x xs h)
  | inr late ↦ ((t, x ∷ xs), rw late)
]

-- Acquire returns, its wait included, as soon as the clock shows a time after the last one; the
-- number is made of the time and step that the generator then holds.
pub acquire_total :
    (seq : Snowflake) (clock : List ℕ)
    → Passes seq.last_time clock
    → (a : Acquired) × (acquire seq clock ≡ some a)
      × (a.value ≡ compose a.after.last_time seq.work_id a.after.step)
unfolding acquire returned stamp
acquire_total seq [] h = absurd h
acquire_total seq (t ∷ clock) h =
    let next = bit_and (seq.step + 1) step_mask in
    let offset = flip seq.seq_offset in
    let turned = record seq { step = next } in
    let fresh = record seq { seq_offset = offset; step = offset } in
    elim (Bool-cases (t == seq.last_time)) [
      | inl same ↦ elim (Bool-cases (next == 0)) [
        | inl full ↦
            let (w, e) = wait_until_after-total seq.last_time t clock h in
            (returned turned w, rw (same, full, e), refl)
        | inr room ↦ (returned turned (t, clock), rw (same, room), refl)
      ]
      | inr other ↦ (returned fresh (t, clock), rw other, refl)
    ]
