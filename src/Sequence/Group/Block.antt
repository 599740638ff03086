-- ===== src/Sequence/Group/Block.antt =====
-- The group that a generator opens, and the one that the row stands for.
use native.Mathlib.Nat.{mod-add-div, div-le_self}
use arana.Prelude.{ℕ, ◌+◌, ◌-◌, ◌*◌, ◌/◌, ◌%◌, ◌^◌, ◌≤◌, ◌<◌, ◌≡◌, ◌↔◌, refl, arith}
use arana.Sequence.Words.{add64-small, sub64-small, mul64-small, div64-small}
use arana.Sequence.Group.{Group, next_start, open_group}

above_multiple : (q step : ℕ) → 0 < step → (q * step + 1) % step ≤ 1
above_multiple q step h = grind arith

-- Nothing wraps around where the row's group ends below the largest int64.
pub next_start-small :
    (last step : ℕ)
    → 0 < step
    → last + step + 1 < 2 ^ 63
    → next_start last step ≡ (last / step + 1) * step + 1
unfolding next_start
next_start-small last step pos room =
    let split = mod-add-div last step in
    let quotient : last / step ≤ last = div-le_self last step in
    let next : (last / step + 1) * step ≤ last + step = grind (arith, split) in
    rw
      (
        div64-small last step (omega arith) (omega arith),
        add64-small (last / step) 1 (omega (arith, quotient)),
        mul64-small (last / step + 1) step (omega (arith, next)),
        add64-small ((last / step + 1) * step) 1 (omega (arith, next)),
      )
      refl

-- The generator that has opened the group at `start`
abbrev pub group_at : Group → ℕ → Group
group_at seq start = record seq {
  current_val = start;
  current_group_max_val = start + seq.step - 1;
}

pub open_group-small :
    (seq : Group) (start : ℕ)
    → 0 < seq.step
    → start + seq.step < 2 ^ 63
    → open_group seq start ≡ group_at seq start
unfolding open_group
open_group-small seq start pos room =
    rw (add64-small start seq.step room, sub64-small (start + seq.step) 1 (omega arith) room) refl

-- For values and steps that are positive and stay below the largest int64, a group of `step` numbers
-- begins behind the row's group exactly if the row's value is at most 1 above a multiple of the step.
pub next_start-disjoint_iff :
    (last step : ℕ)
    → 0 < step
    → last + step + 1 < 2 ^ 63
    → (last + step ≤ next_start last step) ↔ (last % step ≤ 1)
next_start-disjoint_iff last step h room =
    let split = mod-add-div last step in
    let small = next_start-small last step h room in
    (λ far. omega (arith, split, small), λ near. omega (arith, split, small))

-- The new value is again 1 above a multiple, so that every later group is behind this one too.
pub next_start-residue :
    (last step : ℕ) → 0 < step → last + step + 1 < 2 ^ 63 → next_start last step % step ≤ 1
next_start-residue last step h room =
    rw (next_start-small last step h room) (above_multiple (last / step + 1) step h)

pub next_start-reach :
    (last step : ℕ) → 0 < step → last + step + 1 < 2 ^ 63 → next_start last step ≤ last + step + 1
next_start-reach last step h room =
    omega (arith, mod-add-div last step, next_start-small last step h room)
