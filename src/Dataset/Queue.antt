-- ===== src/Dataset/Queue.antt =====
-- pkg/dataset/priority_queue.go, on the heap of Go's container/heap: a slice of length `len`, whose
-- element `at k` stands at the index `k` below it.
pub mod Counting
pub mod Keys
pub mod Up
pub mod Down
pub mod Sift
pub mod Minimum
mod Examples
use arana.Prelude.{
  ℕ, zero, suc, ◌+◌, ◌-◌, ◌*◌, ◌/◌, ◌≡◌, Bool, true, false, not, ◌&&◌, ◌||◌, Option, none, some,
  List, [], ◌∷◌, ◌==◌, ltb, leb, if◌then◌else◌,
}

pub record Slots (A : Type 0) : Type 0 where
  pub len : ℕ
  pub at : ℕ → A

abbrev pub swapped : {A : Type 0} → (ℕ → A) → ℕ → ℕ → ℕ → A
swapped at i j k = if k == i then at j else if k == j then at i else at k

module _ {A : Type 0} where
  -- PriorityQueue.Swap
  pub swap : Slots A → ℕ → ℕ → Slots A
  swap q i j = record q { at = swapped q.at i j }

  -- The tests of PriorityQueue.Less on the indexes, and the order of the rows there
  pub less_at : (A → A → Bool) → Slots A → ℕ → ℕ → Bool
  less_at less q i j = if leb q.len i || leb q.len j then false else less (q.at i) (q.at j)

  -- up of container/heap; (j - 1) / 2 is 0 where j is 0.
  pub up : (A → A → Bool) → ℕ → Slots A → ℕ → Slots A
  up less zero q j = q
  up less (suc fuel) q j =
      let i = (j - 1) / 2 in
      let rest = up less fuel (swap q i j) i in
      if i == j || not (less_at less q j i) then q else rest

  -- The smaller child of i, where there is one below n
  pub child : (A → A → Bool) → Slots A → ℕ → ℕ → ℕ
  child less q n i =
      let j1 = 2 * i + 1 in if ltb (j1 + 1) n && less_at less q (j1 + 1) j1 then j1 + 1 else j1

  -- down of container/heap, with the index at which it stops
  pub down : (A → A → Bool) → ℕ → Slots A → ℕ → ℕ → Slots A × ℕ
  down less zero q n i = (q, i)
  down less (suc fuel) q n i =
      let j = child less q n i in
      let rest = down less fuel (swap q i j) n j in
      if leb n (2 * i + 1) then (q, i) else if not (less_at less q j i) then (q, i) else rest

  -- heap.Fix
  fix_from : (A → A → Bool) → ℕ → Slots A × ℕ → Slots A
  fix_from less i0 (q, i) = if ltb i0 i then q else up less i0 q i0

  fix : (A → A → Bool) → Slots A → ℕ → Slots A
  fix less q i0 = fix_from less i0 (down less q.len q q.len i0)

  -- PriorityQueue.Push: append, and update
  append : Slots A → A → Slots A
  append q x = record { len = suc q.len; at = λ k. if k == q.len then x else q.at k }

  pub queue_push : (A → A → Bool) → Slots A → A → Slots A
  queue_push less q x = fix less (append q x) q.len

  -- heap.Push: PriorityQueue.Push, and up again
  pub heap_push : (A → A → Bool) → Slots A → A → Slots A
  heap_push less q x =
      let pushed = queue_push less q x in up less (pushed.len - 1) pushed (pushed.len - 1)

  -- PriorityQueue.Pop
  queue_pop : Slots A → Option (A × Slots A)
  queue_pop q = if q.len == 0 then none else some (q.at (q.len - 1), record q { len = q.len - 1 })

  -- heap.Pop of a queue that is not empty
  pub heap_pop : (A → A → Bool) → Slots A → Option (A × Slots A)
  heap_pop less q = let n = q.len - 1 in queue_pop (down less n (swap q 0 n) n 0).0
