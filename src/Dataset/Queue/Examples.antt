-- ===== src/Dataset/Queue/Examples.antt =====
-- A nil value in a descending order, and a queue of three numbers.
use Prim.Native.Nat.{compare, Ordering}
use arana.Prelude.{ℕ, ◌≡◌, refl, true, none, some, ltb}
use arana.Dataset.Queue.{
  Slots, queue_push, heap_push, fix, fix_from, append, up, down, child, less_at, swap,
}
use arana.Dataset.Queue.Keys.{compare_to}

-- Descending or not, the nil value comes first.
nil_first : compare_to compare none (some 1) true ≡ Ordering.lt
unfolding compare_to
nil_first = refl

abbrev empty : Slots ℕ
empty = record { len = 0; at = λ k. 0 }

abbrev numbers : Slots ℕ
numbers = heap_push ltb (heap_push ltb (queue_push ltb empty 7) 9) 4

least_first : (numbers.at 0 ≡ 4)
unfolding heap_push queue_push fix fix_from append up down child less_at swap
least_first = refl
