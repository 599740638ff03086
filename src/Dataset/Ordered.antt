-- ===== src/Dataset/Ordered.antt =====
-- pkg/dataset/ordered.go: the rows of several ordered streams merged into one order. `less` is the
-- order that the queue has from its ORDER BY columns.
pub mod Totals
pub mod Refill
pub mod Merge
pub mod Steps
pub mod Pops
pub mod Order
mod Examples
use arana.Prelude.{ℕ, zero, suc, ◌+◌, ◌≡◌, Bool, true, false, Option, none, some, if◌then◌else◌}
use arana.Dataset.Streams.{Outcome, ok, fault, Answer, row, eof, failed, pending}
use arana.Dataset.Queue.{Slots, queue_push, heap_push, heap_pop}
use arana.Dataset.Parallel.{Parallel, parallel_next, set_next_n}

pub record RowItem (R : Type 0) : Type 0 where
  pub item_row : R
  pub stream_idx : ℕ

pub record Ordered (E R S : Type 0) : Type 0 where
  pub sources : Parallel E S
  pub queue : Slots (RowItem R)
  pub first_row : Bool

-- Less on the rows of two items
abbrev pub less_item : {R : Type 0} → (R → R → Bool) → RowItem R → RowItem R → Bool
less_item less a b = less a.item_row b.item_row

-- SetNextN, whose error is dropped, and Next
pub next_of : {E R S : Type 0} → (S → Answer E R × S) → Parallel E S → ℕ → Answer E R × Parallel E S
next_of next pa i = elim (set_next_n pa i) [
  | none ↦ parallel_next next pa
  | some at_i ↦ parallel_next next at_i
]

module _ {E R S : Type 0} (next : S → Answer E R × S) (less : R → R → Bool) where
  -- One turn of the loop for the first row: the answer that stops it, or the row put on the queue
  fill_turn :
      (Ordered E R S → Option (Answer E R) × Ordered E R S)
      → Ordered E R S
      → ℕ
      → Answer E R × Parallel E S
      → Option (Answer E R) × Ordered E R S
  fill_turn rest o i (row r, pa) = rest (record {
    sources = pa;
    queue = queue_push (less_item less) o.queue (record { item_row = r; stream_idx = i });
    first_row = o.first_row;
  })
  fill_turn rest o i (eof, pa) = rest (record o { sources = pa })
  fill_turn rest o i (failed e, pa) = (some (failed e), record o { sources = pa })
  fill_turn rest o i (pending, pa) = (some pending, record o { sources = pa })

  -- The loop, of `n` turns from the stream `i` on
  pub fill : ℕ → ℕ → Ordered E R S → Option (Answer E R) × Ordered E R S
  fill zero i o = (none, o)
  fill (suc n) i o = fill_turn (fill n (suc i)) o i (next_of next o.sources i)

  -- The row of the item that was popped, behind the next row of its stream
  refill :
      RowItem R → Slots (RowItem R) → Bool → Answer E R × Parallel E S → Answer E R × Ordered E R S
  refill item queue first_row (row r, pa) = (
    row item.item_row,
    record {
      sources = pa;
      queue =
          heap_push (less_item less) queue (record { item_row = r; stream_idx = item.stream_idx });
      first_row = first_row;
    },
  )
  refill item queue first_row (eof, pa) =
      (row item.item_row, record { sources = pa; queue = queue; first_row = first_row })
  refill item queue first_row (failed e, pa) =
      (failed e, record { sources = pa; queue = queue; first_row = first_row })
  refill item queue first_row (pending, pa) =
      (pending, record { sources = pa; queue = queue; first_row = first_row })

  pub pop_next : Ordered E R S → Answer E R × Ordered E R S
  pop_next o = elim (heap_pop (less_item less) o.queue) [
    | none ↦ (eof, o)
    | some (item, queue) ↦ refill item queue o.first_row (next_of next o.sources item.stream_idx)
  ]

  pub filled : Option (Answer E R) × Ordered E R S → Answer E R × Ordered E R S
  filled (none, o) = pop_next o
  filled (some a, o) = (a, o)

  -- orderedDataset.Next
  pub ordered_next : Ordered E R S → Answer E R × Ordered E R S
  ordered_next o =
      if o.first_row
      then filled (fill o.sources.len 0 (record o { first_row = false }))
      else pop_next o

-- NewOrderedDataset; heap.Init of an empty queue does nothing.
pub new_ordered : {E R S : Type 0} → Parallel E S → (ℕ → RowItem R) → Ordered E R S
new_ordered pa at = record { sources = pa; queue = record { len = 0; at = at }; first_row = true }
