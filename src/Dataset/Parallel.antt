-- ===== src/Dataset/Parallel.antt =====
-- pkg/dataset/parallel.go: data sets side by side, from which rows are taken in turn. `S` is the
-- type of the streams (peekableDataset), `next` their Next; a stream that was not used yet is a
-- generator. Calls are one after the other here, which the locks see to.
pub mod Turn
pub mod Peek
mod Examples
use arana.Prelude.{
  ℕ, zero, suc, ◌+◌, ◌-◌, ◌%◌, ◌^◌, ◌≡◌, Bool, true, false, Option, none, some, List, [], ◌∷◌, leb,
  if◌then◌else◌, length,
}
use arana.Dataset.Streams.{Outcome, ok, fault, Answer, row, eof, failed, pending}
use arana.Dataset.Queue.Counting.{updated}

pub data Source (E S : Type 0) : Type 0 where
  opened : S → Source E S
  generator : Outcome E S → Source E S

pub record Parallel (E S : Type 0) : Type 0 where
  pub len : ℕ
  pub streams : ℕ → Source E S
  pub seq : ℕ

module _ {E S : Type 0} where
  set_stream : Parallel E S → ℕ → S → Parallel E S
  set_stream pa i s = record pa { streams = updated pa.streams i (opened s) }

  -- (pa.seq.Inc() - 1) % uint32(pa.Len())
  stream_index : Parallel E S → ℕ
  stream_index pa = pa.seq % pa.len

  advance : Parallel E S → Parallel E S
  advance pa = record pa { seq = (pa.seq + 1) % 2 ^ 32 }

module _ {E R S : Type 0} where
  -- getStream, and what its caller does with the stream
  with_stream :
      Source E S → Parallel E S → (S → Answer E R × Parallel E S) → Answer E R × Parallel E S
  with_stream (opened s) pa use_it = use_it s
  with_stream (generator (ok s)) pa use_it = use_it s
  with_stream (generator (fault e)) pa use_it = (failed e, pa)

  -- One turn of the loop of Next: a stream at its end is passed over.
  take_turn :
      (Parallel E S → Answer E R × Parallel E S)
      → Parallel E S
      → ℕ
      → Answer E R × S
      → Answer E R × Parallel E S
  take_turn rest pa i (row r, s) = (row r, set_stream pa i s)
  take_turn rest pa i (eof, s) = rest (set_stream pa i s)
  take_turn rest pa i (failed e, s) = (failed e, set_stream pa i s)
  take_turn rest pa i (pending, s) = (pending, set_stream pa i s)

  next_loop : (S → Answer E R × S) → ℕ → Parallel E S → Answer E R × Parallel E S
  next_loop next zero pa = (eof, pa)
  next_loop next (suc j) pa =
      let i = stream_index pa in
      with_stream (pa.streams i) (advance pa)
        (λ s. take_turn (next_loop next j) (advance pa) i (next s))

  -- parallelDataset.Next, of a stream at least
  pub parallel_next : (S → Answer E R × S) → Parallel E S → Answer E R × Parallel E S
  parallel_next next pa = next_loop next pa.len pa

module _ {E S : Type 0} where
  -- SetNextN, of an index from 0 on; `none` is the error.
  unfoldable pub set_next_n : Parallel E S → ℕ → Option (Parallel E S)
  set_next_n pa index = if leb pa.len index then none else some (record pa { seq = index })

  -- Parallel, of generators that are not nil
  unfoldable pub generators_from : List (Outcome E S) → ℕ → Source E S → Source E S
  generators_from [] i last = last
  generators_from (g ∷ gs) zero last = generator g
  generators_from (g ∷ gs) (suc i) last = generators_from gs i last

  unfoldable pub streams_of : S → List (Outcome E S) → ℕ → Source E S
  streams_of s others zero = opened s
  streams_of s others (suc i) = generators_from others i (opened s)

  -- FuseableDataset.ToParallel, and Parallel behind its first generator's call
  unfoldable pub to_parallel : S → List (Outcome E S) → Parallel E S
  to_parallel s others = record {
    len = suc (length others);
    streams = streams_of s others;
    seq = 0;
  }

-- parallelBuilder.Build; a generator that is nil is `none`, and `no_dataset` and `nil_dataset` are
-- the errors that it makes up.
unfoldable pub all_given :
    {E S : Type 0} → List (Option (Outcome E S)) → Option (List (Outcome E S))
all_given [] = some []
all_given (none ∷ gs) = none
all_given (some g ∷ gs) = elim (all_given gs) [ none ↦ none | some rest ↦ some (g ∷ rest) ]

unfoldable pub parallel_of :
    {E S : Type 0}
    → E
    → Option (Outcome E S)
    → List (Option (Outcome E S))
    → Outcome E (Parallel E S)
parallel_of nil_dataset none others = fault nil_dataset
parallel_of nil_dataset (some (fault e)) others = fault e
parallel_of nil_dataset (some (ok s)) others = elim (all_given others) [
  | none ↦ fault nil_dataset
  | some gs ↦ ok (to_parallel s gs)
]

unfoldable pub build :
    {E S : Type 0} → E → E → List (Option (Outcome E S)) → Outcome E (Parallel E S)
build no_dataset nil_dataset [] = fault no_dataset
build no_dataset nil_dataset (g ∷ []) = parallel_of nil_dataset g (none ∷ [])
build no_dataset nil_dataset (g ∷ h ∷ gs) = parallel_of nil_dataset g (h ∷ gs)
