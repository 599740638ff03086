-- ===== src/Dataset/Filter.antt =====
-- pkg/dataset/virtual.go and filter.go (FilterDataset): a data set over rows in memory, and one that
-- drops rows of another.
use arana.Prelude.{
  ℕ, zero, suc, ◌<◌, ◌≡◌, refl, arith, Bool, true, false, Option, none, some, List, [],
  if◌then◌else◌, ◌∷◌, length, Bool-cases, inl, inr,
}
use arana.Dataset.Streams.{
  ok, Answer, row, eof, failed, pending, Dataset, End, at_eof, at_fault, end_answer, Yields, Then,
  Then-Yields, Runs,
}

-- VirtualDataset.Next: the first of the rows is given and dropped.
unfoldable pub virtual_next : {E R : Type 0} → List R → Answer E R × List R
virtual_next [] = (eof, [])
virtual_next (next ∷ rest) = (row next, rest)

unfoldable pub virtual_dataset : {E F R : Type 0} → List F → List R → Dataset E F R
virtual_dataset {R = R} columns rows = record {
  State = List R;
  state = rows;
  next = virtual_next;
  close = λ s. (none, s);
  fields = ok columns;
}

pub virtual_next-Yields :
    (E : Type 0) {R : Type 0} (l : List R) → Yields (virtual_next {E = E}) l l at_eof
unfolding virtual_next
virtual_next-Yields E [] = refl
virtual_next-Yields E (r ∷ l) = (refl, virtual_next-Yields E l)

pub virtual_dataset-Runs :
    (E : Type 0) {F R : Type 0} (columns : List F) (l : List R)
    → Runs (virtual_dataset {E = E} columns l) l at_eof
unfolding virtual_dataset
virtual_dataset-Runs E columns l = virtual_next-Yields E l

abbrev pub filter : {R : Type 0} → (R → Bool) → List R → List R
filter p [] = []
filter p (r ∷ l) = let rest = filter p l in if p r then r ∷ rest else rest

module _ {E R S : Type 0} where
  -- A row that the predicate refuses is dropped, and Next calls itself.
  keep_or : (R → Bool) → (S → Answer E R × S) → Answer E R × S → Answer E R × S
  keep_or p again (row r, s) = elim (p r) [ true ↦ (row r, s) | false ↦ again s ]
  keep_or p again (eof, s) = (eof, s)
  keep_or p again (failed e, s) = (failed e, s)
  keep_or p again (pending, s) = (pending, s)

  filter_loop : (R → Bool) → (S → Answer E R × S) → ℕ → S → Answer E R × S
  filter_loop p next zero s = (pending, s)
  filter_loop p next (suc fuel) s = keep_or p (filter_loop p next fuel) (next s)

  filter_next : Option (R → Bool) → (S → Answer E R × S) → ℕ → S → Answer E R × S
  filter_next none next fuel s = next s
  filter_next (some p) next fuel s = filter_loop p next fuel s

  keep_or-end :
      (p : R → Bool) (again : S → Answer E R × S) (q : Answer E R × S) (e : End E)
      → q.0 ≡ end_answer e
      → (keep_or p again q).0 ≡ end_answer e
  unfolding keep_or
  keep_or-end p again (a, s) at_eof h = rw (h) refl
  keep_or-end p again (a, s) (at_fault e) h = rw (h) refl

  keep_or-row :
      (p : R → Bool) (again : S → Answer E R × S) (q : Answer E R × S) (r : R)
      → q.0 ≡ row r
      → keep_or p again q ≡ (if p r then q else again q.1)
  unfolding keep_or
  keep_or-row p again (a, s) r h = elim (Bool-cases (p r)) [
    | inl t ↦ rw (h, keep_or, t) refl
    | inr f ↦ rw (h, keep_or, f) refl
  ]

  filter_loop-Then :
      (p : R → Bool) (next : S → Answer E R × S) (fuel n : ℕ) (l : List R) (s : S) (e : End E)
      → length l < fuel
      → length l < n
      → Yields next s l e
      → Then (λ t. filter_loop p next fuel t) (filter_loop p next n s) (filter p l) e
  unfolding filter_loop
  filter_loop-Then p next fuel zero l s e big enough h = absurd (omega (arith, enough))
  filter_loop-Then p next fuel (suc n) [] s e big enough h =
      keep_or-end p (filter_loop p next n) (next s) e h
  filter_loop-Then p next fuel (suc n) (r ∷ l) s e big enough h = elim (Bool-cases (p r)) [
    | inl t ↦
        rw (keep_or-row p (filter_loop p next n) (next s) r h.0, t)
          (
            h.0,
            Then-Yields (filter_loop p next fuel) (next s).1 (filter p l) e (
                filter_loop-Then p next fuel fuel l (next s).1 e (omega (arith, big))
                  (omega (arith, big)) h.1),
          )
    | inr f ↦
        rw (keep_or-row p (filter_loop p next n) (next s) r h.0, f)
          (filter_loop-Then p next fuel n l (next s).1 e (omega (arith, big))
            (omega (arith, enough)) h.1)
  ]

pub filter_dataset : {E F R : Type 0} → ℕ → Option (R → Bool) → Dataset E F R → Dataset E F R
filter_dataset fuel p d = record d { next = filter_next p d.next fuel }

-- FilterDataset over a data set whose rows are `l`, with fuel of more than their number
pub filter_dataset-Runs :
    {E F R : Type 0} (p : R → Bool) (d : Dataset E F R) (l : List R) (e : End E) (fuel : ℕ)
    → length l < fuel
    → Runs d l e
    → Runs (filter_dataset fuel (some p) d) (filter p l) e
unfolding filter_dataset filter_next
filter_dataset-Runs p d l e fuel big h =
    Then-Yields (filter_loop p d.next fuel) d.state (filter p l) e
      (filter_loop-Then p d.next fuel fuel l d.state e big big h)

filter_next-nil :
    {E R S : Type 0} (fuel : ℕ) (next : S → Answer E R × S) (s : S) (l : List R) (e : End E)
    → Yields next s l e
    → Yields (filter_next none next fuel) s l e
unfolding filter_next
filter_next-nil fuel next s l e h = h

-- FilterDataset without a predicate
pub filter_dataset-nil :
    {E F R : Type 0} (fuel : ℕ) (d : Dataset E F R) (l : List R) (e : End E)
    → Runs d l e
    → Runs (filter_dataset fuel none d) l e
unfolding filter_dataset
filter_dataset-nil fuel d l e h = filter_next-nil fuel d.next d.state l e h
