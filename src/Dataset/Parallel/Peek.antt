-- ===== src/Dataset/Parallel/Peek.antt =====
-- pkg/dataset/parallel.go, peekableDataset: a row that Peek has read is what Next gives.
use arana.Prelude.{◌≡◌, refl, Option, none, some, Option-cases, inl, inr}
use arana.Dataset.Streams.{Answer}

-- `held` is what Peek has read and Next has not given yet: the row, or the error.
pub record Peekable (E R S : Type 0) : Type 0 where
  pub inner : S
  pub held : Option (Answer E R)

module _ {E R S : Type 0} (next : S → Answer E R × S) where
  -- peekableDataset.Next
  pub peekable_next : Peekable E R S → Answer E R × Peekable E R S
  peekable_next pe = elim pe.held [
    | some a ↦ (a, record pe { held = none })
    | none ↦ let (a, s) = next pe.inner in (a, record { inner = s; held = none })
  ]

  -- peekableDataset.Peek
  pub peek : Peekable E R S → Answer E R × Peekable E R S
  peek pe = elim pe.held [
    | some a ↦ (a, pe)
    | none ↦ let (a, s) = next pe.inner in (a, record { inner = s; held = some a })
  ]

  -- A peek, and any further one, tells what Next gives, and Next goes on as without it.
  pub peekable_next-peek :
      (pe : Peekable E R S)
      → ((peek pe).0 ≡ (peekable_next pe).0)
        × (peek (peek pe).1 ≡ peek pe)
        × (peekable_next (peek pe).1 ≡ peekable_next pe)
  unfolding peek peekable_next
  peekable_next-peek pe = elim (Option-cases pe.held) [
    | inl e ↦ rw (e) (refl, refl, refl)
    | inr (a, e) ↦ rw (e) (refl, refl, refl)
  ]
