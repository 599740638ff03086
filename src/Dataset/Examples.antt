-- ===== src/Dataset/Examples.antt =====
-- Data sets over a few rows: filtered, changed and put one after the other.
use arana.Prelude.{
  ℕ, ◌+◌, ◌≡◌, refl, arith, Option, none, some, String, List, [], ◌∷◌, ltb, if◌then◌else◌,
}
use arana.Dataset.Streams.{Outcome, ok, fault, Dataset, at_eof, at_fault, Yields, Runs}
use arana.Dataset.Filter.{virtual_next, virtual_next-Yields, virtual_dataset, virtual_dataset-Runs}
use arana.Dataset.Fuse.{Fused, fuse, fuse_next, fuse_close, fuse-joined}
use arana.Dataset.Pipe.{Stage, keep, change, options_of, pipe, pipe-Runs}

abbrev rows : List ℕ
rows = 1 ∷ 5 ∷ 9 ∷ 3 ∷ []

abbrev source : Dataset String String ℕ
source = virtual_dataset {E = String} ("n" ∷ []) rows

-- Rows above 2, one added to each below 8, and of those the ones above 4
abbrev small_only : ℕ → Outcome String ℕ
small_only n = if ltb n 8 then ok (n + 1) else fault "too large"

abbrev stages : List (Stage String String ℕ)
stages =
    keep (some λ n. ltb 2 n)
    ∷ change none (some small_only)
    ∷ change none none
    ∷ keep (some λ n. ltb 4 n)
    ∷ []

pipe-Runs_example : Runs (pipe source (options_of 5 stages)) (6 ∷ []) (at_fault "too large")
pipe-Runs_example =
    pipe-Runs 5 stages source rows at_eof (omega arith)
      (virtual_dataset-Runs String ("n" ∷ []) rows)

abbrev close_fine : List ℕ → Option String × List ℕ
close_fine s = (none, s)

abbrev fields_of : List ℕ → Outcome String (List String)
fields_of s = ok ("n" ∷ [])

fuse-joined_example :
    (fu : Fused String String (List ℕ)) × (fuse fields_of
        (ok (1 ∷ []))
        (ok (2 ∷ 3 ∷ []) ∷ fault "gone" ∷ ok (4 ∷ []) ∷ [])
      ≡ ok fu)
    × Yields (fuse_next virtual_next close_fine) fu (1 ∷ 2 ∷ 3 ∷ []) (at_fault "gone")
fuse-joined_example =
    fuse-joined virtual_next close_fine fields_of (1 ∷ []) ("n" ∷ []) (1 ∷ []) at_eof
      (ok (2 ∷ 3 ∷ []) ∷ fault "gone" ∷ ok (4 ∷ []) ∷ [])
      ((2 ∷ 3 ∷ [], at_eof) ∷ ([], at_fault "gone") ∷ (4 ∷ [], at_eof) ∷ []) (λ t. refl) refl
      (virtual_next-Yields String (1 ∷ []))
      (virtual_next-Yields String (2 ∷ 3 ∷ []), (refl, (virtual_next-Yields String (4 ∷ []), tt)))

abbrev used_up : Fused String String (List ℕ)
used_up = record { columns = "n" ∷ []; current = none; generators = [] }

-- Close of a data set whose generators are used up does nothing.
close_ended : fuse_close close_fine used_up ≡ (none, used_up)
unfolding fuse_close
close_ended = refl
