-- ===== src/Dataset/Ordered/Examples.antt =====
-- Three streams of numbers merged in descending order.
use Prim.Native.Nat.{compare}
use arana.Prelude.{
  ℕ, zero, suc, ◌<◌, ◌≡◌, refl, arith, Bool, true, Option, some, String, List, [], ◌∷◌,
}
use arana.Dataset.Streams.{ok, row, eof, at_eof, Yields}
use arana.Dataset.Filter.{virtual_next}
use arana.Dataset.Queue.Keys.{
  OrderByItem, Flips, Chains, less_row, compare_rows, compare_to, unless_equal,
}
use arana.Dataset.Parallel.{Parallel, streams_of, generators_from}
use arana.Dataset.Parallel.Turn.{SourceHolds}
use arana.Dataset.Ordered.{RowItem, new_ordered, ordered_next}
use arana.Dataset.Ordered.Totals.{IsSorted, count_list, total}
use arana.Dataset.Ordered.Order.{ordered_next-merges}

-- The one column, and the order of it
abbrev get_n : ℕ → String → Option ℕ
get_n r column = some r

abbrev descending : List OrderByItem
descending = record { column = "n"; desc = true } ∷ []

abbrev three : Parallel String (List ℕ)
three = record {
  len = 3;
  streams = streams_of (8 ∷ 3 ∷ []) (ok [] ∷ ok (9 ∷ 5 ∷ []) ∷ []);
  seq = 0;
}

abbrev rests_of : ℕ → List ℕ
rests_of zero = 8 ∷ 3 ∷ []
rests_of (suc zero) = []
rests_of (suc (suc k)) = 9 ∷ 5 ∷ []

abbrev unused : ℕ → RowItem ℕ
unused k = record { item_row = 0; stream_idx = 0 }

abbrev IsLeft : List ℕ → List ℕ → Type 0
IsLeft s l = s ≡ l

virtual-gives :
    (s : List ℕ) (r : ℕ) (l : List ℕ)
    → IsLeft s (r ∷ l)
    → ((virtual_next {E = String} s).0 ≡ row r) × IsLeft (virtual_next {E = String} s).1 l
unfolding virtual_next
virtual-gives s r l h = rw (h) (refl, refl)

virtual-ends :
    (s : List ℕ)
    → IsLeft s []
    → ((virtual_next {E = String} s).0 ≡ eof) × IsLeft (virtual_next {E = String} s).1 []
unfolding virtual_next
virtual-ends s h = rw (h) (refl, refl)

compare-Flips : Flips compare
compare-Flips a b = ground arith

compare-Chains : Chains compare
compare-Chains x y z h k = ground arith

three-hold :
    (k : ℕ)
    → k < 3
    → SourceHolds virtual_next IsLeft virtual-gives virtual-ends
        (streams_of (8 ∷ 3 ∷ []) (ok [] ∷ ok (9 ∷ 5 ∷ []) ∷ []) k)
        (rests_of k)
unfolding streams_of generators_from SourceHolds
three-hold zero h = refl
three-hold (suc zero) h = refl
three-hold (suc (suc zero)) h = refl
three-hold (suc (suc (suc k))) h = absurd (omega (arith, h))

three-IsSorted : (k : ℕ) → k < 3 → IsSorted (less_row compare get_n descending) (rests_of k)
unfolding less_row compare_rows compare_to unless_equal
three-IsSorted zero h = (refl, (tt, tt))
three-IsSorted (suc zero) h = tt
three-IsSorted (suc (suc k)) h = (refl, (tt, tt))

ordered_next-merges_example :
    (out : List ℕ) × Yields
      (ordered_next virtual_next (less_row compare get_n descending))
      (new_ordered three unused)
      out
      at_eof
    × IsSorted (less_row compare get_n descending) out
    × ((p : ℕ → Bool) → count_list p out ≡ total p 3 rests_of)
ordered_next-merges_example =
    ordered_next-merges virtual_next IsLeft compare get_n descending three rests_of unused
      virtual-gives virtual-ends compare-Flips compare-Chains (omega arith) three-hold
      three-IsSorted
