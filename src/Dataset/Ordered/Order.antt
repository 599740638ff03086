-- ===== src/Dataset/Ordered/Order.antt =====
-- pkg/dataset/ordered.go, NewOrderedDataset and Next: the streams merged into one order.
use Prim.Native.Nat.{Ordering}
use arana.Dataset.Queue.Keys.{OrderByItem, Flips, Chains, less_row, less_row-asym, less_row_trans}
use arana.Dataset.Parallel.Turn.{SourceHolds}
use arana.Prelude.{
  String, ℕ, zero, suc, ◌*◌, ◌^◌, ◌≤◌, ◌<◌, ◌≡◌, refl, ap, sym, subst, ◌∙◌, arith, Bool, true,
  false, List, [], ◌∷◌, ◌==◌, Bool-cases, inl, inr, Option, none,
}
use arana.Dataset.Streams.{Answer, row, eof}
use arana.Dataset.Queue.{Slots}
use arana.Dataset.Queue.Counting.{count}
use arana.Dataset.Parallel.{Parallel}
use arana.Dataset.Parallel.Turn.{AllHold}
use arana.Dataset.Ordered.{RowItem}
use arana.Dataset.Ordered.Totals.{IsSorted, total}
use arana.Dataset.Ordered.{Ordered, fill, pop_next, filled, ordered_next}
use arana.Dataset.Ordered.Merge.{Steady, rows_left}
use arana.Dataset.Ordered.Totals.{count_list}
use arana.Dataset.Ordered.Steps.{IsSteady, left_over}
use arana.Dataset.Streams.{at_eof, Yields, Then, Then-Yields, Yields-Then}
use arana.Dataset.Ordered.{new_ordered}
use arana.Dataset.Ordered.Steps.{Filled, fill-Filled}
use arana.Dataset.Ordered.Totals.{Follows-none}
use arana.Dataset.Ordered.Pops.{PopStep, SteadyNow, rows_now, pop_next-PopStep, pop_next-ended}
use arana.Dataset.Ordered.Refill.{Waits}

module _ {E R S : Type 0} (next : S → Answer E R × S) (Holds : S → List R → Type 0)
    (gives : (s : S) (r : R) (l : List R)
      → Holds s (r ∷ l)
      → ((next s).0 ≡ row r) × Holds (next s).1 l)
    (ends : (s : S) → Holds s [] → ((next s).0 ≡ eof) × Holds (next s).1 []) (less : R → R → Bool)
    (asym : (a b : R) → less a b ≡ true → less b a ≡ false)
    (trans : (a b c : R) → less b a ≡ false → less c b ≡ false → less c a ≡ false) (len : ℕ)
    (small : 2 * len ≤ 2 ^ 32) where
  SteadyState : Parallel E S → (ℕ → List R) → Slots (RowItem R) → Type 0
  SteadyState pa rests q = SteadyNow next Holds gives ends less asym trans len small pa rests q

  rows_of : (R → Bool) → (ℕ → List R) → Slots (RowItem R) → ℕ
  rows_of p rests q = rows_now next Holds gives ends less asym trans len small p rests q

  -- What comes out of a state: rows in order, of which as many pass a test as are left in it
  Drained : Ordered E R S → (ℕ → List R) → Slots (RowItem R) → Type 0
  Drained o rests q =
      (out : List R) × Yields (ordered_next next less) o out at_eof
      × IsSorted less out
      × ((p : R → Bool) → count_list p out ≡ rows_of p rests q)

  ordered_next-pop :
      (o : Ordered E R S) → o.first_row ≡ false → ordered_next next less o ≡ pop_next next less o
  unfolding ordered_next
  ordered_next-pop o e = rw (e, ordered_next) refl

  drained :
      (bound : ℕ) (o : Ordered E R S) (rests : ℕ → List R)
      → o.first_row ≡ false
      → SteadyState o.sources rests o.queue
      → Waits less trans len rests o.queue
      → rows_of (λ r. true) rests o.queue < bound
      → Drained o rests o.queue
  unfolding Drained PopStep SteadyState rows_of
  drained zero o rests first h w enough = absurd (omega (arith, enough))
  drained (suc bound) o rests first h w enough =
      let goes = ordered_next-pop o first in
      elim (Bool-cases (o.queue.len == 0)) [
        | inl e ↦
            let (is_eof, none_left) =
              pop_next-ended next Holds gives ends less asym trans len small o rests
                (ground (arith, e)) w in
            ([], ap (λ f. f.0) goes ∙ is_eof, tt, λ p. sym (none_left p))
        | inr e ↦
            let (x, after, is_row, first', h', w', moved, least) =
              pop_next-PopStep next Holds gives ends less asym trans len small o rests
                (ground (arith, e)) h w in
            let o' = (pop_next next less o).1 in
            let one = moved (λ r. true) in
            let (out, yields, sorted, counts) =
              drained bound o' after (first' ∙ first) h' w' (omega (arith, one, enough)) in
            let behind =
              Follows-none less x out
                (omega (arith, counts (λ y. less y x), moved (λ y. less y x), least)) in
            (
              x ∷ out,
              (
                ap (λ f. f.0) goes ∙ is_row,
                subst (λ f. Yields (ordered_next next less) f.1 out at_eof) (sym goes) yields,
              ),
              (behind, sorted),
              λ p. omega (arith, counts p, moved p),
            )
      ]

  -- The first call: the loop over the streams, and the first pop
  ordered_next-first :
      (o : Ordered E R S) (f : Option (Answer E R) × Ordered E R S)
      → o.first_row ≡ true
      → fill next less o.sources.len 0 (record o { first_row = false }) ≡ f
      → ordered_next next less o ≡ filled next less f
  unfolding ordered_next
  ordered_next-first o f e g = rw (e, g, ordered_next) refl

  filled-none :
      (f : Option (Answer E R) × Ordered E R S)
      → f.0 ≡ none
      → filled next less f ≡ pop_next next less f.1
  unfolding filled
  filled-none (a, o) e = rw (e) refl

  -- The state before the first call, with an empty queue
  new-Drained :
      (pa : Parallel E S) (at : ℕ → RowItem R) (rests : ℕ → List R)
      → pa.len ≡ len
      → AllHold next Holds gives ends pa rests
      → ((k : ℕ) → k < len → IsSorted less (rests k))
      → Drained (new_ordered pa at) rests (record { len = 0; at = at })
  unfolding Drained new_ordered Filled SteadyState SteadyNow IsSteady Steady Waits rows_of rows_now
      count
  new-Drained pa at rests size held sorted =
      let start : Ordered E R S = record {
        sources = pa;
        queue = record { len = 0; at = at };
        first_row = false;
      } in
      let f = fill next less pa.len 0 start in
      let (fine, first, after, h, w, same) =
        fill-Filled next Holds gives ends less asym trans len small pa.len 0 start rests
          (omega (arith, size)) refl
          (size, held, λ k p positive below q. absurd (omega (arith, below)), sorted, refl)
          (λ k r l below e. absurd (omega (arith, below))) in
      let (out, yields, in_order, counts) =
        drained (suc (rows_of (λ r. true) after f.1.queue)) f.1 after first h w (omega arith) in
      let goes =
        ordered_next-first (new_ordered pa at) f refl refl
        ∙ filled-none f fine
        ∙ sym (ordered_next-pop f.1 first) in
      (
        out,
        Then-Yields (ordered_next next less) (new_ordered pa at) out at_eof (
            subst (λ g. Then (ordered_next next less) g out at_eof) (sym goes)
              (Yields-Then (ordered_next next less) f.1 out at_eof yields)),
        in_order,
        λ p. counts p ∙ same p,
      )

-- NewOrderedDataset over streams whose objects hold lists of rows, each in the order of the ORDER
-- BY columns, with at most 2 ^ 31 streams and a comparison of values that flips with its arguments
-- and whose "not greater" is transitive: Next gives rows in that order and then io.EOF, and as many
-- of them pass any test as rows of the streams do, which is that none is lost or made up.
pub ordered_next-merges :
    {E R S V : Type 0} (next : S → Answer E R × S) (Holds : S → List R → Type 0)
    (compare_value : V → V → Ordering) (get : R → String → Option V) (items : List OrderByItem)
    (pa : Parallel E S) (rests : ℕ → List R) (at : ℕ → RowItem R)
    (gives : (s : S) (r : R) (l : List R)
      → Holds s (r ∷ l)
      → ((next s).0 ≡ row r) × Holds (next s).1 l)
    (ends : (s : S) → Holds s [] → ((next s).0 ≡ eof) × Holds (next s).1 [])
    → Flips compare_value
    → Chains compare_value
    → pa.len ≤ 2 ^ 31
    → ((k : ℕ) → k < pa.len → SourceHolds next Holds gives ends (pa.streams k) (rests k))
    → ((k : ℕ) → k < pa.len → IsSorted (less_row compare_value get items) (rests k))
    → (out : List R) × Yields
        (ordered_next next (less_row compare_value get items))
        (new_ordered pa at)
        out
        at_eof
      × IsSorted (less_row compare_value get items) out
      × ((p : R → Bool) → count_list p out ≡ total p pa.len rests)
unfolding Drained AllHold rows_of rows_now left_over rows_left count
ordered_next-merges next Holds compare_value get items pa rests at gives ends flips chains few held
      sorted =
    let (out, yields, in_order, counts) =
      new-Drained next Holds gives ends (less_row compare_value get items)
        (less_row-asym compare_value flips chains get items)
        (less_row_trans compare_value flips chains get items) pa.len (omega (arith, few)) pa at
        rests refl held sorted in
    (out, yields, in_order, λ p. counts p ∙ omega arith)
