-- ===== src/Dataset/Ordered/Pops.antt =====
-- pkg/dataset/ordered.go: a pop of the queue, and the refill from the streams.
use arana.Prelude.{
  ℕ, ◌+◌, ◌*◌, ◌^◌, ◌≤◌, ◌<◌, ◌≡◌, refl, ap, sym, subst, arith, Bool, true, false, List, [], ◌∷◌,
  ◌==◌, leb, Bool-cases, inl, inr, none, some,
}
use arana.Dataset.Streams.{Answer, row, eof}
use arana.Dataset.Queue.{Slots}
use arana.Dataset.Queue.Counting.{bit, updated, count}
use arana.Dataset.Queue.Minimum.{Pushed}
use arana.Dataset.Parallel.{Parallel}
use arana.Dataset.Parallel.Turn.{Pulled}
use arana.Dataset.Ordered.{RowItem, less_item, next_of}
use arana.Dataset.Ordered.Totals.{IsSorted}
use arana.Dataset.Queue.{heap_push, heap_pop}
use arana.Dataset.Queue.Minimum.{heap_push-Pushed, heap_pop-Popped, Popped}
use arana.Dataset.Ordered.{Ordered, refill, pop_next}
use arana.Dataset.Ordered.Merge.{Steady, rows_left, next_of-Pulled, pushed_all}
use arana.Dataset.Queue.Counting.{count-some, count-at}
use arana.Dataset.Queue.Minimum.{heap_pop-empty}
use arana.Dataset.Ordered.Totals.{total-none, none_below, count_list}
use arana.Dataset.Ordered.Steps.{asym_item, trans_item, IsSteady, left_over, Waits-ended}
use arana.Dataset.Ordered.Refill.{waits, Waits, WaitsBut}

module _ {E R S : Type 0} (next : S → Answer E R × S) (Holds : S → List R → Type 0)
    (gives : (s : S) (r : R) (l : List R)
      → Holds s (r ∷ l)
      → ((next s).0 ≡ row r) × Holds (next s).1 l)
    (ends : (s : S) → Holds s [] → ((next s).0 ≡ eof) × Holds (next s).1 []) (less : R → R → Bool)
    (asym : (a b : R) → less a b ≡ true → less b a ≡ false)
    (trans : (a b c : R) → less b a ≡ false → less c b ≡ false → less c a ≡ false) (len : ℕ)
    (small : 2 * len ≤ 2 ^ 32) where
  unfoldable pub SteadyNow : Parallel E S → (ℕ → List R) → Slots (RowItem R) → Type 0
  SteadyNow pa rests q = IsSteady next Holds gives ends less asym trans len small pa rests q

  unfoldable pub rows_now : (R → Bool) → (ℕ → List R) → Slots (RowItem R) → ℕ
  rows_now p rests q = left_over next Holds gives ends less asym trans len small p rests q

  -- No row in a stream is less than a row of the queue that no other of the queue is less than.
  streams-behind :
      (pa : Parallel E S) (rests : ℕ → List R) (q : Slots (RowItem R)) (x : RowItem R)
      → SteadyNow pa rests q
      → Waits less trans len rests q
      → count (λ y. less_item less y x) q.len q.at ≡ 0
      → (k : ℕ) → k < len
      → (l : List R) → rests k ≡ l
      → count_list (λ y. less y x.item_row) l ≡ 0
  unfolding SteadyNow IsSteady Steady Waits
  streams-behind pa rests q x h w no_less k below [] e = refl
  streams-behind pa rests q x h w no_less k below (r ∷ l) e =
      let (j, inside, waiting) = count-some (waits less trans k r) q.len q.at (w k r l below e) in
      let behind : less r (q.at j).item_row ≡ false = ground (arith, waiting) in
      let least : less (q.at j).item_row x.item_row ≡ false =
        elim (Bool-cases (less (q.at j).item_row x.item_row)) [
          | inl e ↦
              let there = count-at (λ y. less_item less y x) q.len j q.at inside e in
              absurd (omega (arith, there, no_less))
          | inr e ↦ e
        ] in
      none_below less x.item_row r l trans (trans x.item_row (q.at j).item_row r least behind)
        (subst (IsSorted less) e (h.3 k below))

  -- One row x goes out: nothing that is left is less than it.
  unfoldable pub PopStep : (ℕ → List R) → Ordered E R S → Answer E R × Ordered E R S → Type 0
  PopStep rests o f =
      (x : R) × (after : ℕ → List R) × (f.0 ≡ row x)
      × (f.1.first_row ≡ o.first_row)
      × SteadyNow f.1.sources after f.1.queue
      × Waits less trans len after f.1.queue
      × ((p : R → Bool) → rows_now p rests o.queue ≡ rows_now p after f.1.queue + bit (p x))
      × (rows_now (λ y. less y x) rests o.queue ≡ 0)

  refill-row :
      (item : RowItem R) (queue : Slots (RowItem R)) (first : Bool) (q : Answer E R × Parallel E S)
      (r : R)
      → q.0 ≡ row r
      → refill next less item queue first q ≡ (
        row item.item_row,
        record {
          sources = q.1;
          queue =
              heap_push
                (less_item less)
                queue
                (record { item_row = r; stream_idx = item.stream_idx });
          first_row = first;
        },
      )
  unfolding refill
  refill-row item queue first (a, pa) r e = rw (e) refl

  refill-eof :
      (item : RowItem R) (queue : Slots (RowItem R)) (first : Bool) (q : Answer E R × Parallel E S)
      → q.0 ≡ eof
      → refill next less item queue first q
        ≡ (row item.item_row, record { sources = q.1; queue = queue; first_row = first })
  unfolding refill
  refill-eof item queue first (a, pa) e = rw (e) refl

  module _ (o : Ordered E R S) (rests : ℕ → List R) (x : RowItem R) (queue : Slots (RowItem R))
      (h : SteadyNow o.sources rests o.queue) (w : Waits less trans len rests o.queue)
      (popped : Popped
        (less_item less)
        (asym_item next Holds gives ends less asym trans len small)
        (trans_item next Holds gives ends less asym trans len small)
        o.queue
        x
        queue) where
    marked-inside : x.stream_idx < len
    unfolding SteadyNow IsSteady Steady Popped
    marked-inside =
        let all = popped.2 (λ item. leb len item.stream_idx) in
        elim (Bool-cases (leb len x.stream_idx)) [
          | inl e ↦
              let one : bit (leb len x.stream_idx) ≡ 1 = rw (e) refl in
              absurd (omega (arith, all, h.4, one))
          | inr e ↦ ground (arith, e)
        ]

    popped-Steady : SteadyNow o.sources rests queue
    unfolding SteadyNow IsSteady Steady Popped
    popped-Steady =
        let all = popped.2 (λ item. leb len item.stream_idx) in
        (h.0, h.1, popped.1, h.3, omega (arith, all, h.4))

    popped-WaitsBut : WaitsBut less trans x.stream_idx len rests queue
    unfolding Waits WaitsBut Popped
    popped-WaitsBut k r l below apart e =
        let all = popped.2 (waits less trans k r) in
        let other : bit (waits less trans k r x) ≡ 0 =
          let f : (x.stream_idx == k) ≡ false = ground (arith, apart) in rw (f) refl in
        omega (arith, all, w k r l below e, other)

    popped-least : rows_now (λ y. less y x.item_row) rests o.queue ≡ 0
    unfolding rows_now left_over rows_left Popped
    popped-least =
        let behind =
          total-none (λ y. less y x.item_row) len rests
            (λ k below.
              streams-behind o.sources rests o.queue x h w popped.3 k below (rests k) refl) in
        omega (arith, popped.3, behind)

    Pulled-PopStep :
        (q : Answer E R × Parallel E S)
        → Pulled next Holds gives ends x.stream_idx rests len q
        → PopStep rests o (refill next less x queue o.first_row q)
    unfolding Pulled PopStep Popped Pushed SteadyNow IsSteady Steady rows_now left_over rows_left
    Pulled-PopStep q (size, inl (is_eof, ended, held)) =
        let steady = popped-Steady in
        subst (PopStep rests o) (sym (refill-eof x queue o.first_row q is_eof)) (
          x.item_row,
          rests,
          refl,
          refl,
          (size, held, steady.2, steady.3, steady.4),
          Waits-ended next Holds gives ends less asym trans len small len rests queue (omega arith)
              ended,
          λ p. omega (arith, popped.2 (λ item. p item.item_row)),
          popped-least,
        )
    Pulled-PopStep q (size, inr (k, r, l, below, has, is_row, held, from)) =
        let y : RowItem R = record { item_row = r; stream_idx = x.stream_idx } in
        let q1 = heap_push (less_item less) queue y in
        let pushed =
          heap_push-Pushed (less_item less)
            (asym_item next Holds gives ends less asym trans len small)
            (trans_item next Holds gives ends less asym trans len small) queue y popped.1 in
        let (steady, waiting, same) =
          pushed_all next Holds gives ends less asym trans len small o.sources q.1 rests queue q1
            x.stream_idx k r l marked-inside below has popped-Steady size held pushed len
            popped-WaitsBut from in
        subst (PopStep rests o) (sym (refill-row x queue o.first_row q r is_row)) (
          x.item_row,
          updated rests k l,
          refl,
          refl,
          steady,
          waiting,
          λ p. omega (arith, popped.2 (λ item. p item.item_row), same p),
          popped-least,
        )

  pop_next-some :
      (o : Ordered E R S) (x : RowItem R) (queue : Slots (RowItem R))
      → heap_pop (less_item less) o.queue ≡ some (x, queue)
      → pop_next next less o
        ≡ refill next less x queue o.first_row (next_of next o.sources x.stream_idx)
  unfolding pop_next
  pop_next-some o x queue e = rw (e, pop_next) refl

  pop_next-none :
      (o : Ordered E R S)
      → heap_pop (less_item less) o.queue ≡ none
      → pop_next next less o ≡ (eof, o)
  unfolding pop_next
  pop_next-none o e = rw (e, pop_next) refl

  -- With a row in the queue one goes out.
  pub pop_next-PopStep :
      (o : Ordered E R S) (rests : ℕ → List R)
      → 0 < o.queue.len
      → SteadyNow o.sources rests o.queue
      → Waits less trans len rests o.queue
      → PopStep rests o (pop_next next less o)
  unfolding SteadyNow IsSteady Steady
  pop_next-PopStep o rests positive h w =
      let (x, queue, e, popped) =
        heap_pop-Popped (less_item less) (asym_item next Holds gives ends less asym trans len small)
          (trans_item next Holds gives ends less asym trans len small) o.queue positive h.2 in
      subst (PopStep rests o) (sym (pop_next-some o x queue e)) (
        Pulled-PopStep o rests x queue h w popped (next_of next o.sources x.stream_idx) (
          next_of-Pulled next Holds gives ends less asym trans len small o.sources rests o.queue
            x.stream_idx (marked-inside o rests x queue h w popped) h))

  no_rows :
      (rests : ℕ → List R) (q : Slots (RowItem R)) (p : R → Bool) (k : ℕ) (l : List R)
      → q.len ≡ 0
      → Waits less trans len rests q
      → k < len
      → rests k ≡ l
      → count_list p l ≡ 0
  unfolding Waits count
  no_rows rests q p k [] empty w below e = refl
  no_rows rests q p k (r ∷ l) empty w below e =
      let clash = subst (λ n. 0 < count (waits less trans k r) n q.at) empty (w k r l below e) in
      absurd (omega (arith, clash))

  -- With none there is none in the streams either, and Next gives io.EOF.
  pub pop_next-ended :
      (o : Ordered E R S) (rests : ℕ → List R)
      → o.queue.len ≡ 0
      → Waits less trans len rests o.queue
      → ((pop_next next less o).0 ≡ eof) × ((p : R → Bool) → rows_now p rests o.queue ≡ 0)
  unfolding rows_now left_over rows_left count
  pop_next-ended o rests empty w = (
    ap (λ f. f.0) (pop_next-none o (heap_pop-empty (less_item less) o.queue empty)),
    λ p.
        let streams =
          total-none p len rests
            (λ k below. no_rows rests o.queue p k (rests k) empty w below refl) in
        let queue =
          subst (λ n. count (λ item. p item.item_row) n o.queue.at ≡ 0) (sym empty) refl in
        omega (arith, streams, queue),
  )
