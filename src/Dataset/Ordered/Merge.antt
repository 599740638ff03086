-- ===== src/Dataset/Ordered/Merge.antt =====
-- pkg/dataset/ordered.go, the state between two calls: what is true of the streams and the queue
-- before each pop.
use arana.Prelude.{
  ℕ, ◌+◌, ◌*◌, ◌^◌, ◌≤◌, ◌<◌, ◌≡◌, ◌⊎◌, refl, sym, subst, arith, Bool, true, false, List, [], ◌∷◌,
  ◌==◌, leb, Bool-cases, inl, inr,
}
use arana.Dataset.Streams.{Answer, row, eof}
use arana.Dataset.Queue.{Slots}
use arana.Dataset.Queue.Counting.{updated, count}
use arana.Dataset.Queue.Up.{IsHeap}
use arana.Dataset.Queue.Minimum.{Pushed}
use arana.Dataset.Parallel.{Parallel, parallel_next, set_next_n}
use arana.Dataset.Parallel.Turn.{AllHold, Pulled, parallel_next-Pulled}
use arana.Dataset.Ordered.{RowItem, less_item, next_of}
use arana.Dataset.Ordered.Totals.{IsSorted, total, total-updated}
use arana.Dataset.Ordered.Refill.{Waits, WaitsBut, refilled}

module _ {E R S : Type 0} (next : S → Answer E R × S) (Holds : S → List R → Type 0)
    (gives : (s : S) (r : R) (l : List R)
      → Holds s (r ∷ l)
      → ((next s).0 ≡ row r) × Holds (next s).1 l)
    (ends : (s : S) → Holds s [] → ((next s).0 ≡ eof) × Holds (next s).1 []) (less : R → R → Bool)
    (asym : (a b : R) → less a b ≡ true → less b a ≡ false)
    (trans : (a b c : R) → less b a ≡ false → less c b ≡ false → less c a ≡ false) (len : ℕ)
    (small : 2 * len ≤ 2 ^ 32) where
  -- The streams hold `rests`, each in order; the queue is a heap of rows marked with streams.
  unfoldable pub Steady : Parallel E S → (ℕ → List R) → Slots (RowItem R) → Type 0
  Steady pa rests q =
      (pa.len ≡ len)
      × AllHold next Holds gives ends pa rests
      × IsHeap (less_item less) q.len q.at
      × ((k : ℕ) → k < len → IsSorted less (rests k))
      × (count (λ item. leb len item.stream_idx) q.len q.at ≡ 0)

  -- The rows that pass the test, in the queue and in the streams
  unfoldable pub rows_left : (R → Bool) → (ℕ → List R) → Slots (RowItem R) → ℕ
  rows_left p rests q = count (λ item. p item.item_row) q.len q.at + total p len rests

  next_of-in :
      (pa : Parallel E S) (index : ℕ)
      → leb pa.len index ≡ false
      → next_of next pa index ≡ parallel_next next (record pa { seq = index })
  unfolding next_of set_next_n
  next_of-in pa index e = rw (e, next_of) refl

  pub next_of-Pulled :
      (pa : Parallel E S) (rests : ℕ → List R) (q : Slots (RowItem R)) (index : ℕ)
      → index < len
      → Steady pa rests q
      → Pulled next Holds gives ends index rests len (next_of next pa index)
  unfolding Steady AllHold
  next_of-Pulled pa rests q index inside h =
      let e : leb pa.len index ≡ false = ground (arith, h.0, inside) in
      let at_index : Parallel E S = record pa { seq = index } in
      subst (Pulled next Holds gives ends index rests len) (sym (next_of-in pa index e)) (
        subst (λ n. Pulled next Holds gives ends index rests n (parallel_next next at_index)) h.0
          (parallel_next-Pulled next Holds gives ends index at_index rests
            (omega (arith, h.0, inside)) (omega (arith, h.0, small)) refl h.1))

  -- A row r of the stream i has been pushed, marked with `index`.
  module _ (pa after : Parallel E S) (rests : ℕ → List R) (q0 q1 : Slots (RowItem R)) (index i : ℕ)
      (r : R) (l : List R) (inside : index < len) (below : i < len) (has : rests i ≡ r ∷ l)
      (h : Steady pa rests q0) (size : after.len ≡ len)
      (held : AllHold next Holds gives ends after (updated rests i l))
      (pushed : Pushed
        (less_item less)
        (λ a b. asym a.item_row b.item_row)
        (λ a b c. trans a.item_row b.item_row c.item_row)
        q0
        (record { item_row = r; stream_idx = index })
        q1) where
    pushed-Steady : Steady after (updated rests i l) q1
    unfolding Steady Pushed
    pushed-Steady =
        let unmarked : leb len index ≡ false = ground (arith, inside) in
        let grown = pushed.2 (λ item. leb len item.stream_idx) in
        (
          size,
          held,
          pushed.1,
          λ k small_k. elim (Bool-cases (k == i)) [
            | inl e ↦ let tail = subst (IsSorted less) has (h.3 i below) in rw (e) tail.1
            | inr e ↦ rw (e) (h.3 k small_k)
          ],
          rw (grown, unmarked) (omega (arith, h.4)),
        )

    pushed-rows_left : (p : R → Bool) → rows_left p (updated rests i l) q1 ≡ rows_left p rests q0
    unfolding Steady Pushed rows_left
    pushed-rows_left p =
        omega (arith, pushed.2 (λ item. p item.item_row), total-updated p len i rests r l below has)

    pub pushed_all :
        (m : ℕ)
        → WaitsBut less trans index m rests q0
        → (rests index ≡ []) ⊎ (i ≡ index)
        → Steady after (updated rests i l) q1
          × Waits less trans m (updated rests i l) q1
          × ((p : R → Bool) → rows_left p (updated rests i l) q1 ≡ rows_left p rests q0)
    unfolding Steady Pushed
    pushed_all m waited from = (
      pushed-Steady,
      refilled less trans m index i rests r l q0 q1 waited has from (h.3 i below) pushed.2,
      pushed-rows_left,
    )
