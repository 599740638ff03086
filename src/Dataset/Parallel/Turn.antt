-- ===== src/Dataset/Parallel/Turn.antt =====
-- pkg/dataset/parallel.go, SetNextN and Next: from which stream the next row is taken.
use native.Mathlib.Nat.{mod-eq_of_lt, mod-eq-sub-mod}
use arana.Prelude.{
  ℕ, zero, suc, ◌+◌, ◌-◌, ◌*◌, ◌%◌, ◌^◌, ◌≤◌, ◌<◌, ◌≡◌, ◌⊎◌, inl, inr, refl, sym, ap, subst, ◌∙◌,
  arith, false, List, [], ◌∷◌, ◌==◌, Bool-cases, ltb,
}
use arana.Dataset.Streams.{ok, fault, Answer, row, eof}
use arana.Dataset.Queue.Counting.{updated}
use arana.Dataset.Parallel.{
  Source, opened, generator, Parallel, set_stream, with_stream, take_turn, stream_index, advance,
  next_loop, parallel_next,
}

-- The index of the turn after `t` others, from `index` on
turn_of :
    (index len t : ℕ)
    → index < len
    → t < len
    → (i : ℕ) × ((index + t) % len ≡ i)
      × (i < len)
      × (((index + t < len) × (i ≡ index + t)) ⊎ ((len ≤ index + t) × (i + len ≡ index + t)))
turn_of index len t inside small = elim (Bool-cases (ltb (index + t) len)) [
  | inl e ↦
      let low : index + t < len = ground (arith, e) in
      (index + t, mod-eq_of_lt low, low, inl (low, refl))
  | inr e ↦
      let high : len ≤ index + t = ground (arith, e) in
      let below : index + t - len < len = omega (arith, high, inside, small) in
      (
        index + t - len,
        mod-eq-sub-mod high ∙ mod-eq_of_lt below,
        below,
        inr (high, omega (arith, high)),
      )
]

earlier :
    (index len t i k : ℕ)
    → (k == i) ≡ false
    → k < len
    → ((index + t < len) × (i ≡ index + t)) ⊎ ((len ≤ index + t) × (i + len ≡ index + t))
    → ((index ≤ k) × (k < index + suc t)) ⊎ (k + len < index + suc t)
    → ((index ≤ k) × (k < index + t)) ⊎ (k + len < index + t)
earlier index len t i k apart below (inl (a, b)) (inl (c, d)) =
    inl (c, ground (arith, apart, b, c, d))
earlier index len t i k apart below (inl (a, b)) (inr c) = absurd (omega (arith, a, c))
earlier index len t i k apart below (inr (a, b)) (inl (c, d)) = inl (c, omega (arith, a, below))
earlier index len t i k apart below (inr (a, b)) (inr c) = inr (ground (arith, apart, b, c))

module _ {E R S : Type 0} (next : S → Answer E R × S) (Holds : S → List R → Type 0)
    (gives : (s : S) (r : R) (l : List R)
      → Holds s (r ∷ l)
      → ((next s).0 ≡ row r) × Holds (next s).1 l)
    (ends : (s : S) → Holds s [] → ((next s).0 ≡ eof) × Holds (next s).1 []) where
  unfoldable pub SourceHolds : Source E S → List R → Type 0
  SourceHolds (opened s) l = Holds s l
  SourceHolds (generator (ok s)) l = Holds s l
  SourceHolds (generator (fault e)) l = ⊥

  -- The streams have the rows `rests` left.
  unfoldable pub AllHold : Parallel E S → (ℕ → List R) → Type 0
  AllHold pa rests = (k : ℕ) → k < pa.len → SourceHolds (pa.streams k) (rests k)

  -- What a call gives that starts at `index`: a row of that stream, or of another if that is at
  -- its end; io.EOF only where all are.
  unfoldable pub Pulled : ℕ → (ℕ → List R) → ℕ → Answer E R × Parallel E S → Type 0
  Pulled index rests len q =
      (q.1.len ≡ len)
      × (((q.0 ≡ eof) × ((k : ℕ) → k < len → rests k ≡ []) × AllHold q.1 rests)
          ⊎ ((i : ℕ) × (r : R) × (l : List R) × (i < len)
              × (rests i ≡ r ∷ l)
              × (q.0 ≡ row r)
              × AllHold q.1 (updated rests i l)
              × ((rests index ≡ []) ⊎ (i ≡ index))))

  source_stream :
      (src : Source E S) (l : List R)
      → SourceHolds src l
      → (s : S) × Holds s l
        × ((pa : Parallel E S) (use_it : S → Answer E R × Parallel E S)
            → with_stream src pa use_it ≡ use_it s)
  unfolding SourceHolds with_stream
  source_stream (opened s) l h = (s, h, λ pa use_it. refl)
  source_stream (generator (ok s)) l h = (s, h, λ pa use_it. refl)
  source_stream (generator (fault e)) l h = elim h [ ]

  set_stream-AllHold :
      (pa : Parallel E S) (rests : ℕ → List R) (i : ℕ) (s : S) (l : List R)
      → AllHold pa rests
      → Holds s l
      → AllHold (set_stream pa i s) (updated rests i l)
  unfolding AllHold set_stream SourceHolds
  set_stream-AllHold pa rests i s l all h k below = elim (Bool-cases (k == i)) [
    | inl e ↦ rw (e) h
    | inr e ↦ rw (e) (all k below)
  ]

  set_stream-same :
      (pa : Parallel E S) (rests : ℕ → List R) (i : ℕ) (s : S)
      → rests i ≡ []
      → AllHold pa rests
      → Holds s []
      → AllHold (set_stream pa i s) rests
  unfolding AllHold set_stream SourceHolds
  set_stream-same pa rests i s empty all h k below = elim (Bool-cases (k == i)) [
    | inl e ↦
        let here : k ≡ i = ground (arith, e) in
        rw (e) (subst (Holds s) (sym (ap rests here ∙ empty)) h)
    | inr e ↦ rw (e) (all k below)
  ]

  turn-row :
      (rest : Parallel E S → Answer E R × Parallel E S) (pa : Parallel E S) (i : ℕ)
      (q : Answer E R × S) (r : R)
      → q.0 ≡ row r
      → take_turn rest pa i q ≡ (row r, set_stream pa i q.1)
  unfolding take_turn
  turn-row rest pa i (a, s) r h = rw (h) refl

  turn-eof :
      (rest : Parallel E S → Answer E R × Parallel E S) (pa : Parallel E S) (i : ℕ)
      (q : Answer E R × S)
      → q.0 ≡ eof
      → take_turn rest pa i q ≡ rest (set_stream pa i q.1)
  unfolding take_turn
  turn-eof rest pa i (a, s) h = rw (h) refl

  -- The streams of the first `t` turns are at their end.
  Visited : ℕ → ℕ → ℕ → (ℕ → List R) → Type 0
  Visited index len t rests =
      (k : ℕ) → k < len → ((index ≤ k) × (k < index + t)) ⊎ (k + len < index + t) → rests k ≡ []

  Visited-all :
      (index len : ℕ) (rests : ℕ → List R)
      → index < len
      → Visited index len len rests
      → (k : ℕ) → k < len
      → rests k ≡ []
  unfolding Visited
  Visited-all index len rests inside v k below = elim (Bool-cases (ltb k index)) [
    | inl e ↦ v k below (inr (ground (arith, e)))
    | inr e ↦ v k below (inl (ground (arith, e), omega (arith, below)))
  ]

  Visited-first :
      (index len t : ℕ) (rests : ℕ → List R) (i : ℕ)
      → index < len
      → Visited index len t rests
      → ((index + t < len) × (i ≡ index + t)) ⊎ ((len ≤ index + t) × (i + len ≡ index + t))
      → (rests index ≡ []) ⊎ (i ≡ index)
  unfolding Visited
  Visited-first index len zero rests i inside v (inl low) = inr (omega (arith, low.1))
  Visited-first index len zero rests i inside v (inr high) = absurd (omega (arith, high.0, inside))
  Visited-first index len (suc t) rests i inside v h =
      inl (v index inside (inl (omega arith, omega arith)))

  Visited-more :
      (index len t : ℕ) (rests : ℕ → List R) (i : ℕ)
      → rests i ≡ []
      → ((index + t < len) × (i ≡ index + t)) ⊎ ((len ≤ index + t) × (i + len ≡ index + t))
      → Visited index len t rests
      → Visited index len (suc t) rests
  unfolding Visited
  Visited-more index len t rests i empty at_i v k below w = elim (Bool-cases (k == i)) [
    | inl e ↦ let here : k ≡ i = ground (arith, e) in ap rests here ∙ empty
    | inr e ↦ v k below (earlier index len t i k (ground (arith, e)) below at_i w)
  ]

  next_loop-at :
      (j : ℕ) (pa : Parallel E S) (i : ℕ)
      → stream_index pa ≡ i
      → next_loop next (suc j) pa
        ≡ with_stream
            (pa.streams i)
            (advance pa)
            (λ s. take_turn (next_loop next j) (advance pa) i (next s))
  unfolding next_loop
  next_loop-at j pa i h =
      ap
        (λ m.
          with_stream (pa.streams m) (advance pa)
            (λ s. take_turn (next_loop next j) (advance pa) m (next s)))
        h

  row-Pulled :
      (pa : Parallel E S) (rests : ℕ → List R) (index i : ℕ) (r : R) (l : List R) (s : S)
      → rests i ≡ r ∷ l
      → i < pa.len
      → (rests index ≡ []) ⊎ (i ≡ index)
      → AllHold pa rests
      → Holds s l
      → Pulled index rests pa.len (row r, set_stream (advance pa) i s)
  unfolding Pulled set_stream advance AllHold
  row-Pulled pa rests index i r l s has below first all kept = (
    refl,
    inr (i, r, l, below, has, refl, set_stream-AllHold (advance pa) rests i s l all kept, first),
  )

  turned :
      (rest : Parallel E S → Answer E R × Parallel E S) (pa : Parallel E S) (rests : ℕ → List R)
      (index i : ℕ) (s : S) (l : List R)
      → rests i ≡ l
      → Holds s l
      → i < pa.len
      → (rests index ≡ []) ⊎ (i ≡ index)
      → AllHold pa rests
      → (rests i ≡ []
          → AllHold (set_stream (advance pa) i (next s).1) rests
          → Pulled index rests pa.len (rest (set_stream (advance pa) i (next s).1)))
      → Pulled index rests pa.len (take_turn rest (advance pa) i (next s))
  unfolding advance AllHold
  turned rest pa rests index i s [] empty h below first all again =
      let (is_eof, kept) = ends s h in
      subst (Pulled index rests pa.len) (sym (turn-eof rest (advance pa) i (next s) is_eof))
        (again empty (set_stream-same (advance pa) rests i (next s).1 empty all kept))
  turned rest pa rests index i s (r ∷ l) has h below first all again =
      let (is_row, kept) = gives s r l h in
      subst (Pulled index rests pa.len) (sym (turn-row rest (advance pa) i (next s) r is_row))
        (row-Pulled pa rests index i r l (next s).1 has below first all kept)

  loop-Pulled :
      (j index t : ℕ) (pa : Parallel E S) (rests : ℕ → List R)
      → index < pa.len
      → t + j ≡ pa.len
      → 2 * pa.len ≤ 2 ^ 32
      → pa.seq ≡ index + t
      → Visited index pa.len t rests
      → AllHold pa rests
      → Pulled index rests pa.len (next_loop next j pa)
  unfolding next_loop Pulled set_stream advance stream_index AllHold
  loop-Pulled zero index t pa rests inside whole small at_t v all =
      let same : t ≡ pa.len = omega (arith, whole) in
      (
        refl,
        inl (
          refl,
          Visited-all index pa.len rests inside (subst (λ m. Visited index pa.len m rests) same v),
          all,
        ),
      )
  loop-Pulled (suc j) index t pa rests inside whole small at_t v all =
      let (i, turn, below, where_i) = turn_of index pa.len t inside (omega (arith, whole)) in
      let step = next_loop-at j pa i (ap (λ m. m % pa.len) at_t ∙ turn) in
      let (s, holds, opens) = source_stream (pa.streams i) (rests i) (all i below) in
      subst (Pulled index rests pa.len)
        (sym
          (step ∙ opens (advance pa) (λ u. take_turn (next_loop next j) (advance pa) i (next u))))
        (turned (next_loop next j) pa rests index i s (rests i) refl holds below
          (Visited-first index pa.len t rests i inside v where_i) all
          (λ empty kept.
            loop-Pulled j index (suc t) (set_stream (advance pa) i (next s).1) rests inside
              (omega (arith, whole)) small (omega (arith, at_t, small, inside, whole))
              (Visited-more index pa.len t rests i empty where_i v) kept))

  pub parallel_next-Pulled :
      (index : ℕ) (pa : Parallel E S) (rests : ℕ → List R)
      → index < pa.len
      → 2 * pa.len ≤ 2 ^ 32
      → pa.seq ≡ index
      → AllHold pa rests
      → Pulled index rests pa.len (parallel_next next pa)
  unfolding parallel_next Visited
  parallel_next-Pulled index pa rests inside small at_index all =
      loop-Pulled pa.len index 0 pa rests inside (omega arith) small (omega (arith, at_index))
        (λ k below w. elim w [
          | inl a ↦ absurd (omega (arith, a.0, a.1))
          | inr a ↦ absurd (omega (arith, a, inside))
        ])
        all
