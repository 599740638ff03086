-- ===== src/Dataset/Reduce/Rows.antt =====
-- ReduceDataset.Next (pkg/dataset/reduce.go) against the fold of its columns
use arana.Prelude.{
  ℕ, zero, suc, ◌+◌, ◌<◌, ◌≡◌, refl, arith, Bool, true, false, Option, none, some, List, [], ◌∷◌,
  length, map, ◌⊎◌, inl, inr, ◌∙◌,
}
use arana.Dataset.Streams.{
  Outcome, ok, fault, Answer, row, eof, failed, Dataset, at_eof, at_fault, Yields, Runs,
}
use arana.Dataset.Reduce.{
  and_then, DecimalReducer, RowValues, Reducing, entries, fields_or_nil, fold_cell, end_reduce,
  go_on, take_values, take_row, reduce_next, reduce_dataset,
}
use arana.Dataset.Reduce.Columns.{column, Folded, folded, broken, fold_cells-Folded}

-- Scan into n entries gives these values of these rows.
pub data Scans {E R V : Type 0} (scan : R → Outcome E (ℕ → Option V))
    : List R → List (ℕ → Option V) → Type 0 where
  scans_none : Scans scan [] []
  scans_more :
      {r : R} {v : ℕ → Option V} {l : List R} {vs : List (ℕ → Option V)}
      → scan r ≡ ok v
      → Scans scan l vs
      → Scans scan (r ∷ l) (v ∷ vs)

-- The values of one column
abbrev pub at_column : {V : Type 0} → ℕ → List (ℕ → Option V) → List (Option V)
at_column j vs = map (λ v. v j) vs

module _ {E F R V D S : Type 0} (ops : RowValues E F R V D) where
  -- The answer when the columns are these: the one row of them all, or the error of one of them
  pub data Reduced (columns : List F) (cells : ℕ → Outcome E (Option V)) (binary : Bool)
      (q : Answer E R × Reducing S V) : Type 0 where
    reduced :
        (out : ℕ → Option V)
        → ((j : ℕ) → j < length columns → cells j ≡ ok (out j))
        → q.0 ≡ row (ops.virtual_row binary columns (entries (length columns) 0 out))
        → q.1.done ≡ true
        → Reduced columns cells binary q
    refused :
        (j : ℕ) (e : E)
        → j < length columns
        → cells j ≡ fault e
        → q.0 ≡ failed e
        → Reduced columns cells binary q

  module _ (reducers : ℕ → Option (DecimalReducer E D)) (columns : List F)
      (next : S → Answer E R × S) where
    take_row-eof :
        (again : Reducing S V → Answer E R × Reducing S V) (s : Reducing S V) (q : Answer E R × S)
        → q.0 ≡ eof
        → take_row ops reducers columns again s q
          ≡ end_reduce ops columns (record s { inner = q.1 }) s.prev
    unfolding take_row
    take_row-eof again s (a, t) h = rw (h, take_row) refl

    take_row-row :
        (again : Reducing S V → Answer E R × Reducing S V) (s : Reducing S V) (q : Answer E R × S)
        (r : R) (v : ℕ → Option V)
        → q.0 ≡ row r
        → ops.scan (length columns) r ≡ ok v
        → take_row ops reducers columns again s q
          ≡ take_values ops reducers columns again (record s { inner = q.1 }) r s.prev (ok v)
    unfolding take_row
    take_row-row again s (a, t) r v h g = rw (h, take_row, g) refl

    column_fault :
        (red : Option (DecimalReducer E D)) (v w : Option V) (l : List (Option V)) (e : E)
        → fold_cell ops red v w ≡ fault e
        → column ops red v (w ∷ l) ≡ fault e
    unfolding column and_then
    column_fault red v w l e h = rw (h) refl

    column_ok :
        (red : Option (DecimalReducer E D)) (v w u : Option V) (l : List (Option V))
        → fold_cell ops red v w ≡ ok u
        → column ops red v (w ∷ l) ≡ column ops red u l
    unfolding column and_then
    column_ok red v w u l h = rw (h) refl

    Reduced-same :
        (cells cells' : ℕ → Outcome E (Option V)) (b : Bool) (q : Answer E R × Reducing S V)
        → ((j : ℕ) → j < length columns → cells' j ≡ cells j)
        → Reduced columns cells b q
        → Reduced columns cells' b q
    Reduced-same cells cells' b q h (reduced out a c d) = reduced out (λ j l. h j l ∙ a j l) c d
    Reduced-same cells cells' b q h (refused j e l a c) = refused j e l (h j l ∙ a) c

    go_on-Reduced :
        (again : Reducing S V → Answer E R × Reducing S V) (s : Reducing S V) (v p : ℕ → Option V)
        (vs : List (ℕ → Option V)) (out : Option E × (ℕ → Option V))
        → Folded ops reducers (length columns) 0 v p out
        → ((p' : ℕ → Option V)
            → Reduced columns
                (λ j. column ops (reducers j) (p' j) (at_column j vs))
                s.binary
                (again (record s { prev = some p' })))
        → Reduced columns
            (λ j. column ops (reducers j) (p j) (at_column j (v ∷ vs)))
            s.binary
            (go_on ops again s out)
    unfolding go_on
    go_on-Reduced again s v p vs (x, p') (folded a b c) h =
        rw (a, go_on)
          (Reduced-same _ _ s.binary _
            (λ j l. column_ok (reducers j) (p j) (v j) (p' j) _ (c j (omega arith) (omega arith)))
            (h p'))
    go_on-Reduced again s v p vs (x, p') (broken j e a b c d) h =
        rw (d, go_on) (refused j e (omega arith) (column_fault (reducers j) (p j) (v j) _ e c) refl)

    reduce_next-rest :
        (fuel : ℕ) (t : S) (p : ℕ → Option V) (b : Bool) (l : List R) (vs : List (ℕ → Option V))
        → length l < fuel
        → Yields next t l at_eof
        → Scans (ops.scan (length columns)) l vs
        → Reduced columns
            (λ j. column ops (reducers j) (p j) (at_column j vs))
            b
            (reduce_next ops reducers columns next fuel
              (record { inner = t; prev = some p; binary = b; done = false }))
    unfolding reduce_next take_values end_reduce column
    reduce_next-rest zero t p b l vs m h sc = absurd (omega arith)
    reduce_next-rest (suc fuel) t p b l vs m h scans_none =
        rw (take_row-eof (reduce_next ops reducers columns next fuel) _ (next t) h, end_reduce)
          (reduced p (λ j l. refl) refl refl)
    reduce_next-rest (suc fuel) t p b l vs m h
          (scans_more {r = r} {v = v} {l = l'} {vs = vs'} g sc) =
        rw (take_row-row (reduce_next ops reducers columns next fuel) _ (next t) r v h.0 g) (
          go_on-Reduced (reduce_next ops reducers columns next fuel)
            (record { inner = (next t).1; prev = some p; binary = b; done = false }) v p vs' _
            (fold_cells-Folded ops reducers (length columns) 0 v p)
            λ p'. reduce_next-rest fuel (next t).1 p' b l' vs' (omega arith) h.1 sc)

-- What the data set of the one row is against the columns
abbrev pub Reduces :
    {E F R V D : Type 0}
    → RowValues E F R V D
    → List F
    → (ℕ → Outcome E (Option V))
    → Bool
    → Dataset E F R
    → Type 0
Reduces {E = E} {V = V} ops columns cells binary d =
    ((out : ℕ → Option V) × ((j : ℕ) → j < length columns → cells j ≡ ok (out j))
      × Runs d (ops.virtual_row binary columns (entries (length columns) 0 out) ∷ []) at_eof)
    ⊎ ((j : ℕ) × (e : E) × (j < length columns) × (cells j ≡ fault e) × Runs d [] (at_fault e))

module _ {E F R V D : Type 0} (ops : RowValues E F R V D) where
  done-eof :
      {S : Type 0} (reducers : ℕ → Option (DecimalReducer E D)) (columns : List F)
      (next : S → Answer E R × S) (fuel : ℕ) (s : Reducing S V)
      → 0 < fuel
      → s.done ≡ true
      → (reduce_next ops reducers columns next fuel s).0 ≡ eof
  unfolding reduce_next
  done-eof reducers columns next zero s m h = absurd (omega arith)
  done-eof reducers columns next (suc fuel) s m h = rw (h) refl

  first_row :
      {S : Type 0} (reducers : ℕ → Option (DecimalReducer E D)) (columns : List F)
      (next : S → Answer E R × S) (fuel : ℕ) (t : S) (r : R) (v : ℕ → Option V)
      → (next t).0 ≡ row r
      → ops.scan (length columns) r ≡ ok v
      → reduce_next ops reducers columns next
          (suc fuel)
          (record { inner = t; prev = none; binary = false; done = false })
        ≡ reduce_next ops reducers columns next fuel
            (record { inner = (next t).1; prev = some v; binary = ops.is_binary r; done = false })
  unfolding reduce_next take_values
  first_row reducers columns next fuel t r v h g =
      rw
        (take_row-row ops reducers columns next (reduce_next ops reducers columns next fuel) _
          (next t) r v h g)
        refl

  -- Over one row or more, where Scan of them succeeds and io.EOF comes behind them: if every column
  -- can be folded by itself, ReduceDataset gives the one row of these columns and then io.EOF, and
  -- otherwise the error of a column.
  pub reduce_dataset-Reduces :
      (reducers : ℕ → Option (DecimalReducer E D)) (fuel : ℕ) (d : Dataset E F R) (columns : List F)
      (r : R) (l : List R) (v : ℕ → Option V) (vs : List (ℕ → Option V))
      → d.fields ≡ ok columns
      → length l + 1 < fuel
      → Runs d (r ∷ l) at_eof
      → ops.scan (length columns) r ≡ ok v
      → Scans (ops.scan (length columns)) l vs
      → Reduces ops columns
          (λ j. column ops (reducers j) (v j) (at_column j vs))
          (ops.is_binary r)
          (reduce_dataset ops reducers fuel d)
  unfolding fields_or_nil
  reduce_dataset-Reduces reducers zero d columns r l v vs f m h g sc = absurd (omega arith)
  reduce_dataset-Reduces reducers (suc fuel) d columns r l v vs f m h g sc =
      rw (f, first_row reducers columns d.next fuel d.state r v h.0 g)
        (elim (reduce_next-rest ops reducers columns d.next fuel (d.next d.state).1 v
          (ops.is_binary r) l vs (omega arith) h.1 sc) [
            | reduced out a c z ↦
                inl (out, a, (c, done-eof reducers columns d.next (suc fuel) _ (omega arith) z))
            | refused j e a c z ↦ inr (j, e, a, c, z)
          ])
