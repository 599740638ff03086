-- ===== src/Dataset/Reduce/Columns.antt =====
-- The reference of ReduceDataset.Next (pkg/dataset/reduce.go): each column folded by itself.
use arana.Prelude.{
  ℕ, zero, suc, ◌+◌, ◌≤◌, ◌<◌, ◌≡◌, refl, sym, ap, subst, arith, Option, none, some, List, [], ◌∷◌,
  ◌⊎◌, inl, inr, ℕ_discrete, ◌∙◌,
}
use arana.Dataset.Streams.{Outcome, ok, fault}
use arana.Dataset.Reduce.{
  and_then, DecimalReducer, RowValues, set_value, entries, fold_cell, store_cell, fold_cells,
}

set_value-same : {V : Type 0} (i : ℕ) (v : Option V) (l : ℕ → Option V) → set_value i v l i ≡ v
unfolding set_value
set_value-same i v l = ground arith

set_value-other :
    {V : Type 0} (i : ℕ) (v : Option V) (l : ℕ → Option V) (j : ℕ)
    → j < i ⊎ i < j
    → set_value i v l j ≡ l j
unfolding set_value
set_value-other i v l j (inl h) = ground arith
set_value-other i v l j (inr h) = ground arith

between : (i j : ℕ) → i ≤ j → (j ≡ i) ⊎ (i < j)
between i j h = elim (ℕ_discrete j i) [ yes eq ↦ inl eq | no ne ↦ inr (omega arith) ]

Outcome-cases :
    {E A : Type 0} (x : Outcome E A) → ((v : A) × (x ≡ ok v)) ⊎ ((e : E) × (x ≡ fault e))
Outcome-cases (ok v) = inl (v, refl)
Outcome-cases (fault e) = inr (e, refl)

pub entries-ext :
    {V : Type 0} (n i : ℕ) (f g : ℕ → Option V)
    → ((j : ℕ) → i ≤ j → j < i + n → f j ≡ g j)
    → entries n i f ≡ entries n i g
unfolding entries
entries-ext zero i f g h = refl
entries-ext (suc n) i f g h =
    rw
      (
        h i (omega arith) (omega arith),
        entries-ext n (suc i) f g λ j a b. h j (omega arith) (omega arith),
      )
      refl

module _ {E F R V D : Type 0} (ops : RowValues E F R V D) where
  -- A column with the values that follow its first one
  unfoldable pub column :
      Option (DecimalReducer E D) → Option V → List (Option V) → Outcome E (Option V)
  column red v [] = ok v
  column red v (w ∷ l) = and_then (fold_cell ops red v w) λ u. column red u l

  -- What the loop over the columns of one row leaves
  pub data Folded (reducers : ℕ → Option (DecimalReducer E D)) (n i : ℕ)
      (values prev : ℕ → Option V) (out : Option E × (ℕ → Option V)) : Type 0 where
    folded :
        out.0 ≡ none
        → ((j : ℕ) → j < i → out.1 j ≡ prev j)
        → ((j : ℕ)
            → i ≤ j
            → j < i + n
            → fold_cell ops (reducers j) (prev j) (values j) ≡ ok (out.1 j))
        → Folded reducers n i values prev out
    broken :
        (j : ℕ) (e : E)
        → i ≤ j
        → j < i + n
        → fold_cell ops (reducers j) (prev j) (values j) ≡ fault e
        → out.0 ≡ some e
        → Folded reducers n i values prev out

  step_Folded :
      (reducers : ℕ → Option (DecimalReducer E D)) (n i : ℕ) (values prev : ℕ → Option V)
      (v : Option V) (out : Option E × (ℕ → Option V))
      → fold_cell ops (reducers i) (prev i) (values i) ≡ ok v
      → Folded reducers n (suc i) values (set_value i v prev) out
      → Folded reducers (suc n) i values prev out
  step_Folded reducers n i values prev v out h (folded a b c) =
      folded a (λ j l. b j (omega arith) ∙ set_value-other i v prev j (inl l))
        λ j l m. elim (between i j l) [
          | inl eq ↦
              subst (λ k. fold_cell ops (reducers k) (prev k) (values k) ≡ ok (out.1 k)) (sym eq)
                (h ∙ ap ok (sym (b i (omega arith) ∙ set_value-same i v prev)))
          | inr more ↦
              subst (λ p. fold_cell ops (reducers j) p (values j) ≡ ok (out.1 j))
                (set_value-other i v prev j (inr more)) (c j more (omega arith))
        ]
  step_Folded reducers n i values prev v out h (broken j e l m c d) =
      broken j e (omega arith) (omega arith)
        (subst (λ p. fold_cell ops (reducers j) p (values j) ≡ fault e)
          (set_value-other i v prev j (inr l)) c)
        d

  pub fold_cells-Folded :
      (reducers : ℕ → Option (DecimalReducer E D)) (n i : ℕ) (values prev : ℕ → Option V)
      → Folded reducers n i values prev (fold_cells ops reducers n i values prev)
  unfolding fold_cells store_cell
  fold_cells-Folded reducers zero i values prev =
      folded refl (λ j h. refl) λ j a b. absurd (omega arith)
  fold_cells-Folded reducers (suc n) i values prev =
      elim (Outcome-cases (fold_cell ops (reducers i) (prev i) (values i))) [
        | inl (v, h) ↦ rw (h) (
            step_Folded reducers n i values prev v _ h
              (fold_cells-Folded reducers n (suc i) values (set_value i v prev)))
        | inr (e, h) ↦ broken i e (omega arith) (omega arith) h (rw (h, store_cell) refl)
      ]
