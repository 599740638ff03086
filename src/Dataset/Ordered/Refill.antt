-- ===== src/Dataset/Ordered/Refill.antt =====
-- pkg/dataset/ordered.go: each stream that has rows left has a row in the queue that is not behind
-- them. A stream that is at its end may be refilled from another one (parallelDataset.Next goes on
-- to it), so the queue may hold rows that are marked with a stream they do not come from.
use arana.Prelude.{
  ℕ, ◌+◌, ◌<◌, ◌≡◌, ◌⊎◌, refl, ap, sym, subst, ◌∙◌, arith, Bool, true, false, not, ◌&&◌, List, [],
  ◌∷◌, ◌==◌, Bool-cases, inl, inr,
}
use arana.Dataset.Queue.{Slots}
use arana.Dataset.Queue.Counting.{bit, updated, updated-other, count, count_mono}
use arana.Dataset.Ordered.{RowItem}
use arana.Dataset.Ordered.Totals.{IsSorted, Follows}

module _ {R : Type 0} (less : R → R → Bool)
    (trans : (a b c : R) → less b a ≡ false → less c b ≡ false → less c a ≡ false) where
  -- The item is marked with the stream k and the row r is not less than it.
  abbrev pub waits : ℕ → R → RowItem R → Bool
  waits k r item = (item.stream_idx == k) && not (less r item.item_row)

  -- Each of the first m streams that has rows left has such an item.
  unfoldable pub Waits : ℕ → (ℕ → List R) → Slots (RowItem R) → Type 0
  Waits m rests q =
      (k : ℕ) (r : R) (l : List R) → k < m → rests k ≡ r ∷ l → 0 < count (waits k r) q.len q.at

  -- The same but for one stream
  unfoldable pub WaitsBut : ℕ → ℕ → (ℕ → List R) → Slots (RowItem R) → Type 0
  WaitsBut index m rests q =
      (k : ℕ) (r : R) (l : List R)
      → k < m
      → (k == index) ≡ false
      → rests k ≡ r ∷ l
      → 0 < count (waits k r) q.len q.at

  waits-later :
      (i : ℕ) (r s : R) (item : RowItem R)
      → less s r ≡ false
      → waits i r item ≡ true
      → waits i s item ≡ true
  waits-later i r s item order h =
      let at_i : (item.stream_idx == i) ≡ true = ground (arith, h) in
      let behind : less r item.item_row ≡ false = ground (arith, h) in
      rw (at_i, trans item.item_row r s behind order) refl

  second_row : (r s : R) (l m : List R) → l ≡ s ∷ m → IsSorted less (r ∷ l) → less s r ≡ false
  second_row r s l m e h = subst (λ x. Follows less r x) e h.0

  -- A row r of the stream i goes to the queue, marked with the stream `index`, which is i unless
  -- that one is at its end.
  module _ (m index i : ℕ) (rests : ℕ → List R) (r : R) (l : List R) (q0 q1 : Slots (RowItem R))
      (before : WaitsBut index m rests q0) (has : rests i ≡ r ∷ l)
      (from : (rests index ≡ []) ⊎ (i ≡ index)) (sorted : IsSorted less (rests i))
      (grown : (p : RowItem R → Bool)
        → count p q1.len q1.at
          ≡ count p q0.len q0.at + bit (p (record { item_row = r; stream_idx = index }))) where
    refilled-same : (s : R) (t : List R) → i < m → l ≡ s ∷ t → 0 < count (waits i s) q1.len q1.at
    unfolding WaitsBut
    refilled-same s t below e =
        let order = second_row r s l t e (subst (IsSorted less) has sorted) in
        elim (Bool-cases (i == index)) [
          | inl f ↦
              let q : (index == i) ≡ true = ground (arith, f) in
              let one : bit (waits i s (record { item_row = r; stream_idx = index })) ≡ 1 =
                rw (q, order) refl in
              omega (arith, grown (waits i s), one)
          | inr f ↦
              let waited = before i r l below f has in
              let more =
                count_mono (waits i r) (waits i s) q0.len q0.at
                  (λ item. waits-later i r s item order) in
              omega (arith, grown (waits i s), waited, more)
        ]

    refilled-other :
        (k : ℕ) (s : R) (t : List R)
        → k < m
        → (k == i) ≡ false
        → rests k ≡ s ∷ t
        → 0 < count (waits k s) q1.len q1.at
    unfolding WaitsBut
    refilled-other k s t below apart e = elim (Bool-cases (k == index)) [
      | inr f ↦ omega (arith, grown (waits k s), before k s t below f e)
      | inl f ↦
          let here : k ≡ index = ground (arith, f) in
          elim from [
            | inl empty ↦ let clash : s ∷ t ≡ [] = sym e ∙ ap rests here ∙ empty in absurd (cc)
            | inr same ↦ absurd (ground (arith, apart, here, same))
          ]
    ]

    pub refilled : Waits m (updated rests i l) q1
    unfolding Waits
    refilled k s t below e = elim (Bool-cases (k == i)) [
      | inl f ↦
          let here : k ≡ i = ground (arith, f) in
          let moved : updated rests i l k ≡ l = rw (f) refl in
          subst (λ x. 0 < count (waits x s) q1.len q1.at) (sym here)
            (refilled-same s t (omega (arith, here, below)) (sym moved ∙ e))
      | inr f ↦ refilled-other k s t below f (sym (updated-other rests i k l f) ∙ e)
    ]
