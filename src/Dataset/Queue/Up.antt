-- ===== src/Dataset/Queue/Up.antt =====
-- up of Go's container/heap, which pkg/dataset/priority_queue.go runs over its rows.
use arana.Prelude.{
  ℕ, zero, suc, ◌-◌, ◌/◌, ◌≤◌, ◌<◌, ◌≡◌, ◌⊎◌, refl, ap, sym, ◌∙◌, arith, Bool, true, false, not,
  ◌||◌, ◌==◌, leb, Bool-cases, inl, inr,
}
use arana.Dataset.Queue.{Slots, swapped, swap, less_at, up}
use arana.Dataset.Queue.Counting.{count, count-swap}

-- Nothing below n is less than its parent.
abbrev pub IsHeap : {A : Type 0} → (A → A → Bool) → ℕ → (ℕ → A) → Type 0
IsHeap less n at = (k p : ℕ) → 0 < k → k < n → p ≡ (k - 1) / 2 → less (at k) (at p) ≡ false

-- The same but for j, whose children are not less than its parent
abbrev pub IsHeapBut : {A : Type 0} → (A → A → Bool) → ℕ → ℕ → (ℕ → A) → Type 0
IsHeapBut less n j at =
    ((k p : ℕ) → 0 < k → k < n → (k == j) ≡ false → p ≡ (k - 1) / 2 → less (at k) (at p) ≡ false)
    × ((k p : ℕ)
        → 0 < k
        → k < n
        → 0 < j
        → j ≡ (k - 1) / 2
        → p ≡ (j - 1) / 2
        → less (at k) (at p) ≡ false)

module _ {A : Type 0} (at : ℕ → A) (i j k : ℕ) where
  pub swapped-left : k ≡ i → swapped at i j k ≡ at j
  swapped-left h = let e : (k == i) ≡ true = ground (arith, h) in rw (e) refl

  pub swapped-right : k ≡ j → swapped at i j k ≡ at i
  swapped-right h =
      let e : (k == j) ≡ true = ground (arith, h) in
      elim (Bool-cases (k == i)) [
        | inl f ↦ let q : j ≡ i = ground (arith, f, h) in rw (f) (ap at q)
        | inr f ↦ rw (f, e) refl
      ]

  pub swapped-other : (k == i) ≡ false → (k == j) ≡ false → swapped at i j k ≡ at k
  swapped-other e f = rw (e, f) refl

pub not_less :
    {A : Type 0} (less : A → A → Bool) {x y a b : A}
    → x ≡ a
    → y ≡ b
    → less a b ≡ false
    → less x y ≡ false
not_less less {x} {y} {a} {b} hx hy h = ap (λ u. less u y) hx ∙ ap (less a) hy ∙ h

pub less_at-in :
    {A : Type 0} (less : A → A → Bool) (q : Slots A) (i j : ℕ)
    → i < q.len
    → j < q.len
    → less_at less q i j ≡ less (q.at i) (q.at j)
unfolding less_at
less_at-in less q i j hi hj =
    let e : leb q.len i ≡ false = ground (arith, hi) in
    let f : leb q.len j ≡ false = ground (arith, hj) in rw (e, f) refl

module _ {A : Type 0} (less : A → A → Bool) (asym : (a b : A) → less a b ≡ true → less b a ≡ false)
    (trans : (a b c : A) → less b a ≡ false → less c b ≡ false → less c a ≡ false) where
  -- One turn of up: j and its parent i change places.
  module _ (n : ℕ) (at : ℕ → A) (i j : ℕ) (parent : i ≡ (j - 1) / 2) (inside : j < n) (deep : 0 < j)
      (smaller : less (at j) (at i) ≡ true) (h : IsHeapBut less n j at) where
    raised-other :
        (k p : ℕ)
        → 0 < k
        → k < n
        → (k == i) ≡ false
        → (k == j) ≡ false
        → p ≡ (k - 1) / 2
        → less (swapped at i j k) (swapped at i j p) ≡ false
    raised-other k p positive below apart other q =
        let same = swapped-other at i j k apart other in
        elim (Bool-cases (p == i)) [
          | inl e ↦
              let above : p ≡ i = ground (arith, e) in
              not_less less same (swapped-left at i j p above) (
                trans (at j) (at i) (at k) (asym (at j) (at i) smaller)
                  (h.0 k i positive below other (sym above ∙ q)))
          | inr e ↦ elim (Bool-cases (p == j)) [
            | inl f ↦
                let above : p ≡ j = ground (arith, f) in
                not_less less same (swapped-right at i j p above)
                  (h.1 k i positive below deep (sym above ∙ q) parent)
            | inr f ↦
                not_less less same (swapped-other at i j p e f) (h.0 k p positive below other q)
          ]
        ]

    raised : IsHeapBut less n i (swapped at i j)
    raised = (
      λ k p positive below apart q. elim (Bool-cases (k == j)) [
        | inl e ↦
            let here : k ≡ j = ground (arith, e) in
            not_less less (swapped-right at i j k here)
              (swapped-left at i j p (omega (arith, q, here, parent))) (asym (at j) (at i) smaller)
        | inr e ↦ raised-other k p positive below apart e q
      ],
      λ k p positive below high q r.
          let up_p =
            swapped-other at i j p (ground (arith, high, r))
              (ground (arith, high, r, parent, deep)) in
          elim (Bool-cases (k == j)) [
            | inl e ↦
                let here : k ≡ j = ground (arith, e) in
                not_less less (swapped-right at i j k here) up_p
                  (h.0 i p high (omega (arith, parent, inside)) (ground (arith, parent, deep)) r)
            | inr e ↦ not_less less (swapped-other at i j k (ground (arith, q, positive)) e) up_p (
                trans (at p) (at i) (at k)
                  (h.0 i p high (omega (arith, parent, inside)) (ground (arith, parent, deep)) r)
                  (h.0 k i positive below e q))
          ],
    )

  -- Where up stops
  settled :
      (n : ℕ) (at : ℕ → A) (i j : ℕ)
      → i ≡ (j - 1) / 2
      → (j ≡ 0) ⊎ (less (at j) (at i) ≡ false)
      → IsHeapBut less n j at
      → IsHeap less n at
  settled n at i j parent stop h k p positive below q = elim (Bool-cases (k == j)) [
    | inl e ↦
        let here : k ≡ j = ground (arith, e) in
        elim stop [
          | inl top ↦ absurd (omega (arith, here, top, positive))
          | inr least ↦
              let above : p ≡ i = omega (arith, q, here, parent) in
              not_less less (ap at here) (ap at above) least
        ]
    | inr e ↦ h.0 k p positive below e q
  ]

  stops :
      (q : Slots A) (j : ℕ)
      → j < q.len
      → ((j - 1) / 2 == j || not (less_at less q j ((j - 1) / 2))) ≡ true
      → (j ≡ 0) ⊎ (less (q.at j) (q.at ((j - 1) / 2)) ≡ false)
  stops q j inside e =
      let same = less_at-in less q j ((j - 1) / 2) inside (omega (arith, inside)) in
      elim (Bool-cases ((j - 1) / 2 == j)) [
        | inl top ↦ inl (ground (arith, top))
        | inr deep ↦ inr (sym same ∙ ground (arith, e, deep))
      ]

  goes_on :
      (q : Slots A) (j : ℕ)
      → j < q.len
      → ((j - 1) / 2 == j || not (less_at less q j ((j - 1) / 2))) ≡ false
      → (0 < j) × (less (q.at j) (q.at ((j - 1) / 2)) ≡ true)
  goes_on q j inside e =
      let same = less_at-in less q j ((j - 1) / 2) inside (omega (arith, inside)) in
      (ground (arith, e), sym same ∙ ground (arith, e))

  pub up-IsHeap :
      (fuel : ℕ) (q : Slots A) (j : ℕ)
      → j ≤ fuel
      → j < q.len
      → IsHeapBut less q.len j q.at
      → IsHeap less q.len (up less fuel q j).at
  unfolding up swap
  up-IsHeap zero q j enough inside h =
      settled q.len q.at ((j - 1) / 2) j refl (inl (omega (arith, enough))) h
  up-IsHeap (suc fuel) q j enough inside h =
      let i = (j - 1) / 2 in
      elim (Bool-cases (i == j || not (less_at less q j i))) [
        | inl e ↦ rw (e) (settled q.len q.at i j refl (stops q j inside e) h)
        | inr e ↦
            let (deep, smaller) = goes_on q j inside e in
            rw (e) (
              up-IsHeap fuel (swap q i j) i (omega (arith, enough, deep)) (omega (arith, inside))
                (raised q.len q.at i j refl inside deep smaller h))
      ]

  pub up-len : (fuel : ℕ) (q : Slots A) (j : ℕ) → (up less fuel q j).len ≡ q.len
  unfolding up swap
  up-len zero q j = refl
  up-len (suc fuel) q j =
      let i = (j - 1) / 2 in
      elim (Bool-cases (i == j || not (less_at less q j i))) [
        | inl e ↦ rw (e) refl
        | inr e ↦ rw (e) (up-len fuel (swap q i j) i)
      ]

  pub up-count :
      (p : A → Bool) (fuel : ℕ) (q : Slots A) (j : ℕ)
      → j < q.len
      → count p q.len (up less fuel q j).at ≡ count p q.len q.at
  unfolding up swap
  up-count p zero q j inside = refl
  up-count p (suc fuel) q j inside =
      let i = (j - 1) / 2 in
      elim (Bool-cases (i == j || not (less_at less q j i))) [
        | inl e ↦ rw (e) refl
        | inr e ↦ rw (e) (
            up-count p fuel (swap q i j) i (omega (arith, inside))
            ∙ count-swap p q.len i j q.at (omega (arith, inside)) inside)
      ]
