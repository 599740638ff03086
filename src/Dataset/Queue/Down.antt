-- ===== src/Dataset/Queue/Down.antt =====
-- down of Go's container/heap, which pkg/dataset/priority_queue.go runs over its rows.
use arana.Prelude.{
  ℕ, ◌+◌, ◌-◌, ◌*◌, ◌/◌, ◌≤◌, ◌<◌, ◌≡◌, ◌⊎◌, refl, ap, sym, ◌∙◌, arith, Bool, true, false, ◌&&◌,
  ◌==◌, ltb, Bool-cases, inl, inr,
}
use arana.Dataset.Queue.{Slots, swapped, less_at, child}
use arana.Dataset.Queue.Up.{
  IsHeap, swapped-left, swapped-right, swapped-other, not_less, less_at-in,
}

-- A heap but for the children of i, which are not less than the parent of i
abbrev pub IsHeapUnder : {A : Type 0} → (A → A → Bool) → ℕ → ℕ → (ℕ → A) → Type 0
IsHeapUnder less n i at =
    ((k p : ℕ) → 0 < k → k < n → (p == i) ≡ false → p ≡ (k - 1) / 2 → less (at k) (at p) ≡ false)
    × ((k p : ℕ)
        → 0 < k
        → k < n
        → 0 < i
        → i ≡ (k - 1) / 2
        → p ≡ (i - 1) / 2
        → less (at k) (at p) ≡ false)

module _ {A : Type 0} (less : A → A → Bool) (asym : (a b : A) → less a b ≡ true → less b a ≡ false)
    (trans : (a b c : A) → less b a ≡ false → less c b ≡ false → less c a ≡ false) where
  pub irreflexive : (a : A) → less a a ≡ false
  irreflexive a = elim (Bool-cases (less a a)) [ inl e ↦ asym a a e | inr e ↦ e ]

  unfoldable pub IsLeast : (ℕ → A) → ℕ → ℕ → ℕ → Type 0
  IsLeast at n i j =
      ((j ≡ 2 * i + 1) ⊎ (j ≡ 2 * i + 1 + 1))
      × (j < n)
      × ((k : ℕ) → 0 < k → k < n → i ≡ (k - 1) / 2 → less (at k) (at j) ≡ false)

  child-right :
      (at : ℕ → A) (n i : ℕ)
      → 2 * i + 1 + 1 < n
      → less (at (2 * i + 1 + 1)) (at (2 * i + 1)) ≡ true
      → IsLeast at n i (2 * i + 1 + 1)
  unfolding IsLeast
  child-right at n i inside e = (
    inr refl,
    inside,
    λ k positive below q. elim (Bool-cases (k == 2 * i + 1)) [
      | inl f ↦
          let here : k ≡ 2 * i + 1 = ground (arith, f) in
          not_less less (ap at here) refl (asym (at (2 * i + 1 + 1)) (at (2 * i + 1)) e)
      | inr f ↦
          let here : k ≡ 2 * i + 1 + 1 = ground (arith, f, q, positive) in
          not_less less (ap at here) refl (irreflexive (at (2 * i + 1 + 1)))
    ],
  )

  child-left :
      (at : ℕ → A) (n i : ℕ)
      → 2 * i + 1 < n
      → (n ≤ 2 * i + 1 + 1) ⊎ (less (at (2 * i + 1 + 1)) (at (2 * i + 1)) ≡ false)
      → IsLeast at n i (2 * i + 1)
  unfolding IsLeast
  child-left at n i inside e = (
    inl refl,
    inside,
    λ k positive below q. elim (Bool-cases (k == 2 * i + 1)) [
      | inl f ↦
          let here : k ≡ 2 * i + 1 = ground (arith, f) in
          not_less less (ap at here) refl (irreflexive (at (2 * i + 1)))
      | inr f ↦
          let here : k ≡ 2 * i + 1 + 1 = ground (arith, f, q, positive) in
          elim e [
            | inl out ↦ absurd (omega (arith, out, here, below))
            | inr least ↦ not_less less (ap at here) refl least
          ]
    ],
  )

  no_right :
      (q : Slots A) (n j1 : ℕ)
      → n ≤ q.len
      → (ltb (j1 + 1) n && less_at less q (j1 + 1) j1) ≡ false
      → (n ≤ j1 + 1) ⊎ (less (q.at (j1 + 1)) (q.at j1) ≡ false)
  no_right q n j1 small e = elim (Bool-cases (ltb (j1 + 1) n)) [
    | inr out ↦ inl (ground (arith, out))
    | inl two ↦
        let inside : j1 + 1 < n = ground (arith, two) in
        let same =
          less_at-in less q (j1 + 1) j1 (omega (arith, inside, small))
            (omega (arith, inside, small)) in
        inr (sym same ∙ ground (arith, e, two))
  ]

  pub child-IsLeast :
      (q : Slots A) (n i : ℕ) → n ≤ q.len → 2 * i + 1 < n → IsLeast q.at n i (child less q n i)
  unfolding child
  child-IsLeast q n i small inside =
      let j1 = 2 * i + 1 in
      elim (Bool-cases (ltb (j1 + 1) n && less_at less q (j1 + 1) j1)) [
        | inl e ↦
            let two : j1 + 1 < n = ground (arith, e) in
            let same =
              less_at-in less q (j1 + 1) j1 (omega (arith, two, small))
                (omega (arith, inside, small)) in
            rw (e) (child-right q.at n i two (sym same ∙ ground (arith, e)))
        | inr e ↦ rw (e) (child-left q.at n i inside (no_right q n j1 small e))
      ]

  -- One turn of down: i and its smaller child j change places.
  module _ (n : ℕ) (at : ℕ → A) (i j : ℕ) (least : IsLeast at n i j)
      (smaller : less (at j) (at i) ≡ true) (h : IsHeapUnder less n i at) where
    pub below_parent : (0 < j) × (i < j) × (i ≡ (j - 1) / 2) × (j < n)
    unfolding IsLeast
    below_parent = elim least.0 [
      | inl e ↦ (omega (arith, e), omega (arith, e), omega (arith, e), least.1)
      | inr e ↦ (omega (arith, e), omega (arith, e), omega (arith, e), least.1)
    ]

    lowered_self :
        (k p : ℕ)
        → 0 < k
        → k ≡ i
        → p ≡ (k - 1) / 2
        → less (swapped at i j k) (swapped at i j p) ≡ false
    lowered_self k p positive here q =
        let (deep, under, up_j, inside) = below_parent in
        not_less less (swapped-left at i j k here)
          (swapped-other at i j p (ground (arith, q, here, positive))
            (ground (arith, q, here, positive, under)))
          (h.1 j p deep inside (omega (arith, here, positive)) up_j (omega (arith, q, here)))

    lowered-other :
        (k p : ℕ)
        → 0 < k
        → k < n
        → (k == i) ≡ false
        → (k == j) ≡ false
        → (p == j) ≡ false
        → p ≡ (k - 1) / 2
        → less (swapped at i j k) (swapped at i j p) ≡ false
    unfolding IsLeast
    lowered-other k p positive below e f apart q =
        let same = swapped-other at i j k e f in
        elim (Bool-cases (p == i)) [
          | inl g ↦
              let above : p ≡ i = ground (arith, g) in
              not_less less same (swapped-left at i j p above)
                (least.2 k positive below (sym above ∙ q))
          | inr g ↦ not_less less same (swapped-other at i j p g apart) (h.0 k p positive below g q)
        ]

    pub lowered : IsHeapUnder less n j (swapped at i j)
    lowered =
        let (deep, under, up_j, inside) = below_parent in
        (
          λ k p positive below apart q. elim (Bool-cases (k == i)) [
            | inl e ↦ lowered_self k p positive (ground (arith, e)) q
            | inr e ↦ elim (Bool-cases (k == j)) [
              | inl f ↦
                  let here : k ≡ j = ground (arith, f) in
                  not_less less (swapped-right at i j k here)
                    (swapped-left at i j p (omega (arith, q, here, up_j)))
                    (asym (at j) (at i) smaller)
              | inr f ↦ lowered-other k p positive below e f apart q
            ]
          ],
          λ k p positive below high q r.
              not_less less
                (swapped-other at i j k (ground (arith, q, under, positive))
                  (ground (arith, q, deep, positive)))
                (swapped-left at i j p (omega (arith, r, up_j)))
                (h.0 k j positive below (ground (arith, under)) q),
        )

  -- Where down stops
  pub bottom :
      (n : ℕ) (at : ℕ → A) (i : ℕ) → n ≤ 2 * i + 1 → IsHeapUnder less n i at → IsHeap less n at
  bottom n at i low h k p positive below q =
      h.0 k p positive below (ground (arith, q, low, below, positive)) q

  pub placed :
      (n : ℕ) (at : ℕ → A) (i j : ℕ)
      → IsLeast at n i j
      → less (at j) (at i) ≡ false
      → IsHeapUnder less n i at
      → IsHeap less n at
  unfolding IsLeast
  placed n at i j least stop h k p positive below q = elim (Bool-cases (p == i)) [
    | inl e ↦
        let above : p ≡ i = ground (arith, e) in
        not_less less refl (ap at above)
          (trans (at i) (at j) (at k) stop (least.2 k positive below (sym above ∙ q)))
    | inr e ↦ h.0 k p positive below e q
  ]
